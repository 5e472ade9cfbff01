-- ===== src/Services/Scheduler/Releases.antt =====
-- The release of a task that has been claimed from the scheduled set.
use atlas_queue.Prelude.{ℕ, suc, ◌≡◌, refl, true, false, Option, none, some, if◌then◌else◌, Bool}
use atlas_queue.Domain.Exceptions.{Result, ok, err}
use atlas_queue.Domain.Enums.{scheduled, queued, same_status}
use atlas_queue.Domain.Task.{Task}
use atlas_queue.Runtime.Exec.{pure, ◌>>=◌, ◌>>◌, continue}
use atlas_queue.Runtime.Exec.Ensures.{Post, Ensures-bind, Ensures-weaken}
use atlas_queue.Runtime.World.{Env, World, Settings}
use atlas_queue.Runtime.Frame.{Frame, with_task}
use atlas_queue.Runtime.Frame.Rules.{Ensures-read}
use atlas_queue.Runtime.Frame.Objects.{Gives, Of, object, object_transition}
use atlas_queue.Services.Rows.{KeepsTasks-append}
use atlas_queue.Services.QueueManager.Queued.{Gives-and, append-KeepsRedis}
use atlas_queue.Services.QueueManager.Placed.{Placed}
use atlas_queue.Services.QueueManager.Placed.Steps.{
  Listed, Done, pushed, to_queued, saved, both_stay,
}
use atlas_queue.Services.Scheduler.{release, process_due}

module _ (env : Env) (settings : Settings) where
  release-Done : Gives (λ f. Unit) (release env settings) (λ _. Done env settings)
  unfolding release
  release-Done = Ensures-read _ λ before.
      Ensures-bind _ _ (pushed env settings before (λ _. Unit)) λ _.
        Ensures-bind _ _ (to_queued env settings) λ _.
          Ensures-read {P = λ f. (f.task.status ≡ queued) × Listed env settings f} _ λ u.
            Ensures-bind _ _ (saved env settings u) λ _.
              both_stay env settings _ (append-KeepsRedis env _ _ _ _ _ _)
                (KeepsTasks-append env _ _ _ _ _ _)

  -- the task as it was, but for its status
  abbrev Same : Task → Task → Type 0
  Same t u = (u.id ≡ t.id) × (u.priority ≡ t.priority)

  release-Same : (t : Task) → Gives (Of (Same t)) (release env settings) (λ _. Of (Same t))
  unfolding release
  release-Same t = Ensures-read _ λ before.
      Ensures-bind {R = λ _. Of (Same t)} _ _
        (Ensures-weaken _ (object (Same t) _) (λ f h. h.1) (λ _ f h. h) (λ f h. tt))
        λ _.
          Ensures-bind _ _ (object_transition (Same t) (Same t) env queued (λ u at h edge. h)) λ _.
            Ensures-read _ λ u.
              Ensures-weaken _ (Ensures-bind _ _ (object (Same t) _) λ _. object (Same t) _)
                (λ f h. h.1) (λ _ f h. h) (λ f h. tt)

  -- a task of that id and priority is QUEUED in both stores
  abbrev pub Released : Task → World → Type 0
  Released t w = (u : Task) × (u.id ≡ t.id) × (u.priority ≡ t.priority) × Placed env settings u w

  abbrev pub Processed : ℕ → Option Task → World → ℕ → World → Type 0
  Processed n none w m v = (m ≡ n) × (v ≡ w)
  Processed n (some t) w m v =
      if same_status t.status scheduled then (m ≡ suc n) × Released t v else (m ≡ n) × (v ≡ w)

  released :
      (n : ℕ) (t : Task) (w : World)
      → Post
          (λ m v. (m ≡ suc n) × Released t v)
          (λ _. Unit)
          ((do with_task t (release env settings); pure (suc n)) w)
  unfolding ◌>>=◌ with_task pure
  released n t w = left _ (
      (Gives-and _ (release-Same t) release-Done).at (record { task = t; world = w })
        ((refl, refl), tt))
    where
      left :
          (r : Result (Unit {0}) × Frame)
          → Post (λ _ f. Same t f.task × Done env settings f) (λ _. Unit) r
          → Post
              (λ m v. (m ≡ suc n) × Released t v)
              (λ _. Unit)
              (continue (λ _ v. (ok (suc n), v)) (r.0, r.1.world))
      left (ok _, f) h = (refl, (f.task, h.0.0, h.0.1, h.1))
      left (err _, f) h = tt

-- The scheduler's step for a claimed id, if it returns: a SCHEDULED task is counted, and is QUEUED
-- in its row and in the ready list of its priority; a task that is not there or not SCHEDULED is
-- not counted, and nothing changes.
pub process_due-Processed :
    (env : Env) (settings : Settings) (n : ℕ) (o : Option Task) (w : World)
    → Post (Processed env settings n o w) (λ _. Unit) (process_due env settings n o w)
unfolding process_due pure
process_due-Processed env settings n none w = (refl, refl)
process_due-Processed env settings n (some t) w = by_status (same_status t.status scheduled)
  where
    by_status :
        (b : Bool)
        → Post
            (λ m v. if b then (m ≡ suc n) × Released env settings t v else (m ≡ n) × (v ≡ w))
            (λ _. Unit)
            ((if b then (do with_task t (release env settings); pure (suc n)) else pure n) w)
    by_status true = released env settings n t w
    by_status false = (refl, refl)
