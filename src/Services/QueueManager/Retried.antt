-- ===== src/Services/QueueManager/Retried.antt =====
-- The manual retry of a task.
use atlas_queue.Prelude.{
  ◌≡◌, refl, ap, true, Option, none, some, [], ◌∷◌, any, subst, ◌⊎◌, inl, inr,
}
use atlas_queue.Domain.Enums.{TaskStatus, queued, failed, dead_letter, same_status}
use atlas_queue.Domain.Task.{Task, Instant}
use atlas_queue.Persistence.Tasks.{save}
use atlas_queue.Persistence.Events.{append}
use atlas_queue.Redis.Queue.{enqueue_ready}
use atlas_queue.Runtime.Exec.{Exec, ◌>>◌, pure}
use atlas_queue.Runtime.Exec.Ensures.{
  Post, Ensures-bind, Ensures-if, Ensures-pure, Ensures-raise, Ensures-weaken,
}
use atlas_queue.Runtime.World.{Env, World, Settings, emit, tasks_retried}
use atlas_queue.Runtime.Frame.{Frame, on_world}
use atlas_queue.Runtime.Frame.Rules.{Ensures-read}
use atlas_queue.Runtime.Frame.Objects.{Gives, Of, object, object_update, object_transition}
use atlas_queue.Services.Rows.{KeepsTasks, KeepsTasks-append, KeepsTasks-emit}
use atlas_queue.Services.QueueManager.{retry_found}
use atlas_queue.Services.QueueManager.Queued.{
  Gives-and, KeepsRedis, append-KeepsRedis, emit-KeepsRedis,
}
use atlas_queue.Services.QueueManager.Placed.{Placed}
use atlas_queue.Services.QueueManager.Placed.Steps.{Listed, Done, pushed, saved, both_stay}

-- the states from which a task may be retried
abbrev pub Retriable : Task → Type 0
Retriable t = (t.status ≡ dead_letter) ⊎ (t.status ≡ failed)

retriable :
    (s : TaskStatus)
    → any (same_status s) (dead_letter ∷ failed ∷ []) ≡ true
    → (s ≡ dead_letter) ⊎ (s ≡ failed)
retriable dead_letter h = inl refl
retriable failed h = inr refl
retriable _ h = cc

-- `t` with its counters, its last failure and its last run cleared
abbrev pub reset : Task → Task
reset t = record t {
  attempts = 0;
  error = none;
  worker_id = none;
  started_at = none;
  finished_at = none;
}

-- `u` is that, QUEUED since an instant, and nothing else of it differs from `t`
abbrev pub Cleared : Task → Task → Type 0
Cleared t u = (at : Instant) × (u ≡ record (reset t) { status = queued; updated_at = some at })

module _ (env : Env) (settings : Settings) (t0 : Task) where
  abbrev pub Retried : Task → Frame → Type 0
  Retried u f = (f.task ≡ u) × Retriable t0 × Cleared t0 u × Placed env settings u f.world

  abbrev Ready : Task → Type 0
  Ready t = (t.status ≡ queued) × Retriable t0 × Cleared t0 t

  abbrev Back : Task → Task → Type 0
  Back u t = (t ≡ u) × Ready t

  listed :
      (u : Task)
      → Gives
          (Of (Back u))
          (on_world (enqueue_ready env settings u.id u.priority.value))
          (λ _ f. Back u f.task × Listed env settings f)
  listed u =
      Ensures-weaken _ (Gives-and _ (object (Back u) _) (pushed env settings u Ready))
        (λ f h. (h, h)) (λ _ f h. h) (λ f h. tt)

  -- a step after the save
  stays :
      {A : Type 0} (u : Task) (m : Exec World A)
      → KeepsRedis m
      → KeepsTasks m
      → Gives
          (λ f. Back u f.task × Done env settings f)
          (on_world m)
          (λ _ f. Back u f.task × Done env settings f)
  stays u m redis tasks = Gives-and _ (object (Back u) _) (both_stay env settings m redis tasks)

  recorded :
      (u : Task) (from : Option TaskStatus)
      → Gives
          (λ f. Back u f.task × Listed env settings f)
          (do
            on_world (save env u)
            on_world (append env u.id "task.retried" from (some u.status) none [])
            on_world (emit tasks_retried)
            pure u)
          Retried
  recorded u from =
      Ensures-bind {R = λ _ f. Back u f.task × Done env settings f} _ _
        (Ensures-weaken _ (Gives-and _ (object (Back u) _) (saved env settings u))
          (λ f h. (h.0, (h.0.0, (h.0.1.0, h.1)))) (λ _ f h. h) (λ f h. tt))
        λ _.
          Ensures-bind _ _
            (stays u _ (append-KeepsRedis env _ _ _ _ _ _) (KeepsTasks-append env _ _ _ _ _ _))
            λ _. Ensures-bind _ _ (stays u _ (emit-KeepsRedis _) (KeepsTasks-emit _)) λ _.
              Ensures-pure u (λ f h. (
                h.0.0,
                h.0.1.1,
                subst (Cleared t0) h.0.0 h.0.1.2,
                subst (λ t. Placed env settings t f.world) h.0.0 h.1,
              ))

  retry_found-Gives : Gives (Of (λ t. t ≡ t0)) (retry_found env settings) Retried
  unfolding retry_found
  retry_found-Gives = Ensures-read _ λ before.
      Ensures-bind {R = λ _. Of (λ t. Retriable t0 × (t ≡ t0))} _ _
        (Ensures-if (any (same_status before.status) (dead_letter ∷ failed ∷ [])) _ _
          (λ e. Ensures-pure tt (λ f h. (rw (← h.1, h.0) (retriable before.status e), h.1)))
          (λ e. Ensures-raise _ (λ f h. tt)))
        λ _.
          Ensures-bind {R = λ _. Of (λ t. Retriable t0 × (t ≡ reset t0))} _ _
            (object_update _ _ _ (λ t h. (h.0, ap reset h.1)))
            λ _.
              Ensures-bind {R = λ _. Of Ready} _ _
                (object_transition (λ t. Retriable t0 × (t ≡ reset t0)) Ready env queued
                  (λ t at h edge. (
                    refl,
                    h.0,
                    (
                      at,
                      ap {A = Task} (λ u. record u { status = queued; updated_at = some at }) h.1,
                    ),
                  )))
                λ _. Ensures-read {P = Of Ready} _ λ u.
                  Ensures-bind _ _ (Ensures-weaken _ (listed u) (λ f h. h) (λ _ f h. h) (λ f h. h))
                    λ _. recorded u _

-- A manual retry that returns had a task that was DEAD_LETTER or FAILED. The task that it answers
-- is that one with its attempts, its error, its worker and the times of its run cleared, QUEUED and
-- with a new time of update, and nothing else of it has changed. It is in its ready list, and its
-- row says that it is QUEUED.
pub retry_found-Retried :
    (env : Env) (settings : Settings) (f : Frame)
    → Post (Retried env settings f.task) (λ _. Unit) (retry_found env settings f)
retry_found-Retried env settings f = (retry_found-Gives env settings f.task).at f refl
