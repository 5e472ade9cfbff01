-- ===== src/Services/QueueManager/Placed/Steps.antt =====
-- The steps that put a task into its ready list and save its row.
use atlas_queue.Prelude.{
  ◌≡◌, refl, sym, subst, Bool, true, false, some, List, any, ==_refl, if◌then◌else◌,
}
use atlas_queue.Prelude.Int.{ℤ, pos, negsuc, eqb_ℤ}
use atlas_queue.Domain.Exceptions.{Exc, Result, ok, err}
use atlas_queue.Domain.Enums.{queued, same_status}
use atlas_queue.Domain.Task.{Task, transition_to, allowed}
use atlas_queue.Persistence.Models.{TaskModel}
use atlas_queue.Persistence.Tasks.{save}
use atlas_queue.Persistence.Tasks.Saved.{Saved, At, save-Saved}
use atlas_queue.Redis.Queue.{clamp_priority, enqueue_ready}
use atlas_queue.Runtime.Exec.{Exec}
use atlas_queue.Runtime.Exec.Ensures.{Post, Ensures-weaken}
use atlas_queue.Runtime.World.{Env, World, Settings}
use atlas_queue.Runtime.World.Calls.{Ensures-redis_do}
use atlas_queue.Runtime.Frame.{Frame, on_world, transition, moved}
use atlas_queue.Runtime.Frame.Objects.{Gives, object}
use atlas_queue.Services.Rows.{KeepsTasks}
use atlas_queue.Services.QueueManager.Queued.{
  Gives-and, HasRow, InList, Saved-HasRow, KeepsRedis, save-KeepsRedis,
}

-- a fact about the world after an action, in its frame
pub in_frame :
    {A : Type 0} (Q : World → Type 0) (m : Exec World A)
    → ((w : World) → Post (λ _. Q) (λ _. Unit) (m w))
    → Gives (λ f. Unit) (on_world m) (λ _ f. Q f.world)
unfolding on_world
in_frame {A} Q m h = record { at = λ f _. go f.task (m f.world) (h f.world) }
  where
    go :
        (t : Task) (r : Result A × World)
        → Post (λ _. Q) (λ _. Unit) r
        → Post {S = Frame} (λ _ f. Q f.world) (λ _. Unit) (r.0, record { task = t; world = r.1 })
    go t (ok a, w) h = h
    go t (err e, w) h = h

-- a save that returns has written the row
pub save-HasRow :
    (env : Env) (u : Task) (w : World)
    → Post (λ _ v. HasRow u.id u.status v.db.tasks) (λ _. Unit) (save env u w)
save-HasRow env u w = from w.db.tasks _ ((save-Saved env u w.db.tasks).at w refl)
  where
    from :
        (rows : List TaskModel) (r : Result (Unit {0}) × World)
        → Post (λ _ v. Saved u rows v.db.tasks) (At rows) r
        → Post (λ _ v. HasRow u.id u.status v.db.tasks) (λ _. Unit) r
    from rows (ok _, v) p = Saved-HasRow u rows v.db.tasks p
    from rows (err _, v) p = tt

module _ (env : Env) (settings : Settings) where
  abbrev pub list_for : Task → ℤ
  list_for t = clamp_priority settings.priority_levels t.priority.value

  abbrev pub Listed : Frame → Type 0
  Listed f = InList f.task.id (list_for f.task) f.world.redis

  abbrev pub Stored : Frame → Type 0
  Stored f = HasRow f.task.id f.task.status f.world.db.tasks

  pub list_stays :
      {A : Type 0} (m : Exec World A) → KeepsRedis m → Gives Listed (on_world m) (λ _. Listed)
  unfolding on_world
  list_stays {A} m keeps = record {
    at = λ f h. go f f.task (m f.world) ((keeps f.world.redis).at f.world refl) h;
  }
    where
      go :
          (f : Frame) (t : Task) (r : Result A × World)
          → Post (λ _ w. w.redis ≡ f.world.redis) (λ _. Unit) r
          → InList t.id (list_for t) f.world.redis
          → Post (λ _. Listed) (λ _. Unit) (r.0, record { task = t; world = r.1 })
      go f t (ok a, w) e h = subst (InList t.id (list_for t)) (sym e) h
      go f t (err x, w) e h = tt

  row_stays :
      {A : Type 0} (m : Exec World A) → KeepsTasks m → Gives Stored (on_world m) (λ _. Stored)
  unfolding on_world
  row_stays {A} m keeps = record {
    at = λ f h. go f f.task (m f.world) ((keeps.at f.world.db.tasks).at f.world refl) h;
  }
    where
      go :
          (f : Frame) (t : Task) (r : Result A × World)
          → Post (λ _. At f.world.db.tasks) (At f.world.db.tasks) r
          → HasRow t.id t.status f.world.db.tasks
          → Post (λ _. Stored) (λ _. Unit) (r.0, record { task = t; world = r.1 })
      go f t (ok a, w) e h = subst (HasRow t.id t.status) (sym e) h
      go f t (err x, w) e h = tt

  eqb_ℤ_refl : (p : ℤ) → eqb_ℤ p p ≡ true
  eqb_ℤ_refl (pos n) = ==_refl n
  eqb_ℤ_refl (negsuc n) = ==_refl n

  push-InList :
      (u : Task)
      → Gives
          (λ w. Unit)
          (enqueue_ready env settings u.id u.priority.value)
          (λ _ v. InList u.id (list_for u) v.redis)
  unfolding enqueue_ready
  push-InList u =
      Ensures-redis_do env _ (λ w at h. (rw (eqb_ℤ_refl (list_for u), ==_refl u.id) refl, tt))
        (λ w h. tt)

  pub pushed :
      (u : Task) (X : Task → Type 0)
      → Gives
          (λ f. (f.task ≡ u) × X f.task)
          (on_world (enqueue_ready env settings u.id u.priority.value))
          (λ _. Listed)
  pushed u X =
      Ensures-weaken _
        (Gives-and _ (object (λ t. t ≡ u) _)
          (in_frame (λ w. InList u.id (list_for u) w.redis) _ (λ w. (push-InList u).at w tt)))
        (λ f h. (h.0, tt))
        (λ _ f h. subst (λ t. InList t.id (list_for t) f.world.redis) (sym h.0) h.1) (λ f h. tt)

  pub to_queued : Gives Listed (transition env queued) (λ _ f. (f.task.status ≡ queued) × Listed f)
  unfolding transition transition_to
  to_queued = record {
    at = λ f h. by_edge f h (any (same_status queued) (allowed f.task.status)) _;
  }
    where
      by_edge :
          (f : Frame)
          → Listed f
          → (b : Bool) (x : Exc)
          → Post
              (λ _ f. (f.task.status ≡ queued) × Listed f)
              (λ _. Unit)
              (moved f (
                if b
                then ok
                    (record f.task { status = queued; updated_at = some (env.now f.world.calls) })
                else err x))
      by_edge f h true x = (refl, h)
      by_edge f h false x = tt

  -- the object is QUEUED, in its ready list, and its row says so
  abbrev pub Done : Frame → Type 0
  Done f = (f.task.status ≡ queued) × (Listed f × Stored f)

  pub saved :
      (u : Task)
      → Gives
          (λ f. (f.task ≡ u) × ((f.task.status ≡ queued) × Listed f))
          (on_world (save env u))
          (λ _. Done)
  saved u =
      Ensures-weaken _
        (Gives-and _ (object (λ t. (t ≡ u) × (t.status ≡ queued)) _) (
          Gives-and _ (list_stays _ (save-KeepsRedis env u))
            (in_frame (λ w. HasRow u.id u.status w.db.tasks) _ (save-HasRow env u))))
        (λ f h. ((h.0, h.1.0), (h.1.1, tt)))
        (λ _ f h.
          (h.0.1, (h.1.0, subst (λ t. HasRow t.id t.status f.world.db.tasks) (sym h.0.0) h.1.1)))
        (λ f h. tt)

  pub both_stay :
      {A : Type 0} (m : Exec World A)
      → KeepsRedis m
      → KeepsTasks m
      → Gives Done (on_world m) (λ _. Done)
  both_stay m redis tasks =
      Gives-and _ (object (λ t. t.status ≡ queued) m)
        (Gives-and _ (list_stays m redis) (row_stays m tasks))
