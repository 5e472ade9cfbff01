-- ===== src/Services/QueueManager/Placed.antt =====
-- The submission of a new task, in the table of tasks and in the ready lists.
pub mod Steps
use atlas_queue.Prelude.{
  ℕ, ◌≡◌, refl, sym, subst, Bool, true, false, some, List, any, ltb, ==_refl, if◌then◌else◌,
}
use atlas_queue.Prelude.Int.{ℤ, pos, negsuc, eqb_ℤ}
use atlas_queue.Domain.Exceptions.{Exc, Result, ok, err, payload_too_large_error}
use atlas_queue.Domain.Enums.{pending, scheduled, queued, same_status, parse_executor}
use atlas_queue.Domain.Task.{
  Task, Instant, create, create-holds, transition_to, allowed, is_later, make_priority,
}
use atlas_queue.Persistence.Models.{TaskModel}
use atlas_queue.Persistence.Tasks.{save}
use atlas_queue.Persistence.Tasks.Saved.{Saved, At, save-Saved}
use atlas_queue.Redis.Queue.{clamp_priority, enqueue_ready}
use atlas_queue.Runtime.Exec.{Exec, lift, gets}
use atlas_queue.Runtime.Exec.Ensures.{
  Post, Ensures-bind, Ensures-if, Ensures-lift-bind, Ensures-raise, Ensures-try_except,
  Ensures-weaken,
}
use atlas_queue.Runtime.World.{Env, World, Settings, now, uuid4}
use atlas_queue.Runtime.World.Calls.{Ensures-redis_do}
use atlas_queue.Runtime.Frame.{Frame, on_world, with_task, transition, moved}
use atlas_queue.Runtime.Frame.Rules.{Ensures-any, Ensures-on_world, Ensures-read}
use atlas_queue.Runtime.Frame.Objects.{Gives, object}
use atlas_queue.Services.QueueManager.Placed.Steps.{
  list_for, Listed, Stored, Done, pushed, to_queued, saved, both_stay,
}
use atlas_queue.Services.Rows.{KeepsTasks, KeepsTasks-append, KeepsTasks-emit}
use atlas_queue.Services.QueueManager.{
  SubmitTaskRequest, new_task, enqueue, enqueue_failure, submit_new, submit_fresh,
}
use atlas_queue.Services.QueueManager.Queued.{
  Gives-and, HasRow, InList, Saved-HasRow, KeepsRedis, save-KeepsRedis, append-KeepsRedis,
  emit-KeepsRedis,
}

-- the object of a task may still be anything that cannot become SCHEDULED
abbrev Fresh : Task → Type 0
Fresh t = any (same_status scheduled) (allowed t.status) ≡ false

module _ (env : Env) (settings : Settings) where
  refused : Gives (λ f. Fresh f.task) (transition env scheduled) (λ _ _. ⊥)
  unfolding transition transition_to
  refused = record { at = λ f h. rw h tt }

  enqueue-Done : Gives (λ f. Fresh f.task) (enqueue env settings) (λ _. Done env settings)
  unfolding enqueue
  enqueue-Done = Ensures-bind _ _ (object Fresh _) λ at. Ensures-read _ λ u.
      Ensures-bind {R = λ _ f. (f.task.status ≡ queued) × Listed env settings f} _ _
        (Ensures-if (is_later u.scheduled_at at) _ _
          (λ _.
            Ensures-bind _ _ (object (λ t. (t ≡ u) × Fresh t) _)
              λ _. Ensures-weaken _ refused (λ f h. h.1) (λ _ f h. absurd h) (λ f h. tt))
          (λ _. Ensures-bind _ _ (pushed env settings u Fresh) λ _. to_queued env settings))
        λ _. Ensures-read {P = λ f. (f.task.status ≡ queued) × Listed env settings f} _ λ v.
          Ensures-bind _ _ (saved env settings v) λ _.
            both_stay env settings _ (append-KeepsRedis env _ _ _ _ _ _)
              (KeepsTasks-append env _ _ _ _ _ _)

  failure : (exc : Exc) → Gives (λ _. Unit) (enqueue_failure env settings exc) (λ _ _. ⊥)
  unfolding enqueue_failure
  failure exc = Ensures-read _ λ before. Ensures-bind _ _ (Ensures-any _) λ _. Ensures-read _ λ t.
      Ensures-bind _ _ (Ensures-any _)
        λ _. Ensures-bind _ _ (Ensures-any _) λ _. Ensures-raise _ (λ f h. tt)

  -- the object is in its ready list, QUEUED, and its row says so
  abbrev pub Placed : Task → World → Type 0
  Placed t w =
      (t.status ≡ queued)
      × (InList t.id (list_for env settings t) w.redis × HasRow t.id t.status w.db.tasks)

  submit_new-Placed : Gives (λ f. Fresh f.task) (submit_new env settings) (λ t f. Placed t f.world)
  unfolding submit_new gets
  submit_new-Placed = Ensures-read _ λ t. Ensures-bind _ _ (object (λ u. (u ≡ t) × Fresh u) _) λ _.
      Ensures-bind _ _ (object (λ u. (u ≡ t) × Fresh u) _) λ _.
        Ensures-bind {R = λ _. Done env settings} _ _
          (Ensures-try_except _ _
            (Ensures-weaken _ enqueue-Done (λ f h. h.1) (λ _ f h. h) (λ f h. h))
            (λ exc. Ensures-weaken _ (failure exc) (λ f h. h) (λ _ f h. absurd h) (λ f h. h)))
          λ _.
            Ensures-bind _ _ (both_stay env settings _ (emit-KeepsRedis _) (KeepsTasks-emit _))
              λ _. record { at = λ f h. h }

  either-Fresh :
      (b : Bool) → any (same_status scheduled) (allowed (if b then scheduled else pending)) ≡ false
  either-Fresh true = refl
  either-Fresh false = refl

  started-Placed :
      (t : Task) → Fresh t → Gives (λ _. Unit) (with_task t (submit_new env settings)) Placed
  unfolding with_task
  started-Placed t fresh = record {
    at = λ w _. left _ (submit_new-Placed.at (record { task = t; world = w }) fresh);
  }
    where
      left :
          (r : Result Task × Frame)
          → Post (λ t f. Placed t f.world) (λ _. Unit) r
          → Post Placed (λ _. Unit) (r.0, r.1.world)
      left (ok _, f) h = h
      left (err _, f) h = h

  submit_fresh-Gives :
      (request : SubmitTaskRequest) → Gives (λ _. Unit) (submit_fresh env settings request) Placed
  unfolding submit_fresh
  submit_fresh-Gives request =
      Ensures-if (ltb settings.max_payload_bytes (env.payload_size request.payload)) _ _
        (λ _. Ensures-raise (payload_too_large_error settings.max_payload_bytes) (λ w h. tt))
        λ _.
          Ensures-bind (lift (parse_executor request.executor_type)) _ (Ensures-any _)
            λ executor_type.
              Ensures-bind (lift (make_priority request.priority)) _ (Ensures-any _) λ priority.
                Ensures-bind (now env) _ (Ensures-any _) λ at.
                  Ensures-bind (uuid4 env) _ (Ensures-any _) λ uuid.
                    let n = new_task request executor_type priority in
                    Ensures-lift-bind (create at uuid n) _
                      (λ t e. started-Placed t (
                        create-holds Fresh at uuid n (λ later c. either-Fresh (is_later later at)) t
                          e))
                      (λ w h. tt)

-- A submission of a new task that returns has written to both stores: the task is QUEUED, it has a
-- row with that status, and it is in the ready list of its clamped priority.
pub submit_fresh-Placed :
    (env : Env) (settings : Settings) (request : SubmitTaskRequest) (w : World)
    → Post (Placed env settings) (λ _. Unit) (submit_fresh env settings request w)
submit_fresh-Placed env settings request w = (submit_fresh-Gives env settings request).at w tt
