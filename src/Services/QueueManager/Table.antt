-- ===== src/Services/QueueManager/Table.antt =====
-- The services of the queue manager over a table with no RUNNING row.
use atlas_queue.Prelude.{
  ℕ, ◌≡◌, refl, Bool, true, false, String, Option, none, some, List, [], ◌∷◌, any, ltb,
  if◌then◌else◌,
}
use atlas_queue.Prelude.Text.{truthy}
use atlas_queue.Domain.Exceptions.{Exc, ok, payload_too_large_error}
use atlas_queue.Domain.Enums.{
  pending, queued, scheduled, failed, dead_letter, enqueue_failed, same_status, parse_executor,
}
use atlas_queue.Domain.Task.{
  Task, TaskId, Instant, NewTask, create, create-holds, make_priority, is_later,
}
use atlas_queue.Persistence.Tasks.{list_tasks, get_by_idempotency_key}
use atlas_queue.Redis.Queue.{enqueue_ready, enqueue_scheduled}
use atlas_queue.Runtime.Exec.{◌>>=◌, pure, lift, gets}
use atlas_queue.Runtime.Exec.Ensures.{
  Ensures, Ensures-bind, Ensures-if, Ensures-pure, Ensures-raise, Ensures-try_except,
  Ensures-lift-bind,
}
use atlas_queue.Runtime.World.{Env, Settings, now, uuid4}
use atlas_queue.Runtime.Frame.{on_world, with_task}
use atlas_queue.Services.QueueManager.{
  SubmitTaskRequest, new_task, enqueue, enqueue_failure, submit_new, submit_fresh, find_existing,
  existing_or, submit, require, retry_found, retry_task, get_task_or_raise, reconcile_each,
  reconcile_enqueue_failed,
}
use atlas_queue.Services.Rows.{On, KeepsTasks-now, KeepsTasks-redis_do, KeepsTasks-emit}
use atlas_queue.Services.Rows.Calm.{
  KeepsQuiet, KeepsTable, Table, Calm, NotRunning, table_keep, calm_keep, calm-transition,
  table-save, table-append, calm_read, table_read, table_update, with_calm_task, Ensures-with_task,
  lift-Quiet, query-Quiet, optional_task-Quiet, read_task-Quiet, now-Quiet, uuid4-Quiet,
}

pub require-Quiet : (id : TaskId) (o : Option Task) → KeepsQuiet (require id o)
require-Quiet id none = Ensures-raise _ (λ w h. h)
require-Quiet id (some t) = Ensures-pure t (λ w h. h)

module _ (env : Env) (settings : Settings) where
  push-Table : (id : TaskId) (p : ℕ) → KeepsTable (on_world (enqueue_ready env settings id p))
  unfolding enqueue_ready
  push-Table id p = table_keep _ (KeepsTasks-redis_do env _)

  push-Calm :
      (id : TaskId) (p : ℕ)
      → Ensures (On Calm) (on_world (enqueue_ready env settings id p)) (λ _. On Calm) (On Table)
  unfolding enqueue_ready
  push-Calm id p = calm_keep _ (KeepsTasks-redis_do env _)

  wait-Table : (id : TaskId) (at : Instant) → KeepsTable (on_world (enqueue_scheduled env id at))
  unfolding enqueue_scheduled
  wait-Table id at = table_keep _ (KeepsTasks-redis_do env _)

  pub enqueue-Table : KeepsTable (enqueue env settings)
  unfolding enqueue
  enqueue-Table = Ensures-bind _ _ (table_keep _ (KeepsTasks-now env)) λ at. table_read _ λ t.
      Ensures-bind _ _
        (Ensures-if (is_later t.scheduled_at at) _ _
          (λ _. Ensures-bind _ _ (wait-Table t.id _) λ _. calm-transition env scheduled refl)
          (λ _. Ensures-bind _ _ (push-Table t.id _) λ _. calm-transition env queued refl))
        λ _.
          calm_read _
            λ u calm. Ensures-bind _ _ (table-save env u calm) λ _. table-append env _ _ _ _ _ _

  failure-Table : (exc : Exc) → KeepsTable (enqueue_failure env settings exc)
  unfolding enqueue_failure
  failure-Table exc = table_read _ λ before.
      Ensures-bind _ _ (calm-transition env enqueue_failed refl) λ _. calm_read _ λ t calm.
        Ensures-bind _ _ (table-save env t calm)
          λ _. Ensures-bind _ _ (table-append env _ _ _ _ _ _) λ _. Ensures-raise _ (λ f h. h)

  submit_new-Table : Ensures (On Calm) (submit_new env settings) (λ _. On Table) (On Table)
  unfolding submit_new gets
  submit_new-Table = calm_read _ λ t calm. Ensures-bind _ _ (table-save env t calm) λ _.
      Ensures-bind _ _ (table-append env _ _ _ _ _ _) λ _.
        Ensures-bind _ _ (Ensures-try_except _ _ enqueue-Table failure-Table)
          λ _. Ensures-bind _ _ (table_keep _ (KeepsTasks-emit _)) λ _. record { at = λ f h. h }

  either-NotRunning : (b : Bool) → NotRunning (if b then scheduled else pending)
  either-NotRunning true = refl
  either-NotRunning false = refl

  created-NotRunning :
      (at : Instant) (uuid : ℕ) (n : NewTask) (t : Task)
      → create at uuid n ≡ ok t
      → NotRunning t.status
  created-NotRunning at uuid n =
      create-holds (λ t. NotRunning t.status) at uuid n
        (λ later c. either-NotRunning (is_later later at))

  submit_with :
      (at : Instant) (uuid : ℕ) (n : NewTask)
      → KeepsQuiet (lift (create at uuid n) >>= λ t. with_task t (submit_new env settings))
  unfolding with_task
  submit_with at uuid n =
      Ensures-lift-bind (create at uuid n) _
        (λ t e. with_calm_task _ _ (created-NotRunning at uuid n t e) submit_new-Table) (λ w h. h)

  submit_fresh-Quiet :
      (request : SubmitTaskRequest) → KeepsQuiet (submit_fresh env settings request)
  unfolding submit_fresh
  submit_fresh-Quiet request =
      Ensures-if (ltb settings.max_payload_bytes (env.payload_size request.payload)) _ _
        (λ _. Ensures-raise (payload_too_large_error settings.max_payload_bytes) (λ w h. h))
        λ _.
          Ensures-bind (lift (parse_executor request.executor_type)) _ (lift-Quiet _)
            λ executor_type.
              Ensures-bind (lift (make_priority request.priority)) _ (lift-Quiet _) λ priority.
                Ensures-bind (now env) _ (now-Quiet env) λ at.
                  Ensures-bind (uuid4 env) _ (uuid4-Quiet env)
                    λ uuid. submit_with at uuid (new_task request executor_type priority)

  find_existing-Quiet : (key : Option String) → KeepsQuiet (find_existing env settings key)
  unfolding find_existing get_by_idempotency_key
  find_existing-Quiet none = Ensures-pure none (λ w h. h)
  find_existing-Quiet (some key) =
      Ensures-if (truthy (some key)) (get_by_idempotency_key env key) (pure none)
        (λ _. Ensures-bind _ _ (query-Quiet env _) (optional_task-Quiet env))
        (λ _. Ensures-pure none (λ w h. h))

  existing_or-Quiet :
      (request : SubmitTaskRequest) (o : Option Task)
      → KeepsQuiet (existing_or (submit_fresh env settings request) o)
  existing_or-Quiet request (some t) = Ensures-pure t (λ w h. h)
  existing_or-Quiet request none = submit_fresh-Quiet request

  pub submit-Quiet : (request : SubmitTaskRequest) → KeepsQuiet (submit env settings request)
  unfolding submit
  submit-Quiet request =
      Ensures-bind _ _ (find_existing-Quiet request.idempotency_key) (existing_or-Quiet request)

  retry_found-Table : KeepsTable (retry_found env settings)
  unfolding retry_found
  retry_found-Table = table_read _ λ before.
      Ensures-bind _ _
        (Ensures-if (any (same_status before.status) (dead_letter ∷ failed ∷ [])) _ _
          (λ _. Ensures-pure tt (λ f h. h)) (λ _. Ensures-raise _ (λ f h. h)))
        λ _. Ensures-bind _ _ (table_update _) λ _.
          Ensures-bind _ _ (calm-transition env queued refl) λ _. calm_read _ λ t calm.
            Ensures-bind _ _ (push-Table t.id _) λ _. Ensures-bind _ _ (table-save env t calm) λ _.
              Ensures-bind _ _ (table-append env _ _ _ _ _ _) λ _.
                Ensures-bind _ _ (table_keep _ (KeepsTasks-emit _)) λ _. Ensures-pure t (λ f h. h)

  pub retry_task-Quiet : (id : TaskId) → KeepsQuiet (retry_task env settings id)
  unfolding retry_task get_task_or_raise
  retry_task-Quiet id =
      Ensures-bind _ _ (Ensures-bind _ _ (read_task-Quiet env id) (require-Quiet id))
        λ t. Ensures-with_task t _ retry_found-Table

  reconcile_each-Quiet :
      (count : ℕ) (ts : List Task) → KeepsQuiet (reconcile_each env settings count ts)
  unfolding reconcile_each
  reconcile_each-Quiet count [] = Ensures-pure count (λ w h. h)
  reconcile_each-Quiet count (t ∷ ts) =
      Ensures-bind _ _
        (Ensures-try_except _ _
          (Ensures-with_task t _ (Ensures-bind _ _ enqueue-Table λ _. Ensures-pure _ (λ f h. h)))
          (λ exc. Ensures-pure _ (λ w h. h)))
        λ n. reconcile_each-Quiet n ts

  pub reconcile_enqueue_failed-Quiet :
      (n : ℕ) → KeepsQuiet (reconcile_enqueue_failed env settings n)
  unfolding reconcile_enqueue_failed list_tasks
  reconcile_enqueue_failed-Quiet n =
      Ensures-bind _ _ (Ensures-bind _ _ (query-Quiet env _) (λ rows. lift-Quiet _))
        (reconcile_each-Quiet 0)
