-- ===== src/Services/QueueManager.antt =====
-- `QueueManager` of src/atlasqueue/application/services/queue_manager.py.
pub mod Delayed
pub mod Queued
pub mod Placed
pub mod Served
pub mod Retried
pub mod Table
use Prim.Native.String.{◌++◌ as cat}
use atlas_queue.Prelude.{
  ℕ, suc, String, Option, none, some, List, [], ◌∷◌, length, ltb, any, if◌then◌else◌,
}
use atlas_queue.Prelude.Int.{ℤ}
use atlas_queue.Prelude.Text.{truthy, show_uuid}
use atlas_queue.Domain.Exceptions.{
  Exc, message, task_not_found_error, invalid_task_state_error, enqueue_failed_error,
  payload_too_large_error,
}
use atlas_queue.Domain.Enums.{
  ExecutorType, queued, scheduled, failed, dead_letter, enqueue_failed, status_value, same_status,
  parse_executor, executor_value,
}
use atlas_queue.Domain.Backoff.{BackoffPolicy}
use atlas_queue.Domain.Task.{
  Task, TaskId, Instant, Timestamp, Fields, NewTask, Priority, create, make_priority, is_later,
}
use atlas_queue.Persistence.Tasks.{
  save, get_by_id, get_by_idempotency_key, list_tasks, count_by_status,
}
use atlas_queue.Persistence.Events.{TaskEvent, append, list_for_task}
use atlas_queue.Redis.Queue.{enqueue_ready, enqueue_scheduled, queue_depths, get_active_workers}
use atlas_queue.Runtime.Exec.{Exec, ◌>>=◌, ◌>>◌, pure, raise, lift, gets, try_except}
use atlas_queue.Runtime.World.{
  Env, World, Settings, now, uuid4, emit, tasks_submitted, tasks_retried,
}
use atlas_queue.Runtime.Frame.{Frame, on_world, with_task, update, transition}

-- `SubmitTaskRequest` of src/atlasqueue/application/dto/task_dto.py, once it has been validated
pub record SubmitTaskRequest : Type 0 where
  pub name : String
  pub executor_type : String
  pub payload : Fields
  pub priority : ℤ
  pub scheduled_at : Option Timestamp
  pub max_retries : ℕ
  pub timeout_seconds : ℕ
  pub backoff_policy : Option BackoffPolicy
  pub idempotency_key : Option String

pub record AdminStats : Type 0 where
  pub tasks_by_status : List (String × ℕ)
  pub queue_depths : List (String × ℕ)
  pub active_workers : ℕ

-- the `scheduled_at` of a task that has one
abbrev pub due_at : Task → Instant
due_at t = elim t.scheduled_at [ none ↦ 0 | some at ↦ at ]

abbrev pub existing_or : Exec World Task → Option Task → Exec World Task
existing_or fresh (some t) = pure t
existing_or fresh none = fresh

abbrev pub require : TaskId → Option Task → Exec World Task
require id none = raise (task_not_found_error (show_uuid id))
require id (some t) = pure t

-- the arguments of `Task.create`
abbrev pub new_task : SubmitTaskRequest → ExecutorType → Priority → NewTask
new_task request executor_type priority = record {
  name = request.name;
  executor_type = executor_type;
  payload = request.payload;
  priority = priority;
  max_retries = request.max_retries;
  scheduled_at = request.scheduled_at;
  timeout_seconds = request.timeout_seconds;
  backoff_policy = request.backoff_policy;
  idempotency_key = request.idempotency_key;
}

module _ (env : Env) (settings : Settings) where
  -- `_enqueue`, on the task object of the frame
  unfoldable pub enqueue : Exec Frame Unit
  enqueue = do
    at ← on_world (now env)
    t ← gets (λ f. f.task)
    if is_later t.scheduled_at at
        then (do on_world (enqueue_scheduled env t.id (due_at t)); transition env scheduled)
        else (do on_world (enqueue_ready env settings t.id t.priority.value); transition env queued)
    t' ← gets (λ f. f.task)
    on_world (save env t')
    on_world (append env t'.id "task.enqueued" (some t.status) (some t'.status) none [])

  -- the handler in `submit`
  unfoldable pub enqueue_failure : Exc → Exec Frame Unit
  enqueue_failure exc = do
    before ← gets (λ f. f.task)
    transition env enqueue_failed
    t ← gets (λ f. f.task)
    on_world (save env t)
    on_world (
        append env t.id "task.enqueue_failed" (some before.status) (some t.status)
          (some (message exc)) [])
    raise (enqueue_failed_error (message exc))

  -- `submit` from the saved task on
  unfoldable pub submit_new : Exec Frame Task
  unfolding enqueue enqueue_failure
  submit_new = do
    t ← gets (λ f. f.task)
    on_world (save env t)
    on_world (append env t.id "task.submitted" none (some t.status) none (("name", t.name) ∷ []))
    try_except enqueue enqueue_failure
    on_world (emit (tasks_submitted t.name (executor_value t.executor_type)))
    gets (λ f. f.task)

  -- the task that an idempotency key names
  unfoldable pub find_existing : Option String → Exec World (Option Task)
  find_existing none = pure none
  find_existing (some key) = if truthy (some key) then get_by_idempotency_key env key else pure none

  -- `submit` for a request that names no task
  unfoldable pub submit_fresh : SubmitTaskRequest → Exec World Task
  unfolding submit_new
  submit_fresh request =
      if ltb settings.max_payload_bytes (env.payload_size request.payload)
      then raise (payload_too_large_error settings.max_payload_bytes)
      else do
        executor_type ← lift (parse_executor request.executor_type)
        priority ← lift (make_priority request.priority)
        at ← now env
        uuid ← uuid4 env
        task ← lift (create at uuid (new_task request executor_type priority))
        with_task task submit_new

  unfoldable pub submit : SubmitTaskRequest → Exec World Task
  unfolding find_existing submit_fresh
  submit request = do
    existing ← find_existing request.idempotency_key
    existing_or (submit_fresh request) existing

  unfoldable pub get_task_or_raise : TaskId → Exec World Task
  get_task_or_raise id = do task ← get_by_id env id; require id task

  unfoldable pub get_task_events : TaskId → Exec World (List TaskEvent)
  unfolding get_task_or_raise
  get_task_events id = do get_task_or_raise id; list_for_task env id

  unfoldable pub get_admin_stats : Exec World AdminStats
  get_admin_stats = do
    tasks_by_status ← count_by_status env
    depths ← queue_depths env settings
    active_redis ← get_active_workers env
    pure (record {
      tasks_by_status = tasks_by_status;
      queue_depths = depths;
      active_workers = length active_redis;
    })

  -- `retry_task` for a task that is there
  unfoldable pub retry_found : Exec Frame Task
  retry_found = do
    before ← gets (λ f. f.task)
    if any (same_status before.status) (dead_letter ∷ failed ∷ [])
        then pure tt
        else raise (
            invalid_task_state_error (
              cat "Task " (
                cat (show_uuid before.id)
                  (cat " is not in a retriable state: " (status_value before.status)))))
    update (λ t. record t {
      error = none;
      attempts = 0;
      worker_id = none;
      started_at = none;
      finished_at = none;
    })
    transition env queued
    t ← gets (λ f. f.task)
    on_world (enqueue_ready env settings t.id t.priority.value)
    on_world (save env t)
    on_world (append env t.id "task.retried" (some before.status) (some t.status) none [])
    on_world (emit tasks_retried)
    pure t

  unfoldable pub retry_task : TaskId → Exec World Task
  unfolding get_task_or_raise retry_found
  retry_task id = do t ← get_task_or_raise id; with_task t retry_found

  -- the loop of `reconcile_enqueue_failed`, with what it has counted so far
  unfoldable pub reconcile_each : ℕ → List Task → Exec World ℕ
  unfolding enqueue
  reconcile_each count [] = pure count
  reconcile_each count (t ∷ ts) = do
    count' ← try_except (with_task t (do enqueue; pure (suc count))) (λ exc. pure count)
    reconcile_each count' ts

  unfoldable pub reconcile_enqueue_failed : ℕ → Exec World ℕ
  unfolding reconcile_each
  reconcile_enqueue_failed batch_size = do
    tasks ← list_tasks env (some enqueue_failed) none "created_at" "desc" batch_size 0
    reconcile_each 0 tasks
