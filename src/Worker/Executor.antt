-- ===== src/Worker/Executor.antt =====
-- `TaskExecutorService` of src/atlasqueue/worker/executor/python_executor.py.
pub mod Settles
pub mod Outcome
pub mod Retries
use atlas_queue.Prelude.{ℕ, ◌+◌, String, none, some, [], if◌then◌else◌}
use atlas_queue.Domain.Exceptions.{Result, message}
use atlas_queue.Domain.Enums.{ExecutorType, python, webhook, cancelled, running, completed}
use atlas_queue.Domain.Task.{Task, Fields}
use atlas_queue.Persistence.Tasks.{save}
use atlas_queue.Persistence.Events.{append}
use atlas_queue.Redis.Queue.{is_cancelled, clear_cancelled, mark_inflight, clear_inflight}
use atlas_queue.Runtime.Exec.{Exec, ◌>>=◌, ◌>>◌, gets, try_except, try_finally}
use atlas_queue.Runtime.World.{Env, now, emit, tick, tasks_completed, task_duration}
use atlas_queue.Runtime.Frame.{Frame, on_world, update, transition}
use atlas_queue.Services.FailureHandler.{handle_execution_failure}

-- What running a task comes to: the `execute` of the Python or the webhook executor under
-- `asyncio.wait_for`, as an answer to the `n`-th call of the run. `timeout_error` is its timeout.
pub record Executors : Type 0 where
  pub execute_python : ℕ → Task → Result Fields
  pub execute_webhook : ℕ → Task → Result Fields

abbrev pub executor_of : Executors → ExecutorType → ℕ → Task → Result Fields
executor_of x python = x.execute_python
executor_of x webhook = x.execute_webhook

module _ (env : Env) (executors : Executors) where
  -- the executor that the type of the task names, waited for
  unfoldable pub run_executor : Exec Frame Fields
  run_executor f = (
    executor_of executors f.task.executor_type f.world.calls f.task,
    record f { world = tick f.world },
  )

  -- the branch for a task with a cancellation mark
  unfoldable pub execute_cancelled : Exec Frame Unit
  execute_cancelled = do
    before ← gets (λ f. f.task)
    transition env cancelled
    at ← on_world (now env)
    update (λ t. record t { finished_at = some at })
    t ← gets (λ f. f.task)
    on_world (save env t)
    on_world (append env t.id "task.cancelled" (some before.status) (some t.status) none [])
    on_world (clear_cancelled env t.id)

  -- what comes before the `try`
  unfoldable pub start_task : String → Exec Frame Unit
  start_task worker_id = do
    before ← gets (λ f. f.task)
    transition env running
    update (λ t. record t { worker_id = some worker_id })
    at ← on_world (now env)
    update (λ t. record t { started_at = some at })
    t ← gets (λ f. f.task)
    on_world (save env t)
    on_world (append env t.id "task.started" (some before.status) (some t.status) none [])
    on_world (mark_inflight env t.id worker_id (t.timeout_seconds + 60))

  -- the body of the `try`
  unfoldable pub attempt : Exec Frame Unit
  unfolding run_executor
  attempt = do
    result ← run_executor
    before ← gets (λ f. f.task)
    transition env completed
    at ← on_world (now env)
    update (λ t. record t { result = some result; finished_at = some at; error = none })
    t ← gets (λ f. f.task)
    on_world (save env t)
    on_world (append env t.id "task.completed" (some before.status) (some t.status) none [])
    on_world (emit (tasks_completed t.name "completed"))

  -- the `finally`
  unfoldable pub clean_up : Exec Frame Unit
  clean_up = do
    t ← gets (λ f. f.task)
    on_world (clear_inflight env t.id)
    on_world (now env)
    on_world (emit (task_duration t.name))

  unfoldable pub execute_task : String → Exec Frame Unit
  unfolding execute_cancelled start_task attempt clean_up
  execute_task worker_id = do
    t ← gets (λ f. f.task)
    marked ← on_world (is_cancelled env t.id)
    if marked then execute_cancelled else do
      start_task worker_id
      on_world (now env)
      try_finally (try_except attempt (λ exc. handle_execution_failure env (message exc))) clean_up
