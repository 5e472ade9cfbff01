-- ===== src/Worker/Pool.antt =====
-- `_process_task` and `_consume_loop` of `WorkerPool` in src/atlasqueue/worker/pool.py.
pub mod Commits
use atlas_queue.Prelude.{String, Option, none, some, if◌then◌else◌}
use atlas_queue.Domain.Enums.{queued, same_status}
use atlas_queue.Domain.Task.{Task, TaskId}
use atlas_queue.Persistence.Tasks.{get_by_id}
use atlas_queue.Runtime.Exec.{Exec, ◌>>=◌, pure, try_except}
use atlas_queue.Redis.Queue.{dequeue_ready}
use atlas_queue.Runtime.World.{Env, World, Settings}
use atlas_queue.Runtime.Frame.{with_task}
use atlas_queue.Runtime.Session.{session}
use atlas_queue.Worker.Executor.{Executors, execute_task}

module _ (env : Env) (executors : Executors) (worker_id : String) where
  -- a task that is not there, or not QUEUED, is left alone
  unfoldable pub process_found : Option Task → Exec World Unit
  process_found none = pure tt
  process_found (some t) =
      if same_status t.status queued
      then with_task t (execute_task env executors worker_id)
      else pure tt

  -- an exception is logged and dropped
  unfoldable pub process_task : TaskId → Exec World Unit
  unfolding process_found
  process_task id =
      try_except (session env (do found ← get_by_id env id; process_found found)) (λ exc. pure tt)

  -- a task id that was popped, if any
  unfoldable pub process_popped : Option TaskId → Exec World Unit
  unfolding process_task
  process_popped none = pure tt
  process_popped (some id) = process_task id

  -- one round of the loop; a pop that fails is tried again in the next
  unfoldable pub consume : Settings → Exec World Unit
  unfolding process_popped
  consume settings = do
    popped ← try_except (dequeue_ready env settings) (λ exc. pure none)
    process_popped popped
