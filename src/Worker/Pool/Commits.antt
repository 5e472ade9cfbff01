-- ===== src/Worker/Pool/Commits.antt =====
-- What the other sessions see of a worker: the state between two of its sessions.
use atlas_queue.Prelude.{refl, String, Option, none, some}
use atlas_queue.Domain.Exceptions.{Result, ok, err}
use atlas_queue.Domain.Enums.{queued, same_status}
use atlas_queue.Domain.Task.{Task, TaskId}
use atlas_queue.Runtime.Exec.Ensures.{
  Post, Ensures, Ensures-bind, Ensures-if, Ensures-pure, Ensures-try_except,
}
use atlas_queue.Runtime.World.{Env, World, Settings}
use atlas_queue.Redis.Queue.{dequeue_ready}
use atlas_queue.Services.Rows.Calm.{KeepsQuiet, after-Quiet}
use atlas_queue.Runtime.World.Calls.{Ensures-redis_call}
use atlas_queue.Runtime.Frame.{Frame, with_task}
use atlas_queue.Services.FailureHandler.Settles.{Others, Settled}
use atlas_queue.Services.Rows.{On}
use atlas_queue.Services.Rows.Quiet.{Quiet, Quiet-rest_of}
use atlas_queue.Services.Rows.Sessions.{QuietDb, session-Quiet, get_by_id-Quiet}
use atlas_queue.Worker.Executor.{Executors, execute_task}
use atlas_queue.Worker.Executor.Settles.{execute_task-Settled}
use atlas_queue.Worker.Pool.{process_found, process_task, process_popped, consume}

module _ (env : Env) (x : Executors) (worker : String) where
  process_found-Quiet :
      (o : Option Task) → Ensures QuietDb (process_found env x worker o) (λ _. QuietDb) (λ _. Unit)
  unfolding process_found with_task
  process_found-Quiet none = Ensures-pure tt (λ w h. h)
  process_found-Quiet (some t) =
      Ensures-if (same_status t.status queued) _ _ (λ _. executed) (λ _. Ensures-pure tt (λ w h. h))
    where
      left :
          (r : Result (Unit {0}) × Frame)
          → Post (λ _. On (Settled t.id)) (On (Others t.id)) r
          → Post (λ _. QuietDb) (λ _. Unit) (r.0, r.1.world)
      left (ok _, f) p = p.0
      left (err _, f) p = tt

      executed :
          Ensures QuietDb (with_task t (execute_task env x worker)) (λ _. QuietDb) (λ _. Unit)
      executed = record {
        at = λ w q. left _ (
            (execute_task-Settled env x t.id worker).at (record { task = t; world = w })
              (refl, Quiet-rest_of t.id w.db.tasks q));
      }

  process_task-Keeps : (id : TaskId) → KeepsQuiet (process_task env x worker id)
  unfolding process_task
  process_task-Keeps id =
      Ensures-try_except _ _
        (session-Quiet env _ (Ensures-bind _ _ (get_by_id-Quiet env id) process_found-Quiet))
        (λ exc. Ensures-pure tt (λ v h. h))

  process_popped-Keeps : (o : Option TaskId) → KeepsQuiet (process_popped env x worker o)
  unfolding process_popped
  process_popped-Keeps none = Ensures-pure tt (λ v h. h)
  process_popped-Keeps (some id) = process_task-Keeps id

  pub consume-Quiet : (settings : Settings) → KeepsQuiet (consume env x worker settings)
  unfolding consume dequeue_ready
  consume-Quiet settings =
      Ensures-bind _ _
        (Ensures-try_except _ _ (Ensures-redis_call env _ (λ w at h. (h, h)) (λ w h. h))
          (λ exc. Ensures-pure none (λ v h. h)))
        process_popped-Keeps

-- A worker never commits a RUNNING task: if no row is RUNNING before it processes a task, none is
-- afterwards, whatever the task, its executor and the calls to Redis and Postgres do.
pub process_task-Quiet :
    (env : Env) (x : Executors) (worker : String) (id : TaskId) (w : World)
    → Quiet w.db.tasks
    → Quiet (process_task env x worker id w).1.db.tasks
process_task-Quiet env x worker id w q = after-Quiet _ ((process_task-Keeps env x worker id).at w q)
