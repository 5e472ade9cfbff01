-- ===== src/System.antt =====
-- The processes of AtlasQueue together: the routes that change tasks in
-- src/atlasqueue/api/routes/v1.py, a worker and the scheduler, one action after the other.
pub mod Stuck
pub mod Readable
pub mod Rollback
use atlas_queue.Prelude.{ℕ, String, Option, List, [], ◌∷◌}
use atlas_queue.Domain.Task.{Task, TaskId}
use atlas_queue.Runtime.Exec.{Exec}
use atlas_queue.Runtime.World.{Env, World, Settings}
use atlas_queue.Runtime.Session.{session}
use atlas_queue.Scheduler.{campaign}
use atlas_queue.Services.QueueManager.{SubmitTaskRequest, submit, retry_task}
use atlas_queue.Services.Cancellation.{cancel}
use atlas_queue.Worker.Executor.{Executors}
use atlas_queue.Worker.Pool.{consume}
use atlas_queue.Worker.Process.{start_worker, heartbeat_loop}

-- the sessions of `submit_task`, `cancel_task` and `retry_task`
module _ (env : Env) where
  unfoldable pub post_task : Settings → SubmitTaskRequest → Exec World Task
  post_task settings body = session env (submit env settings body)

  unfoldable pub post_cancel : TaskId → Exec World Task
  post_cancel id = session env (cancel env id)

  unfoldable pub post_retry : Settings → TaskId → Exec World Task
  post_retry settings id = session env (retry_task env settings id)

-- `join` is a worker process that starts and registers itself, `beats` the heartbeats of its pool
pub data Action : Type 0 where
  request_task : SubmitTaskRequest → Action
  request_cancel request_retry : TaskId → Action
  work : Executors → (worker_id : String) → Action
  schedule : (owner_id : String) (ticks : ℕ) → Action
  join : (worker_id : Option String) (hostname : String) → Action
  beats : (rounds worker_id : ℕ) (hostname : String) → Action

-- what an action leaves, in the environment that answers its calls
unfoldable pub perform : Settings → Env × Action → World → World
unfolding post_task post_cancel post_retry
perform s (env, request_task body) w = (post_task env s body w).1
perform s (env, request_cancel id) w = (post_cancel env id w).1
perform s (env, request_retry id) w = (post_retry env s id w).1
perform s (env, work x worker_id) w = (consume env x worker_id s w).1
perform s (env, schedule owner_id ticks) w = (campaign env s owner_id ticks w).1
perform s (env, join worker_id hostname) w = (start_worker env s worker_id hostname w).1
perform s (env, beats rounds id hostname) w = (heartbeat_loop env s rounds id hostname w).1

unfoldable pub history : Settings → List (Env × Action) → World → World
unfolding perform
history s [] w = w
history s (a ∷ rest) w = history s rest (perform s a w)
