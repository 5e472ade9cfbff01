-- ===== src/System/Stuck.antt =====
-- What the reconciler of inflight tasks finds, after any history of the system.
use atlas_queue.Prelude.{◌≡◌, List, [], ◌∷◌}
use atlas_queue.Runtime.Exec.Ensures.{Post}
use atlas_queue.Runtime.World.{Env, World, Settings}
use atlas_queue.Scheduler.Table.{campaign-Quiet}
use atlas_queue.Services.Cancellation.Table.{cancel-Quiet}
use atlas_queue.Services.Inflight.{reconcile}
use atlas_queue.Services.Inflight.Idle.{reconcile-Quiet}
use atlas_queue.Runtime.ReadOnly.{SameQueues}
use atlas_queue.Services.QueueManager.Table.{submit-Quiet, retry_task-Quiet}
use atlas_queue.Services.Rows.Quiet.{Quiet}
use atlas_queue.Services.Rows.Calm.{Ensures-session, after-Quiet}
use atlas_queue.Services.WorkerRegistry.Kept.{kept-start_worker, kept-heartbeat_loop}
use atlas_queue.System.{
  Action, request_task, request_cancel, request_retry, work, schedule, join, beats, perform,
  history, post_task, post_cancel, post_retry,
}
use atlas_queue.Worker.Pool.Commits.{consume-Quiet}

module _ (s : Settings) where
  perform-Quiet : (a : Env × Action) (w : World) → Quiet w.db.tasks → Quiet (perform s a w).db.tasks
  unfolding perform post_task post_cancel post_retry
  perform-Quiet (env, request_task body) w q =
      after-Quiet _ ((Ensures-session env _ (submit-Quiet env s body)).at w q)
  perform-Quiet (env, request_cancel id) w q =
      after-Quiet _ ((Ensures-session env _ (cancel-Quiet env id)).at w q)
  perform-Quiet (env, request_retry id) w q =
      after-Quiet _ ((Ensures-session env _ (retry_task-Quiet env s id)).at w q)
  perform-Quiet (env, work x worker_id) w q =
      after-Quiet _ ((consume-Quiet env x worker_id s).at w q)
  perform-Quiet (env, schedule owner_id ticks) w q =
      after-Quiet _ ((campaign-Quiet env s owner_id ticks).at w q)
  perform-Quiet (env, join worker_id hostname) w q =
      (kept-start_worker Quiet env s worker_id hostname).after w q
  perform-Quiet (env, beats rounds id hostname) w q =
      (kept-heartbeat_loop Quiet env s rounds id hostname).after w q

  history-Quiet :
      (rest : List (Env × Action)) (w : World)
      → Quiet w.db.tasks
      → Quiet (history s rest w).db.tasks
  unfolding history
  history-Quiet [] w q = q
  history-Quiet (a ∷ rest) w q = history-Quiet rest (perform s a w) (perform-Quiet a w q)

-- After any history of requests, workers and schedulers that starts without RUNNING rows, the
-- reconciler requeues nothing: if it returns, it returns 0, and in any case it leaves the database,
-- the ready lists, the scheduled set and the dead-letter list as they were. Each action of the
-- history may have calls that fail.
pub reconcile-history :
    (s : Settings) (actions : List (Env × Action)) (start : World) (env : Env)
    → Quiet start.db.tasks
    → Post
        (λ n v. (n ≡ 0) × SameQueues (history s actions start) v)
        (SameQueues (history s actions start))
        (reconcile env (history s actions start))
reconcile-history s actions start env q =
    reconcile-Quiet env (history s actions start) (history-Quiet s actions start q)
