-- ===== src/Services/Inflight.antt =====
-- `InflightReconciler` of src/atlasqueue/application/services/queue_manager.py.
pub mod Idle
use atlas_queue.Prelude.{ℕ, suc, ◌+◌, Bool, Option, none, some, List, [], ◌∷◌, ltb, if◌then◌else◌}
use atlas_queue.Domain.Enums.{running, same_status}
use atlas_queue.Domain.Task.{Task, TaskId, Instant, seconds}
use atlas_queue.Persistence.Tasks.{get_by_id}
use atlas_queue.Redis.Queue.{get_inflight_task_ids, clear_inflight}
use atlas_queue.Runtime.Exec.{Exec, ◌>>=◌, ◌>>◌, pure}
use atlas_queue.Runtime.World.{Env, World, now}
use atlas_queue.Runtime.Frame.{with_task}
use atlas_queue.Services.FailureHandler.{handle_timeout}

-- `now - started_at > timedelta(seconds=timeout_seconds + 30)`
abbrev pub overran : Instant → Instant → Task → Bool
overran at started t = ltb (started + seconds (t.timeout_seconds + 30)) at

module _ (env : Env) where
  -- a RUNNING task
  unfoldable pub check_running : ℕ → Task → Option Instant → Exec World ℕ
  check_running requeued t none = pure requeued
  check_running requeued t (some started) = do
    at ← now env
    if overran at started t
        then (do with_task t (handle_timeout env); pure (suc requeued))
        else pure requeued

  unfoldable pub reconcile_one : ℕ → TaskId → Option Task → Exec World ℕ
  unfolding check_running
  reconcile_one requeued id none = do clear_inflight env id; pure requeued
  reconcile_one requeued id (some t) =
      if same_status t.status running
      then check_running requeued t t.started_at
      else do clear_inflight env id; pure requeued

  unfoldable pub reconcile_ids : ℕ → List TaskId → Exec World ℕ
  unfolding reconcile_one
  reconcile_ids requeued [] = pure requeued
  reconcile_ids requeued (id ∷ ids) = do
    task ← get_by_id env id
    requeued' ← reconcile_one requeued id task
    reconcile_ids requeued' ids

  unfoldable pub reconcile : Exec World ℕ
  unfolding reconcile_ids
  reconcile = do inflight_ids ← get_inflight_task_ids env; reconcile_ids 0 inflight_ids
