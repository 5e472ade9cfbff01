-- ===== src/Scheduler.antt =====
-- `run_scheduler` of src/atlasqueue/scheduler/main.py.
pub mod Table
pub mod Kept
use atlas_queue.Prelude.{ℕ, zero, suc, String, ◌==◌, if◌then◌else◌}
use atlas_queue.Redis.Leader.{acquire, renew, release}
use atlas_queue.Runtime.Exec.{Exec, ◌>>=◌, ◌>>◌, pure, try_finally}
use atlas_queue.Runtime.World.{Env, World, Settings, emit, scheduler_ticks, scheduler_released}
use atlas_queue.Runtime.Session.{session}
use atlas_queue.Services.Scheduler.{process_due_tasks}
use atlas_queue.Services.Inflight.{reconcile}
use atlas_queue.Services.QueueManager.{reconcile_enqueue_failed}

module _ (env : Env) (settings : Settings) (owner_id : String) where
  -- the body of the session of a tick
  unfoldable pub tick_services : Exec World Unit
  tick_services = do
    processed ← process_due_tasks env settings
    if processed == 0 then pure tt else emit (scheduler_released processed)
    requeued ← reconcile env
    reconciled ← reconcile_enqueue_failed env settings 50
    pure tt

  -- the inner loop, for a process that is stopped after that many ticks
  unfoldable pub lead : (ticks : ℕ) → Exec World Unit
  unfolding tick_services
  lead zero = pure tt
  lead (suc ticks) =
      let rest = lead ticks in
      (do
        still ← renew env owner_id settings.scheduler_lock_ttl
        if still then (do emit scheduler_ticks; session env tick_services; rest) else pure tt)

  -- the body of the outer loop
  unfoldable pub campaign : (ticks : ℕ) → Exec World Unit
  unfolding lead
  campaign ticks = do
    acquired ← acquire env owner_id settings.scheduler_lock_ttl
    if acquired then try_finally (lead ticks) (release env owner_id) else pure tt
