-- ===== src/Services/Scheduler.antt =====
-- `SchedulerService` of src/atlasqueue/application/services/queue_manager.py.
pub mod Table
pub mod Ignores
pub mod Releases
use atlas_queue.Prelude.{ℕ, suc, Option, none, some, List, [], ◌∷◌, if◌then◌else◌}
use atlas_queue.Domain.Enums.{scheduled, queued, same_status}
use atlas_queue.Domain.Task.{Task, TaskId}
use atlas_queue.Persistence.Tasks.{save, get_by_id}
use atlas_queue.Persistence.Events.{append}
use atlas_queue.Redis.Queue.{claim_due_scheduled, enqueue_ready}
use atlas_queue.Runtime.Exec.{Exec, ◌>>=◌, ◌>>◌, pure, gets}
use atlas_queue.Runtime.World.{Env, World, Settings}
use atlas_queue.Runtime.Frame.{Frame, on_world, with_task, transition}

module _ (env : Env) (settings : Settings) where
  -- the body of the loop for a task that is SCHEDULED
  unfoldable pub release : Exec Frame Unit
  release = do
    before ← gets (λ f. f.task)
    on_world (enqueue_ready env settings before.id before.priority.value)
    transition env queued
    t ← gets (λ f. f.task)
    on_world (save env t)
    on_world (append env t.id "task.scheduled_release" (some before.status) (some t.status) none [])

  -- the body of the loop, with the number processed so far; a task that is not there or not
  -- SCHEDULED is passed over
  unfoldable pub process_due : ℕ → Option Task → Exec World ℕ
  unfolding release
  process_due processed none = pure processed
  process_due processed (some t) =
      if same_status t.status scheduled
      then (do with_task t release; pure (suc processed))
      else pure processed

  unfoldable pub process_each : ℕ → List TaskId → Exec World ℕ
  unfolding process_due
  process_each processed [] = pure processed
  process_each processed (id ∷ ids) = do
    task ← get_by_id env id
    processed' ← process_due processed task
    process_each processed' ids

  unfoldable pub process_due_tasks : Exec World ℕ
  unfolding process_each
  process_due_tasks = do
    due_ids ← claim_due_scheduled env settings.scheduler_batch_size
    process_each 0 due_ids
