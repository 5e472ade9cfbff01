-- ===== src/Services/Cancellation.antt =====
-- `CancellationService` of src/atlasqueue/application/services/queue_manager.py.
pub mod Table
pub mod Allowed
use Prim.Native.String.{◌++◌}
use atlas_queue.Prelude.{none, some, [], ◌∷◌, any, if◌then◌else◌}
use atlas_queue.Prelude.Text.{show_uuid}
use atlas_queue.Domain.Exceptions.{invalid_task_state_error}
use atlas_queue.Domain.Enums.{
  completed, cancelled, dead_letter, scheduled, status_value, same_status,
}
use atlas_queue.Domain.Task.{Task, TaskId}
use atlas_queue.Persistence.Tasks.{save, get_by_id}
use atlas_queue.Persistence.Events.{append}
use atlas_queue.Redis.Queue.{mark_cancelled, remove_scheduled}
use atlas_queue.Runtime.Exec.{Exec, ◌>>=◌, ◌>>◌, pure, raise, gets}
use atlas_queue.Runtime.World.{Env, World, now, emit, tasks_cancelled}
use atlas_queue.Runtime.Frame.{Frame, on_world, with_task, update, transition}
use atlas_queue.Services.QueueManager.{require}

module _ (env : Env) where
  -- `cancel` for a task that is there
  unfoldable pub cancel_found : Exec Frame Task
  cancel_found = do
    before ← gets (λ f. f.task)
    if any (same_status before.status) (completed ∷ cancelled ∷ dead_letter ∷ [])
        then raise (
            invalid_task_state_error (
              "Task "
              ++ show_uuid before.id
              ++ " cannot be cancelled in status "
              ++ status_value before.status))
        else pure tt
    on_world (mark_cancelled env before.id)
    if same_status before.status scheduled
        then on_world (remove_scheduled env before.id)
        else pure tt
    transition env cancelled
    at ← on_world (now env)
    update (λ t. record t { finished_at = some at })
    t ← gets (λ f. f.task)
    on_world (save env t)
    on_world (append env t.id "task.cancelled" (some before.status) (some t.status) none [])
    on_world (emit tasks_cancelled)
    pure t

  unfoldable pub cancel : TaskId → Exec World Task
  unfolding cancel_found
  cancel id = do found ← get_by_id env id; t ← require id found; with_task t cancel_found
