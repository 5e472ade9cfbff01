-- ===== src/Services/FailureHandler.antt =====
-- src/atlasqueue/application/services/task_failure_handler.py
pub mod Settles
pub mod Counts
use Prim.Native.String.{◌++◌}
use atlas_queue.Prelude.{ℕ, ◌+◌, String, Bool, true, Option, none, some, [], if◌then◌else◌}
use atlas_queue.Prelude.Text.{show}
use atlas_queue.Domain.Enums.{TaskStatus, queued, dead_letter}
use atlas_queue.Domain.Task.{Task, can_retry, retry_delay_seconds, seconds}
use atlas_queue.Persistence.Tasks.{save}
use atlas_queue.Persistence.Events.{append}
use atlas_queue.Redis.Queue.{enqueue_scheduled, enqueue_dlq, clear_inflight}
use atlas_queue.Runtime.Exec.{Exec, ◌>>=◌, ◌>>◌, pure, lift, gets}
use atlas_queue.Runtime.World.{Env, now, emit, tasks_completed}
use atlas_queue.Runtime.Frame.{Frame, on_world, update, transition}

-- the message of a retry: of the template, or of the failure
abbrev pub retry_message : Option (ℕ → String) → ℕ → Task → String → String
retry_message (some template) delay t error = template delay
retry_message none delay t error =
    "Retry in "
    ++ show delay
    ++ "s (attempt "
    ++ show t.attempts
    ++ "/"
    ++ show t.max_retries
    ++ "): "
    ++ error

abbrev pub timeout_template : ℕ → String
timeout_template delay = "Requeued after timeout, delay=" ++ show delay ++ "s"

module _ (env : Env) where
  unfoldable pub schedule_retry :
      TaskStatus → String → String → Option (ℕ → String) → Exec Frame Unit
  schedule_retry from_status error event_type message_template = do
    transition env queued
    t ← gets (λ f. f.task)
    delay ← lift (retry_delay_seconds env.floats t)
    at ← on_world (now env)
    on_world (enqueue_scheduled env t.id (at + seconds delay))
    on_world (save env t)
    on_world (
        append env t.id event_type (some from_status) (some t.status)
          (some (retry_message message_template delay t error)) [])

  unfoldable pub move_to_dead_letter : TaskStatus → String → String → Exec Frame Unit
  move_to_dead_letter from_status error event_type = do
    transition env dead_letter
    at ← on_world (now env)
    update (λ t. record t { finished_at = some at })
    t ← gets (λ f. f.task)
    on_world (enqueue_dlq env t.id)
    on_world (save env t)
    on_world (append env t.id event_type (some from_status) (some t.status) (some error) [])

  unfoldable pub handle_execution_failure : String → Exec Frame Unit
  unfolding schedule_retry move_to_dead_letter
  handle_execution_failure error = do
    before ← gets (λ f. f.task)
    update (λ t. record t { attempts = t.attempts + 1; error = some error })
    t ← gets (λ f. f.task)
    if can_retry t
        then (do
          schedule_retry before.status error "task.retry_scheduled" none
          on_world (emit (tasks_completed t.name "retry")))
        else do
          move_to_dead_letter before.status error "task.dead_letter"
          on_world (emit (tasks_completed t.name "dead_letter"))

  unfoldable pub handle_timeout : Exec Frame Bool
  unfolding schedule_retry move_to_dead_letter
  handle_timeout = do
    before ← gets (λ f. f.task)
    update (λ t. record t { attempts = t.attempts + 1; worker_id = none; started_at = none })
    t ← gets (λ f. f.task)
    if can_retry t
        then schedule_retry before.status "Exceeded execution timeout" "task.requeued_timeout"
            (some timeout_template)
        else move_to_dead_letter before.status "Exceeded max retries after timeout"
            "task.dead_letter"
    t' ← gets (λ f. f.task)
    on_world (save env t')
    on_world (clear_inflight env t'.id)
    pure true
