-- ===== src/Domain/Task/Lifecycle.antt =====
-- The state machine of `Task.transition_to`, as a step relation.
use atlas_queue.Prelude.{◌≡◌, refl, ◌≢◌, some, ◌⊎◌, inl, inr, any, true, arith, Bool-cases}
use atlas_queue.Domain.Exceptions.{ok}
use atlas_queue.Domain.Enums.{
  TaskStatus, pending, scheduled, queued, running, completed, failed, cancelled, dead_letter,
  enqueue_failed, same_status,
}
use atlas_queue.Domain.Task.{Task, Instant, allowed, transition_to}

-- the life of a task, drawn edge by edge
infix 30 ◌⟶◌
pub data ◌⟶◌ : TaskStatus → TaskStatus → Type 0 where
  pending_queued : pending ⟶ queued
  pending_enqueue_failed : pending ⟶ enqueue_failed
  pending_cancelled : pending ⟶ cancelled
  scheduled_queued : scheduled ⟶ queued
  scheduled_cancelled : scheduled ⟶ cancelled
  scheduled_enqueue_failed : scheduled ⟶ enqueue_failed
  queued_running : queued ⟶ running
  queued_cancelled : queued ⟶ cancelled
  running_completed : running ⟶ completed
  running_failed : running ⟶ failed
  running_cancelled : running ⟶ cancelled
  running_queued : running ⟶ queued
  running_dead_letter : running ⟶ dead_letter
  failed_queued : failed ⟶ queued
  failed_dead_letter : failed ⟶ dead_letter
  enqueue_failed_queued : enqueue_failed ⟶ queued
  enqueue_failed_scheduled : enqueue_failed ⟶ scheduled
  dead_letter_queued : dead_letter ⟶ queued

ruleset edges = (
  pending_queued, pending_enqueue_failed, pending_cancelled, scheduled_queued, scheduled_cancelled,
  scheduled_enqueue_failed, queued_running, queued_cancelled, running_completed, running_failed,
  running_cancelled, running_queued, running_dead_letter, failed_queued, failed_dead_letter,
  enqueue_failed_queued, enqueue_failed_scheduled, dead_letter_queued,
)

pub allowed-⟶ : (a b : TaskStatus) → any (same_status b) (allowed a) ≡ true → a ⟶ b
allowed-⟶ pending b h = grind (arith, edges)
allowed-⟶ _ b h = grind (arith, edges)

⟶-allowed : {a b : TaskStatus} → a ⟶ b → any (same_status b) (allowed a) ≡ true
⟶-allowed pending_queued = refl
⟶-allowed _ = refl

-- `transition_to` accepts exactly the edges of the diagram: it returns the task with the new status
-- and update time if there is an edge from the old status, and raises if there is none.
pub transition_to_iff :
    (s : TaskStatus) (now : Instant) (t : Task)
    → (t.status ⟶ s × (transition_to s now t ≡ ok (record t { status = s; updated_at = some now })))
      ⊎ (¬ (t.status ⟶ s) × ((u : Task) → transition_to s now t ≢ ok u))
unfolding transition_to
transition_to_iff s now t = elim (Bool-cases (any (same_status s) (allowed t.status))) [
  | inl yes_edge ↦ inl (allowed-⟶ t.status s yes_edge, rw yes_edge)
  | inr no_edge ↦ inr (λ e. cc (⟶-allowed e), λ u h. cc (rw no_edge at h))
]
