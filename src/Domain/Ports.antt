-- ===== src/Domain/Ports.antt =====
-- The ports of src/atlasqueue/domain/ports/repositories.py, over the state `S` that their methods
-- act on. A `save` answers the entity that it was given, and an `append` its event; no caller reads
-- either.
pub mod Lawful
use atlas_queue.Prelude.{ℕ, String, Bool, Option, List}
use atlas_queue.Domain.Enums.{TaskStatus}
use atlas_queue.Domain.Task.{Task, TaskId, Instant}
use atlas_queue.Domain.Worker.{Worker, Metadata}
use atlas_queue.Persistence.Events.{TaskEvent}
use atlas_queue.Runtime.Exec.{Exec}

pub record TaskRepository (S : Type 0) : Type 0 where
  pub save : Task → Exec S Unit
  pub get_by_id : TaskId → Exec S (Option Task)
  pub get_by_idempotency_key : String → Exec S (Option Task)
  pub list_tasks :
      (status : Option TaskStatus)
      → (name : Option String) → (sort_by sort_order : String) → (limit offset : ℕ)
      → Exec S (List Task)
  pub count_tasks : (status : Option TaskStatus) → (name : Option String) → Exec S ℕ
  pub count_by_status : Exec S (List (String × ℕ))

pub record TaskEventRepository (S : Type 0) : Type 0 where
  pub append :
      TaskId
      → (event_type : String) → (from_status to_status : Option TaskStatus)
      → (message : Option String) → Metadata
      → Exec S Unit
  pub list_for_task : TaskId → Exec S (List TaskEvent)

pub record WorkerRepository (S : Type 0) : Type 0 where
  pub save : Worker → Exec S Unit
  pub get_by_id : ℕ → Exec S (Option Worker)
  pub list_workers : (limit : ℕ) → Exec S (List Worker)
  pub mark_stale_offline : (stale_seconds : ℕ) → Exec S ℕ

pub record QueueBackend (S : Type 0) : Type 0 where
  pub enqueue_ready : TaskId → (priority : ℕ) → Exec S Unit
  pub enqueue_scheduled : TaskId → (run_at : Instant) → Exec S Unit
  pub dequeue_ready : Exec S (Option TaskId)
  pub remove_scheduled : TaskId → Exec S Unit
  pub get_due_scheduled : (limit : ℕ) → Exec S (List TaskId)
  pub mark_inflight : TaskId → (worker_id : String) → (ttl_seconds : ℕ) → Exec S Unit
  pub clear_inflight : TaskId → Exec S Unit
  pub enqueue_dlq : TaskId → Exec S Unit
  pub dequeue_dlq : Exec S (Option TaskId)
  pub mark_cancelled : TaskId → Exec S Unit
  pub is_cancelled : TaskId → Exec S Bool
  pub clear_cancelled : TaskId → Exec S Unit
  pub queue_depths : Exec S (List (String × ℕ))
  pub set_worker_heartbeat : (worker_id : String) → Metadata → Exec S Unit
  pub get_active_workers : Exec S (List String)
  pub get_inflight_task_ids : Exec S (List TaskId)
  pub claim_due_scheduled : (limit : ℕ) → Exec S (List TaskId)

pub record LeaderLock (S : Type 0) : Type 0 where
  pub acquire : (ttl_seconds : ℕ) → Exec S Bool
  pub renew : (ttl_seconds : ℕ) → Exec S Bool
  pub release : Exec S Unit
