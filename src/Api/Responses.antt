-- ===== src/Api/Responses.antt =====
-- The responses of src/atlasqueue/application/dto/task_dto.py, and the mappers of
-- src/atlasqueue/application/dto/mappers.py that fill them.
use atlas_queue.Prelude.{ℕ, String, Option, none, some, List}
use atlas_queue.Prelude.Text.{show_uuid}
use atlas_queue.Domain.Enums.{TaskStatus, status_value, executor_value, worker_status_value}
use atlas_queue.Domain.Task.{Task, Instant, Fields}
use atlas_queue.Domain.Worker.{Worker, Metadata}
use atlas_queue.Persistence.Events.{TaskEvent}

pub record TaskResponse : Type 0 where
  pub id : String
  pub name : String
  pub executor_type : String
  pub payload : Fields
  pub status : String
  pub priority : ℕ
  pub scheduled_at : Option Instant
  pub attempts : ℕ
  pub max_retries : ℕ
  pub timeout_seconds : ℕ
  pub worker_id : Option String
  pub result : Option Fields
  pub error : Option String
  pub created_at : Option Instant
  pub updated_at : Option Instant
  pub started_at : Option Instant
  pub finished_at : Option Instant

pub record TaskListResponse : Type 0 where
  pub tasks : List TaskResponse
  pub total : ℕ
  pub limit : ℕ
  pub offset : ℕ

pub record WorkerResponse : Type 0 where
  pub id : String
  pub hostname : String
  pub status : String
  pub registered_at : Instant
  pub last_seen_at : Instant
  pub metadata : Metadata

pub record TaskEventResponse : Type 0 where
  pub id : String
  pub event_type : String
  pub from_status : Option String
  pub to_status : Option String
  pub message : Option String
  pub metadata : Metadata
  pub created_at : Instant

pub record AdminStatsResponse : Type 0 where
  pub tasks_by_status : List (String × ℕ)
  pub queue_depths : List (String × ℕ)
  pub active_workers : ℕ
  pub workers : List WorkerResponse

pub record HealthResponse : Type 0 where
  pub status : String
  pub service : String

unfoldable pub task_to_response : Task → TaskResponse
task_to_response task = record {
  id = show_uuid task.id;
  name = task.name;
  executor_type = executor_value task.executor_type;
  payload = task.payload;
  status = status_value task.status;
  priority = task.priority.value;
  scheduled_at = task.scheduled_at;
  attempts = task.attempts;
  max_retries = task.max_retries;
  timeout_seconds = task.timeout_seconds;
  worker_id = task.worker_id;
  result = task.result;
  error = task.error;
  created_at = task.created_at;
  updated_at = task.updated_at;
  started_at = task.started_at;
  finished_at = task.finished_at;
}

unfoldable pub worker_to_response : Worker → WorkerResponse
worker_to_response worker = record {
  id = show_uuid worker.id;
  hostname = worker.hostname;
  status = worker_status_value worker.status;
  registered_at = worker.registered_at;
  last_seen_at = worker.last_seen_at;
  metadata = worker.metadata;
}

-- `status.value if status else None`
abbrev value_or_none : Option TaskStatus → Option String
value_or_none none = none
value_or_none (some s) = some (status_value s)

unfoldable pub task_event_to_response : TaskEvent → TaskEventResponse
task_event_to_response event = record {
  id = show_uuid event.id;
  event_type = event.event_type;
  from_status = value_or_none event.from_status;
  to_status = value_or_none event.to_status;
  message = event.message;
  metadata = event.metadata;
  created_at = event.created_at;
}
