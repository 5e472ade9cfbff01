-- ===== src/Persistence/Models.antt =====
-- The tables of src/atlasqueue/infrastructure/persistence/models.py. A table is the list of its
-- rows, the oldest first; enumerations are stored as texts.
use atlas_queue.Prelude.{ℕ, String, Option, List, []}
use atlas_queue.Prelude.Int.{ℤ}
use atlas_queue.Domain.Backoff.{Float}
use atlas_queue.Domain.Task.{Fields, Instant}
use atlas_queue.Domain.Worker.{Metadata}

-- the JSON column `backoff_policy`: any of its keys may be missing
pub record BackoffColumn : Type 0 where
  pub strategy : Option String
  pub base_delay_seconds : Option ℕ
  pub max_delay_seconds : Option ℕ
  pub multiplier : Option Float

pub record TaskModel : Type 0 where
  pub id : ℕ
  pub name : String
  pub executor_type : String
  pub payload : Fields
  pub status : String
  pub priority : ℤ
  pub scheduled_at : Option Instant
  pub attempts : ℕ
  pub max_retries : ℕ
  pub timeout_seconds : ℕ
  pub backoff_policy : BackoffColumn
  pub worker_id : Option String
  pub result : Option Fields
  pub error : Option String
  pub idempotency_key : Option String
  pub created_at : Instant
  pub updated_at : Instant
  pub started_at : Option Instant
  pub finished_at : Option Instant

pub record TaskEventModel : Type 0 where
  pub id : ℕ
  pub task_id : ℕ
  pub event_type : String
  pub from_status : Option String
  pub to_status : Option String
  pub message : Option String
  pub event_metadata : Metadata
  pub created_at : Instant

pub record WorkerModel : Type 0 where
  pub id : ℕ
  pub hostname : String
  pub status : String
  pub registered_at : Instant
  pub last_seen_at : Instant
  pub worker_metadata : Metadata

pub record UserModel : Type 0 where
  pub id : ℕ
  pub username : String
  pub password_hash : String
  pub role : String
  pub created_at : Instant

pub record Db : Type 0 where
  pub tasks : List TaskModel
  pub events : List TaskEventModel
  pub workers : List WorkerModel
  pub users : List UserModel

abbrev pub empty_db : Db
empty_db = record { tasks = []; events = []; workers = []; users = [] }
