-- ===== src/Persistence/Schema.antt =====
-- The schema that the classes of src/atlasqueue/infrastructure/persistence/models.py declare: what
-- SQLAlchemy keeps of them in `Base.metadata`. Defaults on the side of Python are no part of it.
pub mod Cells
pub mod Fits
use atlas_queue.Prelude.{ℕ, String, Bool, true, false, Option, none, some, List, [], ◌∷◌, ◌++◌}

pub data ColumnType : Type 0 where
  uuid text integer jsonb date_time : ColumnType
  string : (length : ℕ) → ColumnType

-- a foreign key, and what a deleted row does to those that refer to it
pub record ForeignKey : Type 0 where
  pub table : String
  pub column : String
  pub ondelete : String

pub record Column : Type 0 where
  pub name : String
  pub type_ : ColumnType
  pub nullable : Bool
  pub primary_key : Bool
  pub unique : Bool
  pub foreign_key : Option ForeignKey
  pub server_default : Option String

pub record Table : Type 0 where
  pub name : String
  pub columns : List Column

pub record Index : Type 0 where
  pub name : String
  pub table : String
  pub columns : List String
  pub unique : Bool
  pub postgresql_where : Option String

pub record Schema : Type 0 where
  pub tables : List Table
  pub indexes : List Index

-- a column that may hold a NULL, and one that may not
abbrev pub optional : String → ColumnType → Column
optional name type_ = record {
  name = name;
  type_ = type_;
  nullable = true;
  primary_key = false;
  unique = false;
  foreign_key = none;
  server_default = none;
}

abbrev pub required : String → ColumnType → Column
required name type_ = record (optional name type_) { nullable = false }

abbrev pub primary : String → Column
primary name = record (required name uuid) { primary_key = true }

-- `server_default=func.now()`
abbrev pub timestamp : String → Column
timestamp name = record (required name date_time) { server_default = some "now()" }

-- `TaskModel`
abbrev pub task_columns : List Column
task_columns =
    primary "id"
    ∷ required "name" (string 255)
    ∷ required "executor_type" (string 32)
    ∷ required "payload" jsonb
    ∷ required "status" (string 32)
    ∷ required "priority" integer
    ∷ optional "scheduled_at" date_time
    ∷ required "attempts" integer
    ∷ required "max_retries" integer
    ∷ required "timeout_seconds" integer
    ∷ required "backoff_policy" jsonb
    ∷ optional "worker_id" (string 128)
    ∷ optional "result" jsonb
    ∷ optional "error" text
    ∷ optional "idempotency_key" (string 255)
    ∷ timestamp "created_at"
    ∷ timestamp "updated_at"
    ∷ optional "started_at" date_time
    ∷ optional "finished_at" date_time
    ∷ []

abbrev pub task_indexes : List Index
task_indexes =
    record {
      name = "ix_tasks_status";
      table = "tasks";
      columns = "status" ∷ [];
      unique = false;
      postgresql_where = none;
    }
    ∷ record {
      name = "ix_tasks_idempotency_key";
      table = "tasks";
      columns = "idempotency_key" ∷ [];
      unique = true;
      postgresql_where = some "idempotency_key IS NOT NULL";
    }
    ∷ []

-- `TaskEventModel`
abbrev pub event_columns : List Column
event_columns =
    primary "id"
    ∷ record (required "task_id" uuid) {
      foreign_key = some (record { table = "tasks"; column = "id"; ondelete = "CASCADE" });
    }
    ∷ required "event_type" (string 64)
    ∷ optional "from_status" (string 32)
    ∷ optional "to_status" (string 32)
    ∷ optional "message" text
    ∷ required "metadata" jsonb
    ∷ timestamp "created_at"
    ∷ []

abbrev pub event_index : Index
event_index = record {
  name = "ix_task_events_task_id";
  table = "task_events";
  columns = "task_id" ∷ [];
  unique = false;
  postgresql_where = none;
}

-- `WorkerModel`
abbrev pub worker_columns : List Column
worker_columns =
    primary "id"
    ∷ required "hostname" (string 255)
    ∷ required "status" (string 32)
    ∷ timestamp "registered_at"
    ∷ timestamp "last_seen_at"
    ∷ required "metadata" jsonb
    ∷ []

-- `UserModel`
abbrev pub user_columns : List Column
user_columns =
    primary "id"
    ∷ record (required "username" (string 128)) { unique = true }
    ∷ required "password_hash" (string 255)
    ∷ required "role" (string 32)
    ∷ timestamp "created_at"
    ∷ []

-- `Base.metadata`
unfoldable pub metadata : Schema
metadata = record {
  tables =
      record { name = "tasks"; columns = task_columns }
      ∷ record { name = "task_events"; columns = event_columns }
      ∷ record { name = "workers"; columns = worker_columns }
      ∷ record { name = "users"; columns = user_columns }
      ∷ [];
  indexes = task_indexes ++ event_index ∷ [];
}
