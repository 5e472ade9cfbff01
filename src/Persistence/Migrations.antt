-- ===== src/Persistence/Migrations.antt =====
-- src/alembic/versions: the revisions of the schema, as the statements that they send.
pub mod Undone
use atlas_queue.Prelude.{
  String, str_eq, Bool, true, false, not, ◌&&◌, Option, none, some, List, [], ◌∷◌, ◌++◌, any, keep,
  if◌then◌else◌,
}
use atlas_queue.Persistence.Schema.{
  Schema, Table, Index, Column, ForeignKey, uuid, text, integer, jsonb, date_time, string, optional,
  required, primary, timestamp,
}

-- the operations of Alembic that the revisions use
pub data Operation : Type 0 where
  create_table : Table → Operation
  create_index : Index → Operation
  drop_table : String → Operation
  drop_index : (index table : String) → Operation

pub record Revision : Type 0 where
  pub revision : String
  pub down_revision : Option String
  pub upgrade : List Operation
  pub downgrade : List Operation

-- 001_initial_schema.py
unfoldable pub initial_schema : Revision
initial_schema = record {
  revision = "001";
  down_revision = none;
  upgrade =
      create_table (record {
        name = "tasks";
        columns =
            primary "id"
            ∷ required "name" (string 255)
            ∷ required "executor_type" (string 32)
            ∷ required "payload" jsonb
            ∷ required "status" (string 32)
            ∷ required "priority" integer
            ∷ optional "scheduled_at" date_time
            ∷ required "attempts" integer
            ∷ required "max_retries" integer
            ∷ required "timeout_seconds" integer
            ∷ required "backoff_policy" jsonb
            ∷ optional "worker_id" (string 128)
            ∷ optional "result" jsonb
            ∷ optional "error" text
            ∷ optional "idempotency_key" (string 255)
            ∷ timestamp "created_at"
            ∷ timestamp "updated_at"
            ∷ optional "started_at" date_time
            ∷ optional "finished_at" date_time
            ∷ [];
      })
      ∷ create_index (record {
        name = "ix_tasks_status";
        table = "tasks";
        columns = "status" ∷ [];
        unique = false;
        postgresql_where = none;
      })
      ∷ create_index (record {
        name = "ix_tasks_idempotency_key";
        table = "tasks";
        columns = "idempotency_key" ∷ [];
        unique = true;
        postgresql_where = some "idempotency_key IS NOT NULL";
      })
      ∷ create_table (record {
        name = "task_events";
        columns =
            primary "id"
            ∷ record (required "task_id" uuid) {
              foreign_key = some (record { table = "tasks"; column = "id"; ondelete = "CASCADE" });
            }
            ∷ required "event_type" (string 64)
            ∷ optional "from_status" (string 32)
            ∷ optional "to_status" (string 32)
            ∷ optional "message" text
            ∷ required "metadata" jsonb
            ∷ timestamp "created_at"
            ∷ [];
      })
      ∷ create_index (record {
        name = "ix_task_events_task_id";
        table = "task_events";
        columns = "task_id" ∷ [];
        unique = false;
        postgresql_where = none;
      })
      ∷ create_table (record {
        name = "workers";
        columns =
            primary "id"
            ∷ required "hostname" (string 255)
            ∷ required "status" (string 32)
            ∷ timestamp "registered_at"
            ∷ timestamp "last_seen_at"
            ∷ required "metadata" jsonb
            ∷ [];
      })
      ∷ [];
  downgrade =
      drop_table "workers"
      ∷ drop_index "ix_task_events_task_id" "task_events"
      ∷ drop_table "task_events"
      ∷ drop_index "ix_tasks_idempotency_key" "tasks"
      ∷ drop_index "ix_tasks_status" "tasks"
      ∷ drop_table "tasks"
      ∷ [];
}

-- 002_users_auth.py
unfoldable pub users_auth : Revision
users_auth = record {
  revision = "002";
  down_revision = some "001";
  upgrade =
      create_table (record {
        name = "users";
        columns =
            primary "id"
            ∷ record (required "username" (string 128)) { unique = true }
            ∷ required "password_hash" (string 255)
            ∷ required "role" (string 32)
            ∷ timestamp "created_at"
            ∷ [];
      })
      ∷ [];
  downgrade = drop_table "users" ∷ [];
}

-- What Postgres does with a statement: it refuses a name that is taken, a name that is not there,
-- and the drop of a table that another one refers to; a table takes its indexes along. The newest
-- table and the newest index stand first.
abbrev pub has_table : String → List Table → Bool
has_table name tables = any (λ t. str_eq t.name name) tables

abbrev pub has_index : String → List Index → Bool
has_index name indexes = any (λ i. str_eq i.name name) indexes

abbrev pub key_to : String → Option ForeignKey → Bool
key_to name none = false
key_to name (some key) = str_eq key.table name

-- another table has a foreign key to this one
abbrev pub is_referred : String → List Table → Bool
is_referred name tables =
    any (λ t. not (str_eq t.name name) && any (λ (c : Column). key_to name c.foreign_key) t.columns)
      tables

unfoldable pub execute : Operation → Schema → Option Schema
execute (create_table t) s =
    if has_table t.name s.tables then none else some (record s { tables = t ∷ s.tables })
execute (create_index i) s =
    if has_index i.name s.indexes
    then none
    else if has_table i.table s.tables
    then some (record s { indexes = i ∷ s.indexes })
    else none
execute (drop_table name) s =
    if is_referred name s.tables
    then none
    else if has_table name s.tables
    then some (record {
      tables = keep (λ t. not (str_eq t.name name)) s.tables;
      indexes = keep (λ i. not (str_eq i.table name)) s.indexes;
    })
    else none
execute (drop_index name table) s =
    if has_index name s.indexes
    then some (record s { indexes = keep (λ i. not (str_eq i.name name)) s.indexes })
    else none

-- a script, which stops at the first statement that is refused
unfoldable pub run : List Operation → Schema → Option Schema
unfolding execute
run [] s = some s
run (o ∷ os) s = elim (execute o s) [ none ↦ none | some t ↦ run os t ]

-- `alembic upgrade head` and `alembic downgrade base`
unfoldable pub upgrade_head : Schema → Option Schema
unfolding run
upgrade_head = run (initial_schema.upgrade ++ users_auth.upgrade)

unfoldable pub downgrade_base : Schema → Option Schema
unfolding run
downgrade_base = run (users_auth.downgrade ++ initial_schema.downgrade)
