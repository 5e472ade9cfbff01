-- ===== src/Persistence/Schema/Cells.antt =====
-- What the columns of the tables ask of a row.
use Prim.Native.String.{count}
use Prim.Native.Nat.{◌^◌}
use atlas_queue.Prelude.{◌≤◌, ◌<◌, ◌≡◌, map, String, true, Option, none, some, List, [], ◌∷◌}
use atlas_queue.Prelude.Int.{ℤ, pos, negsuc}
use atlas_queue.Domain.Task.{Task}
use atlas_queue.Persistence.Models.{TaskModel, WorkerModel}
use atlas_queue.Persistence.Schema.{
  Column, ColumnType, uuid, text, integer, jsonb, date_time, string, task_columns, worker_columns,
}

-- what is sent for a column; of a JSON value, also of a null one, and of an instant only the kind
-- matters
pub data Cell : Type 0 where
  null json_cell time_cell uuid_cell : Cell
  int_cell : ℤ → Cell
  text_cell : String → Cell

abbrev pub or_null : {A : Type 0} → (A → Cell) → Option A → Cell
or_null f none = null
or_null f (some a) = f a

-- the integers of 32 bits
abbrev pub Int32 : ℤ → Type 0
Int32 (pos n) = n < 2 ^ 31
Int32 (negsuc n) = n < 2 ^ 31

-- what a type of Postgres can hold; the length of a text is in characters
abbrev pub Holds : ColumnType → Cell → Type 0
Holds uuid uuid_cell = Unit
Holds text (text_cell s) = Unit
Holds (string n) (text_cell s) = count s ≤ n
Holds integer (int_cell z) = Int32 z
Holds jsonb json_cell = Unit
Holds date_time time_cell = Unit
Holds _ _ = ⊥

abbrev pub Accepts : Column → Cell → Type 0
Accepts c null = c.nullable ≡ true
Accepts c v = Holds c.type_ v

infixr 20 ◌&◌
pub data AllAccept : List Column → List Cell → Type 0 where
  nil : AllAccept [] []
  ◌&◌ :
      {c : Column} {v : Cell} {cs : List Column} {vs : List Cell}
      → Accepts c v
      → AllAccept cs vs
      → AllAccept (c ∷ cs) (v ∷ vs)

-- the cells are those of the columns, by name and in order, and each is accepted
abbrev pub Fits : List Column → List (String × Cell) → Type 0
Fits cs cells =
    (map (λ (c : Column). c.name) cs ≡ map (λ x. x.0) cells) × AllAccept cs (map (λ x. x.1) cells)

abbrev pub task_cells : TaskModel → List (String × Cell)
task_cells m =
    ("id", uuid_cell)
    ∷ ("name", text_cell m.name)
    ∷ ("executor_type", text_cell m.executor_type)
    ∷ ("payload", json_cell)
    ∷ ("status", text_cell m.status)
    ∷ ("priority", int_cell m.priority)
    ∷ ("scheduled_at", or_null (λ t. time_cell) m.scheduled_at)
    ∷ ("attempts", int_cell (pos m.attempts))
    ∷ ("max_retries", int_cell (pos m.max_retries))
    ∷ ("timeout_seconds", int_cell (pos m.timeout_seconds))
    ∷ ("backoff_policy", json_cell)
    ∷ ("worker_id", or_null text_cell m.worker_id)
    ∷ ("result", json_cell)
    ∷ ("error", or_null text_cell m.error)
    ∷ ("idempotency_key", or_null text_cell m.idempotency_key)
    ∷ ("created_at", time_cell)
    ∷ ("updated_at", time_cell)
    ∷ ("started_at", or_null (λ t. time_cell) m.started_at)
    ∷ ("finished_at", or_null (λ t. time_cell) m.finished_at)
    ∷ []

abbrev pub TaskFits : TaskModel → Type 0
TaskFits m = Fits task_columns (task_cells m)

abbrev pub worker_cells : WorkerModel → List (String × Cell)
worker_cells m =
    ("id", uuid_cell)
    ∷ ("hostname", text_cell m.hostname)
    ∷ ("status", text_cell m.status)
    ∷ ("registered_at", time_cell)
    ∷ ("last_seen_at", time_cell)
    ∷ ("metadata", json_cell)
    ∷ []

abbrev pub WorkerFits : WorkerModel → Type 0
WorkerFits m = Fits worker_columns (worker_cells m)

-- what the columns ask of a task beyond its types
pub record Sized (t : Task) : Type 0 where
  pub name : count t.name ≤ 255
  pub priority : t.priority.value < 2 ^ 31
  pub attempts : t.attempts < 2 ^ 31
  pub max_retries : t.max_retries < 2 ^ 31
  pub timeout_seconds : t.timeout_seconds < 2 ^ 31
  pub worker_id : (s : String) → t.worker_id ≡ some s → count s ≤ 128
  pub idempotency_key : (s : String) → t.idempotency_key ≡ some s → count s ≤ 255
