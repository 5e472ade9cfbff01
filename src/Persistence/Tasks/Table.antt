-- ===== src/Persistence/Tasks/Table.antt =====
-- The table of tasks as a function from ids, and the repository against it.
use atlas_queue.Prelude.{
  ◌≡◌, refl, Option, none, some, List, [], ◌∷◌, ◌++◌, ◌==◌, arith, if◌then◌else◌,
}
use atlas_queue.Domain.Exceptions.{Result, ok}
use atlas_queue.Domain.Enums.{parse_status-status_value, parse_executor-executor_value}
use atlas_queue.Domain.Task.{Task, TaskId, Instant, make_priority}
use atlas_queue.Persistence.Models.{TaskModel}
use atlas_queue.Persistence.Mapping.{to_domain_task, to_model_task, filled}
use atlas_queue.Persistence.Tasks.{row_of, assign, update_row}
use atlas_queue.Persistence.Tasks.Saved.{Saved}
use atlas_queue.Runtime.Exec.Ensures.{Ensures}
use atlas_queue.Runtime.World.{World}

-- The specification: a task, or the exception of reading its row, for each id that has a row.
abbrev pub Table : Type 0
Table = TaskId → Option (Result Task)

abbrev read : Option TaskModel → Option (Result Task)
read none = none
read (some m) = some (to_domain_task m)

abbrev pub table_of : List TaskModel → Table
table_of rows id = read (row_of id rows)

abbrev pub update : TaskId → Task → Table → Table
update id t table j = if id == j then some (ok t) else table j

-- What a saved task reads like: the defaults are filled in, and a row that was there keeps its
-- idempotency key and its creation time.
abbrev pub stored : Option TaskModel → (created updated : Instant) → Task → Task
stored none c d u = filled c d u
stored (some m) c d u = record (filled c d u) {
  idempotency_key = m.idempotency_key;
  created_at = some m.created_at;
}

pub row_of-append :
    (j : TaskId) (rows : List TaskModel) (m : TaskModel)
    → row_of m.id rows ≡ none
    → row_of j (rows ++ m ∷ []) ≡ (if m.id == j then some m else row_of j rows)
row_of-append j [] m h = refl
row_of-append j (x ∷ xs) m h = ground (arith, row_of-append j xs m)

pub row_of-id :
    (j : TaskId) (rows : List TaskModel) (m : TaskModel) → row_of j rows ≡ some m → m.id ≡ j
row_of-id j [] m h = cc
row_of-id j (x ∷ xs) m h = ground (arith, row_of-id j xs m)

pub row_of-update_row :
    (id j : TaskId) (f : TaskModel → TaskModel) (rows : List TaskModel) (m : TaskModel)
    → ((x : TaskModel) → (f x).id ≡ x.id)
    → row_of id rows ≡ some m
    → row_of j (update_row id f rows) ≡ (if id == j then some (f m) else row_of j rows)
unfolding update_row
row_of-update_row id j f [] m keeps h = cc
row_of-update_row id j f (x ∷ xs) m keeps h =
    ground (arith, keeps x, row_of-update_row id j f xs m keeps)

pub id-assign : (d : Instant) (u : Task) (m : TaskModel) → (assign d u m).id ≡ m.id
unfolding assign
id-assign d u m = refl

pub assign-to_domain_task :
    (c d : Instant) (u : Task) (m : TaskModel)
    → m.id ≡ u.id
    → to_domain_task (assign d u m) ≡ ok (stored (some m) c d u)
unfolding to_domain_task assign to_model_task make_priority
assign-to_domain_task c d u m h =
    rw (parse_executor-executor_value, parse_status-status_value, h) refl

-- what a write does to the table
abbrev pub Writes : (u : Task) (rows rows' : List TaskModel) → Type 0
Writes u rows rows' =
    (c : Instant) × (d : Instant) × ((j : TaskId)
      → table_of rows' j ≡ update u.id (stored (row_of u.id rows) c d u) (table_of rows) j)

-- what an answer says of a table
abbrev pub Reads : Option Task → Option (Result Task) → Type 0
Reads none x = x ≡ none
Reads (some t) x = x ≡ some (ok t)
