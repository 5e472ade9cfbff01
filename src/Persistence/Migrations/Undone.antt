-- ===== src/Persistence/Migrations/Undone.antt =====
-- What the revisions of the schema make, and that they take it back.
use atlas_queue.Prelude.{
  ◌≡◌, refl, eq_iff, ◌++◌, String, str_eq, Bool, true, false, not, some, List, [], ◌∷◌, keep, any,
  arith,
}
use atlas_queue.Persistence.Schema.{Schema, Table, Index, metadata}
use atlas_queue.Persistence.Migrations.{
  has_table, has_index, is_referred, Operation, create_table, create_index, drop_table, drop_index,
  execute, run, initial_schema, users_auth, upgrade_head, downgrade_base,
}

-- the second list, with the first one's elements put in front, one by one
abbrev pub pushed : {A : Type 0} → List A → List A → List A
pushed [] ys = ys
pushed (x ∷ xs) ys = pushed xs (x ∷ ys)

-- a schema with what the models declare
abbrev pub with_models : Schema → Schema
with_models s = record {
  tables = pushed metadata.tables s.tables;
  indexes = pushed metadata.indexes s.indexes;
}

-- nothing of the schema has to do with the table
abbrev pub NoTable : Schema → String → Type 0
NoTable s name =
    (has_table name s.tables ≡ false)
    × (is_referred name s.tables ≡ false)
    × (any (λ i. str_eq i.table name) s.indexes ≡ false)

abbrev pub NoIndex : Schema → String → Type 0
NoIndex s name = has_index name s.indexes ≡ false

-- the names are free
pub record Free (s : Schema) : Type 0 where
  pub tasks : NoTable s "tasks"
  pub task_events : NoTable s "task_events"
  pub workers : NoTable s "workers"
  pub users : NoTable s "users"
  pub status : NoIndex s "ix_tasks_status"
  pub idempotency_key : NoIndex s "ix_tasks_idempotency_key"
  pub task_id : NoIndex s "ix_task_events_task_id"

keep-none :
    {A : Type 0} (p : A → Bool) (xs : List A) → any p xs ≡ false → keep (λ x. not (p x)) xs ≡ xs
keep-none p [] h = refl
keep-none p (x ∷ xs) h = ground (arith, keep-none p xs)

-- a script that is carried out to its end
infixr 20 ◌▸◌
data Runs : List Operation → Schema → Schema → Type 0 where
  done : {s : Schema} → Runs [] s s
  ◌▸◌ :
      {o : Operation} {os : List Operation} {s t u : Schema}
      → execute o s ≡ some t
      → Runs os t u
      → Runs (o ∷ os) s u

run-Runs : {os : List Operation} {s t : Schema} → Runs os s t → run os s ≡ some t
unfolding run
run-Runs done = refl
run-Runs (e ▸ r) = rw (e, run) (run-Runs r)

module _ (s : Schema) where
  execute-create_table :
      (t : Table)
      → has_table t.name s.tables ≡ false
      → execute (create_table t) s ≡ some (record s { tables = t ∷ s.tables })
  unfolding execute
  execute-create_table t free = rw free refl

  execute-create_index :
      (i : Index)
      → has_index i.name s.indexes ≡ false
      → has_table i.table s.tables ≡ true
      → execute (create_index i) s ≡ some (record s { indexes = i ∷ s.indexes })
  unfolding execute
  execute-create_index i free there = rw (free, there) refl

  -- the newest table, to which no other refers and which has no index left
  execute-drop_table :
      (t : Table)
      → has_table t.name s.tables ≡ false
      → is_referred t.name s.tables ≡ false
      → any (λ i. str_eq i.table t.name) s.indexes ≡ false
      → execute (drop_table t.name) (record s { tables = t ∷ s.tables }) ≡ some s
  unfolding execute
  execute-drop_table t free alone bare =
      rw
        (
          (eq_iff t.name t.name).1 refl,
          alone,
          keep-none (λ x. str_eq x.name t.name) s.tables free,
          keep-none (λ i. str_eq i.table t.name) s.indexes bare,
        )
        refl

  execute-drop_index :
      (i : Index) (table : String)
      → has_index i.name s.indexes ≡ false
      → execute (drop_index i.name table) (record s { indexes = i ∷ s.indexes }) ≡ some s
  unfolding execute
  execute-drop_index i table free =
      rw ((eq_iff i.name i.name).1 refl, keep-none (λ x. str_eq x.name i.name) s.indexes free) refl

module _ (s : Schema) (free : Free s) where
  open free use {tasks, task_events, workers, users, status, idempotency_key, task_id}

  upgrade_head-Runs : Runs (initial_schema.upgrade ++ users_auth.upgrade) s (with_models s)
  unfolding initial_schema users_auth metadata
  upgrade_head-Runs =
      (execute-create_table _ _ tasks.0)
      ▸ (execute-create_index _ _ status refl)
      ▸ (execute-create_index _ _ idempotency_key refl)
      ▸ (execute-create_table _ _ task_events.0)
      ▸ (execute-create_index _ _ task_id refl)
      ▸ (execute-create_table _ _ workers.0)
      ▸ (execute-create_table _ _ users.0)
      ▸ done

  downgrade_base-Runs : Runs (users_auth.downgrade ++ initial_schema.downgrade) (with_models s) s
  unfolding initial_schema users_auth metadata
  downgrade_base-Runs =
      (execute-drop_table _ _ users.0 users.1 users.2)
      ▸ (execute-drop_table _ _ workers.0 workers.1 workers.2)
      ▸ (execute-drop_index _ _ "task_events" task_id)
      ▸ (execute-drop_table _ _ task_events.0 task_events.1 task_events.2)
      ▸ (execute-drop_index _ _ "tasks" idempotency_key)
      ▸ (execute-drop_index _ _ "tasks" status)
      ▸ (execute-drop_table _ _ tasks.0 tasks.1 tasks.2)
      ▸ done

-- On a schema where their names are free, the two revisions make the tables and the indexes that
-- the models declare, and nothing else; taken back, they leave the schema as it was.
pub migrations_lem :
    (s : Schema)
    → Free s
    → (upgrade_head s ≡ some (with_models s)) × (downgrade_base (with_models s) ≡ some s)
unfolding upgrade_head downgrade_base
migrations_lem s free = (run-Runs (upgrade_head-Runs s free), run-Runs (downgrade_base-Runs s free))
