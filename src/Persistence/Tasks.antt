-- ===== src/Persistence/Tasks.antt =====
-- `SqlAlchemyTaskRepository` of src/atlasqueue/infrastructure/persistence/repositories.py.
pub mod Saved
pub mod Table
pub mod Loaded
use Prim.Native.String.{◌++◌ as cat}
use atlas_queue.Prelude.{
  ℕ, ◌+◌, String, str_eq, Bool, true, false, ◌&&◌, ◌||◌, Option, none, some, List, [], ◌∷◌, ◌++◌,
  find, keep, any, take, drop, length, leb, ◌==◌, if◌then◌else◌,
}
use atlas_queue.Prelude.Int.{leb_ℤ}
use atlas_queue.Prelude.Text.{truthy}
use atlas_queue.Domain.Exceptions.{Exc, Result, ok, err, external_error}
use atlas_queue.Domain.Exceptions as Exceptions
use atlas_queue.Domain.Enums.{TaskStatus, status_value}
use atlas_queue.Domain.Task.{Task, TaskId, Instant}
use atlas_queue.Persistence.Models.{TaskModel, Db}
use atlas_queue.Persistence.Mapping.{to_domain_task, to_model_task}
use atlas_queue.Runtime.Exec.{Exec, ◌>>=◌, pure, lift}
use atlas_queue.Runtime.World.{Env, World, now, db_call}

-- `session.get(TaskModel, id)`
abbrev pub row_of : TaskId → List TaskModel → Option TaskModel
row_of id rows = find (λ m. m.id == id) rows

abbrev pub same_key : Option String → Option String → Bool
same_key (some a) (some b) = str_eq a b
same_key _ _ = false

-- an INSERT, under the primary key and the unique index on `idempotency_key`
unfoldable pub insert_row : TaskModel → Db → Result (Unit {0}) × Db
insert_row m db =
    if any (λ o. o.id == m.id || same_key o.idempotency_key m.idempotency_key) db.tasks
    then (err (external_error "IntegrityError"), db)
    else (ok tt, record db { tasks = db.tasks ++ m ∷ [] })

-- the assignments of `save` to the row that is there: all but the key, the idempotency key and
-- the creation time
unfoldable pub assign : Instant → Task → TaskModel → TaskModel
assign updated task existing =
    let new = to_model_task existing.created_at updated task in
    record existing {
      name = new.name;
      executor_type = new.executor_type;
      payload = new.payload;
      status = new.status;
      priority = new.priority;
      scheduled_at = new.scheduled_at;
      attempts = new.attempts;
      max_retries = new.max_retries;
      timeout_seconds = new.timeout_seconds;
      backoff_policy = new.backoff_policy;
      worker_id = new.worker_id;
      result = new.result;
      error = new.error;
      updated_at = new.updated_at;
      started_at = new.started_at;
      finished_at = new.finished_at;
    }

unfoldable pub update_row : TaskId → (TaskModel → TaskModel) → List TaskModel → List TaskModel
update_row id f [] = []
update_row id f (m ∷ ms) = if m.id == id then f m ∷ ms else m ∷ update_row id f ms

-- `scalar_one_or_none`
abbrev pub one_or_none {ℓ} : {A : Type ℓ} → List A → Result (Option A)
one_or_none [] = ok none
one_or_none (a ∷ []) = ok (some a)
one_or_none (a ∷ b ∷ _) = err (external_error "MultipleResultsFound")

module _ (env : Env) where
  -- `at or datetime.now(UTC)`
  unfoldable pub or_now : Option Instant → Exec World Instant
  or_now none = now env
  or_now (some at) = pure at

  unfoldable pub save_row : Task → Option TaskModel → Exec World Unit
  unfolding insert_row assign update_row or_now
  save_row task none = do
    created ← or_now task.created_at
    updated ← or_now task.updated_at
    db_call env (insert_row (to_model_task created updated task))
  save_row task (some existing) = do
    updated ← or_now task.updated_at
    db_call env
        (λ db. (ok tt, record db { tasks = update_row task.id (assign updated task) db.tasks }))

  unfoldable pub save : Task → Exec World Unit
  unfolding save_row
  save task = do
    existing ← db_call env (λ db. (ok (row_of task.id db.tasks), db))
    save_row task existing

  -- `_to_domain_task(model) if model else None`
  unfoldable pub optional_task : Option TaskModel → Exec World (Option Task)
  optional_task none = pure none
  optional_task (some m) = do task ← lift (to_domain_task m); pure (some task)

  unfoldable pub get_by_id : TaskId → Exec World (Option Task)
  unfolding optional_task
  get_by_id id = do model ← db_call env (λ db. (ok (row_of id db.tasks), db)); optional_task model

  unfoldable pub get_by_idempotency_key : String → Exec World (Option Task)
  unfolding optional_task
  get_by_idempotency_key key = do
    model ←
        db_call env
          (λ db. (one_or_none (keep (λ m. same_key m.idempotency_key (some key)) db.tasks), db))
    optional_task model

  -- the WHERE clauses of a listing
  unfoldable pub matches : Option TaskStatus → Option String → TaskModel → Bool
  matches status name m =
      elim status [ none ↦ true | some s ↦ str_eq m.status (status_value s) ] && elim name [
        | none ↦ true
        | some n ↦ if truthy (some n) then env.ilike m.name (cat "%" (cat n "%")) else true
      ]

  -- `column <= column` for the sort column that `sort_by` names
  unfoldable pub column_le : String → TaskModel → TaskModel → Bool
  column_le sort_by a b =
      if str_eq sort_by "priority"
      then leb_ℤ a.priority b.priority
      else if str_eq sort_by "status"
      then env.collate_le a.status b.status
      else if str_eq sort_by "name"
      then env.collate_le a.name b.name
      else leb a.created_at b.created_at

  pub insert_sorted : (TaskModel → TaskModel → Bool) → TaskModel → List TaskModel → List TaskModel
  insert_sorted le m [] = m ∷ []
  insert_sorted le m (x ∷ xs) = if le m x then m ∷ x ∷ xs else x ∷ insert_sorted le m xs

  -- ORDER BY: rows that are equal in the column come in the order of the table
  unfoldable pub order_by : (TaskModel → TaskModel → Bool) → List TaskModel → List TaskModel
  unfolding insert_sorted
  order_by le [] = []
  order_by le (m ∷ ms) = insert_sorted le m (order_by le ms)

  -- `desc` reverses the comparison
  unfoldable pub ordering : (sort_by sort_order : String) → TaskModel → TaskModel → Bool
  unfolding column_le
  ordering sort_by sort_order a b =
      if str_eq sort_order "desc" then column_le sort_by b a else column_le sort_by a b

  unfoldable pub all_to_domain : List TaskModel → Result (List Task)
  all_to_domain [] = ok []
  all_to_domain (m ∷ ms) =
      Exceptions.◌>>=◌ (to_domain_task m)
        (λ t. Exceptions.◌>>=◌ (all_to_domain ms) (λ ts. ok (t ∷ ts)))

  unfoldable pub select_tasks :
      Option TaskStatus
      → Option String
      → (sort_by sort_order : String) → (limit offset : ℕ) → List TaskModel
      → List TaskModel
  unfolding matches ordering order_by
  select_tasks status name sort_by sort_order limit offset rows =
      take limit
        (drop offset (order_by (ordering sort_by sort_order) (keep (matches status name) rows)))

  unfoldable pub list_tasks :
      Option TaskStatus
      → Option String
      → (sort_by sort_order : String) → (limit offset : ℕ) → Exec World (List Task)
  unfolding select_tasks all_to_domain
  list_tasks status name sort_by sort_order limit offset = do
    rows ←
        db_call env
          (λ db. (ok (select_tasks status name sort_by sort_order limit offset db.tasks), db))
    lift (all_to_domain rows)

  unfoldable pub count_tasks : Option TaskStatus → Option String → Exec World ℕ
  unfolding matches
  count_tasks status name =
      db_call env (λ db. (ok (length (keep (matches status name) db.tasks)), db))

  unfoldable pub tally : String → List (String × ℕ) → List (String × ℕ)
  tally s [] = (s, 1) ∷ []
  tally s ((t, n) ∷ counts) = if str_eq s t then (t, n + 1) ∷ counts else (t, n) ∷ tally s counts

  -- GROUP BY status, with the number of rows in each group
  unfoldable pub group_by_status : List TaskModel → List (String × ℕ)
  unfolding tally
  group_by_status [] = []
  group_by_status (m ∷ ms) = tally m.status (group_by_status ms)

  unfoldable pub count_by_status : Exec World (List (String × ℕ))
  unfolding group_by_status
  count_by_status = db_call env (λ db. (ok (group_by_status db.tasks), db))
