-- ===== src/Persistence/Events.antt =====
-- `SqlAlchemyTaskEventRepository` of src/atlasqueue/infrastructure/persistence/repositories.py, and
-- `TaskEvent` of src/atlasqueue/domain/ports/repositories.py.
use atlas_queue.Prelude.{
  ℕ, String, Option, none, some, List, [], ◌∷◌, ◌++◌, keep, ◌==◌, leb, if◌then◌else◌,
}
use atlas_queue.Domain.Exceptions.{Result, ok, err}
use atlas_queue.Domain.Exceptions as Exceptions
use atlas_queue.Domain.Enums.{TaskStatus, status_value, parse_status}
use atlas_queue.Domain.Task.{TaskId, Instant}
use atlas_queue.Domain.Worker.{Metadata}
use atlas_queue.Persistence.Models.{TaskEventModel}
use atlas_queue.Runtime.Exec.{Exec, ◌>>=◌, lift}
use atlas_queue.Runtime.World.{Env, World, now, uuid4, db_call}

pub record TaskEvent : Type 0 where
  pub id : ℕ
  pub task_id : TaskId
  pub event_type : String
  pub from_status : Option TaskStatus
  pub to_status : Option TaskStatus
  pub message : Option String
  pub metadata : Metadata
  pub created_at : Instant

abbrev pub optional_value : Option TaskStatus → Option String
optional_value none = none
optional_value (some s) = some (status_value s)

-- `TaskStatus(text) if text else None`
unfoldable pub optional_status : Option String → Result (Option TaskStatus)
optional_status none = ok none
optional_status (some s) = Exceptions.◌>>=◌ (parse_status s) (λ x. ok (some x))

module _ (env : Env) where
  -- The row's `created_at` is filled in by the server's clock.
  unfoldable pub append :
      TaskId
      → String
      → (from_status to_status : Option TaskStatus) → (message : Option String) → Metadata
      → Exec World Unit
  append task_id event_type from_status to_status message metadata = do
    id ← uuid4 env
    created_at ← now env
    db_call env (λ db. (
      ok tt,
      record db {
        events =
            db.events
            ++ record {
              id = id;
              task_id = task_id;
              event_type = event_type;
              from_status = optional_value from_status;
              to_status = optional_value to_status;
              message = message;
              event_metadata = metadata;
              created_at = created_at;
            }
              ∷ [];
      },
    ))

  unfoldable pub to_event : TaskEventModel → Result TaskEvent
  unfolding optional_status
  to_event m = Exceptions.◌>>=◌ (optional_status m.from_status) (λ from.
      Exceptions.◌>>=◌ (optional_status m.to_status) (λ to. ok (record {
        id = m.id;
        task_id = m.task_id;
        event_type = m.event_type;
        from_status = from;
        to_status = to;
        message = m.message;
        metadata = m.event_metadata;
        created_at = m.created_at;
      })))

  all_to_event : List TaskEventModel → Result (List TaskEvent)
  unfolding to_event
  all_to_event [] = ok []
  all_to_event (m ∷ ms) =
      Exceptions.◌>>=◌ (to_event m) (λ e. Exceptions.◌>>=◌ (all_to_event ms) (λ es. ok (e ∷ es)))

  insert_event : TaskEventModel → List TaskEventModel → List TaskEventModel
  insert_event m [] = m ∷ []
  insert_event m (x ∷ xs) =
      if leb m.created_at x.created_at then m ∷ x ∷ xs else x ∷ insert_event m xs

  -- ORDER BY created_at
  unfoldable pub by_created_at : List TaskEventModel → List TaskEventModel
  unfolding insert_event
  by_created_at [] = []
  by_created_at (m ∷ ms) = insert_event m (by_created_at ms)

  unfoldable pub list_for_task : TaskId → Exec World (List TaskEvent)
  unfolding all_to_event by_created_at
  list_for_task id = do
    rows ← db_call env (λ db. (ok (by_created_at (keep (λ m. m.task_id == id) db.events)), db))
    lift (all_to_event rows)
