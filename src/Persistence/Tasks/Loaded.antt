-- ===== src/Persistence/Tasks/Loaded.antt =====
-- What `get_by_id` answers.
use atlas_queue.Prelude.{◌≡◌, sym, ap, Option, none, some, List, arith}
use atlas_queue.Domain.Exceptions.{ok}
use atlas_queue.Domain.Enums.{status_value, parse_status-ok}
use atlas_queue.Domain.Task.{Task, TaskId}
use atlas_queue.Persistence.Models.{TaskModel}
use atlas_queue.Persistence.Mapping.{to_domain_task}
use atlas_queue.Persistence.Tasks.{row_of, get_by_id, optional_task}
use atlas_queue.Runtime.Exec.Ensures.{Ensures, Ensures-bind, Ensures-pure, Ensures-lift}
use atlas_queue.Runtime.World.{Env, World, tick}
use atlas_queue.Runtime.World.Calls.{Ensures-db_call}

-- the object is that of the row with the id, if there is one
abbrev pub Loaded : TaskId → List TaskModel → Option Task → Type 0
Loaded id rows none = Unit
Loaded id rows (some t) = (m : TaskModel) × (row_of id rows ≡ some m) × (to_domain_task m ≡ ok t)

-- a status is read from its own text only
pub status-to_domain_task :
    (m : TaskModel) (t : Task) → to_domain_task m ≡ ok t → m.status ≡ status_value t.status
unfolding to_domain_task
status-to_domain_task m t h = parse_status-ok m.status t.status (ground arith)

pub id-to_domain_task : (m : TaskModel) (t : Task) → to_domain_task m ≡ ok t → m.id ≡ t.id
unfolding to_domain_task
id-to_domain_task m t h = ground arith

-- `P` is any fact about a world with this table that does not depend on the number of calls.
module _ (env : Env) (rows : List TaskModel) (P : World → Type 0)
    (table : (w : World) → P w → w.db.tasks ≡ rows) (ticks : (w : World) → P w → P (tick w)) where
  pub get_by_id-Loaded :
      (id : TaskId) → Ensures P (get_by_id env id) (λ o w. Loaded id rows o × P w) P
  unfolding get_by_id
  get_by_id-Loaded id =
      Ensures-bind {R = λ o w. (row_of id rows ≡ o) × P w} _ _
        (Ensures-db_call env _ (λ w h. (ap (row_of id) (sym (table w h)), ticks w h)) ticks) found
    where
      found :
          (o : Option TaskModel)
          → Ensures
              (λ w. (row_of id rows ≡ o) × P w)
              (optional_task env o)
              (λ t w. Loaded id rows t × P w)
              P
      found none = Ensures-pure none (λ w h. (tt, h.1))
      found (some m) =
          Ensures-bind {R = λ t w. (to_domain_task m ≡ ok t) × (row_of id rows ≡ some m) × P w} _ _
            (Ensures-lift (to_domain_task m) (λ t w e h. (e, h.0, h.1)) (λ w h. h.1))
            λ t. Ensures-pure (some t) (λ w h. ((m, h.1, h.0), h.2))
