-- ===== src/Services/Rows/Quiet.antt =====
-- Tables with no RUNNING row, and what `save` makes of them.
use atlas_queue.Prelude.{
  ◌≡◌, refl, Bool, true, false, str_eq, none, List, [], ◌∷◌, ◌++◌, any, ◌==◌, arith, ==_refl,
  if◌then◌else◌,
}
use atlas_queue.Domain.Enums.{running, status_value}
use atlas_queue.Domain.Task.{Task, TaskId, Instant}
use atlas_queue.Persistence.Models.{TaskModel}
use atlas_queue.Persistence.Mapping.{to_model_task}
use atlas_queue.Persistence.Tasks.{row_of, update_row, assign}
use atlas_queue.Persistence.Tasks.Saved.{Saved, inserted, assigned}

abbrev pub is_running : TaskModel → Bool
is_running m = str_eq m.status (status_value running)

-- no row is RUNNING
abbrev pub Quiet : List TaskModel → Type 0
Quiet rows = any is_running rows ≡ false

-- the table without the row of a task
abbrev pub rest_of : TaskId → List TaskModel → List TaskModel
rest_of id [] = []
rest_of id (m ∷ ms) = if m.id == id then ms else m ∷ rest_of id ms

pub Quiet-rest_of : (id : TaskId) (rows : List TaskModel) → Quiet rows → Quiet (rest_of id rows)
Quiet-rest_of id [] h = refl
Quiet-rest_of id (m ∷ ms) h = ground (arith, Quiet-rest_of id ms)

rest_of-none :
    (id : TaskId) (rows : List TaskModel) → row_of id rows ≡ none → rest_of id rows ≡ rows
rest_of-none id [] h = refl
rest_of-none id (m ∷ ms) h = ground (arith, rest_of-none id ms)

rest_of-append :
    (id : TaskId) (rows : List TaskModel) (m : TaskModel)
    → row_of id rows ≡ none
    → (m.id == id) ≡ true
    → rest_of id (rows ++ m ∷ []) ≡ rows
rest_of-append id [] m h e = ground arith
rest_of-append id (x ∷ xs) m h e = ground (arith, rest_of-append id xs m)

any-append :
    (p : TaskModel → Bool) (xs : List TaskModel) (m : TaskModel)
    → any p xs ≡ false
    → p m ≡ false
    → any p (xs ++ m ∷ []) ≡ false
any-append p [] m h e = ground arith
any-append p (x ∷ xs) m h e = ground (arith, any-append p xs m)

module _ (u : Task) (at : Instant) where
  rest_of-update_row :
      (rows : List TaskModel)
      → rest_of u.id (update_row u.id (assign at u) rows) ≡ rest_of u.id rows
  unfolding update_row assign
  rest_of-update_row [] = refl
  rest_of-update_row (m ∷ ms) = ground (arith, rest_of-update_row ms)

  Quiet-update_row :
      (rows : List TaskModel)
      → Quiet (rest_of u.id rows)
      → str_eq (status_value u.status) (status_value running) ≡ false
      → Quiet (update_row u.id (assign at u) rows)
  unfolding update_row assign to_model_task
  Quiet-update_row [] h s = refl
  Quiet-update_row (m ∷ ms) h s = ground (arith, Quiet-update_row ms)

module _ (u : Task) {rows rows' : List TaskModel} where
  -- saving a task leaves the other rows alone
  pub Quiet-rest_of-Saved :
      Quiet (rest_of u.id rows) → Saved u rows rows' → Quiet (rest_of u.id rows')
  unfolding to_model_task
  Quiet-rest_of-Saved h (inserted c d fresh e) =
      rw (e, rest_of-append u.id rows (to_model_task c d u) fresh (==_refl u.id))
        (rw (rest_of-none u.id rows fresh) at h)
  Quiet-rest_of-Saved h (assigned at m found e) = rw (e, rest_of-update_row u at rows) h

  -- and saving one that is not RUNNING makes its own row not RUNNING either
  pub Quiet-Saved :
      Quiet (rest_of u.id rows)
      → str_eq (status_value u.status) (status_value running) ≡ false
      → Saved u rows rows'
      → Quiet rows'
  unfolding to_model_task
  Quiet-Saved h s (inserted c d fresh e) =
      rw e (any-append is_running rows _ (rw (rest_of-none u.id rows fresh) at h) s)
  Quiet-Saved h s (assigned at m found e) = rw e (Quiet-update_row u at rows h s)
