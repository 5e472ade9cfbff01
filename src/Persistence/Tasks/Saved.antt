-- ===== src/Persistence/Tasks/Saved.antt =====
-- What `save` does to the table of tasks.
use atlas_queue.Prelude.{
  ◌≡◌, sym, ap, Bool, ◌||◌, Option, none, some, List, [], ◌∷◌, ◌++◌, any, inl, inr, Bool-cases,
  ◌==◌,
}
use atlas_queue.Domain.Task.{Task, Instant}
use atlas_queue.Persistence.Models.{TaskModel}
use atlas_queue.Persistence.Mapping.{to_model_task}
use atlas_queue.Persistence.Tasks.{
  same_key, row_of, save, save_row, insert_row, update_row, assign, or_now,
}
use atlas_queue.Runtime.Exec.{pure}
use atlas_queue.Runtime.Exec.Ensures.{Post, Ensures, Ensures-bind}
use atlas_queue.Runtime.World.{Env, World, now}
use atlas_queue.Runtime.World.Calls.{answered, Ensures-db_call}

-- the two ways in which `save` succeeds
pub data Saved (u : Task) (rows rows' : List TaskModel) : Type 0 where
  inserted :
      (c d : Instant)
      → row_of u.id rows ≡ none
      → rows' ≡ rows ++ to_model_task c d u ∷ []
      → Saved u rows rows'
  assigned :
      (at : Instant) (m : TaskModel)
      → row_of u.id rows ≡ some m
      → rows' ≡ update_row u.id (assign at u) rows
      → Saved u rows rows'

-- the table is still this one
abbrev pub At : List TaskModel → World → Type 0
At rows w = w.db.tasks ≡ rows

insert-Saved :
    (u : Task) (c d : Instant) (w : World) (rows : List TaskModel)
    → row_of u.id rows ≡ none
    → At rows w
    → Post
        (λ _ w'. Saved u rows w'.db.tasks)
        (At rows)
        (answered (insert_row (to_model_task c d u)) w)
unfolding insert_row to_model_task
insert-Saved u c d w rows fresh h = elim (Bool-cases clash) [
  | inl taken ↦ rw taken h
  | inr free ↦ rw free (inserted c d fresh (ap (λ l. l ++ to_model_task c d u ∷ []) h))
]
  where
    clash : Bool
    clash = any (λ o. o.id == u.id || same_key o.idempotency_key u.idempotency_key) w.db.tasks

module _ (env : Env) where
  or_now-At :
      (o : Option Instant) (rows : List TaskModel)
      → Ensures (At rows) (or_now env o) (λ _. At rows) (At rows)
  unfolding or_now now pure
  or_now-At none rows = record { at = λ w h. h }
  or_now-At (some t) rows = record { at = λ w h. h }

  save_row-Saved :
      (u : Task) (rows : List TaskModel) (o : Option TaskModel)
      → row_of u.id rows ≡ o
      → Ensures (At rows) (save_row env u o) (λ _ w. Saved u rows w.db.tasks) (At rows)
  unfolding save_row
  save_row-Saved u rows none h = Ensures-bind _ _ (or_now-At u.created_at rows) λ c.
      Ensures-bind _ _ (or_now-At u.updated_at rows)
        λ d. Ensures-db_call env _ (λ w e. insert-Saved u c d w rows h e) (λ w e. e)
  save_row-Saved u rows (some m) h = Ensures-bind _ _ (or_now-At u.updated_at rows) λ at.
      Ensures-db_call env _ (λ w e. assigned at m h (ap (update_row u.id (assign at u)) e))
        (λ w e. e)

  -- `save` either raises and leaves the table alone, or writes the row of its task
  pub save-Saved :
      (u : Task) (rows : List TaskModel)
      → Ensures (At rows) (save env u) (λ _ w. Saved u rows w.db.tasks) (At rows)
  unfolding save
  save-Saved u rows =
      Ensures-bind {R = λ o w. At rows w × (row_of u.id rows ≡ o)} _ _
        (Ensures-db_call env _ (λ w e. (e, ap (row_of u.id) (sym e))) (λ w e. e))
        λ o. record { at = λ w (e, found). (save_row-Saved u rows o found).at w e }
