-- ===== src/Services/QueueManager/Served/Steps.antt =====
-- The steps of a submission where every call is served.
use atlas_queue.Prelude.{
  ℕ, ◌≡◌, ◌≢◌, refl, false, ◌||◌, String, Option, none, some, List, [], ◌∷◌, any, keep, arith, inl,
  inr, Bool-cases, ◌==◌,
}
use atlas_queue.Prelude.Text.{truthy}
use atlas_queue.Domain.Exceptions.{Result, ok, err}
use atlas_queue.Domain.Enums.{TaskStatus}
use atlas_queue.Domain.Task.{Task, TaskId, Instant}
use atlas_queue.Persistence.Models.{TaskModel}
use atlas_queue.Persistence.Mapping.{to_model_task}
use atlas_queue.Persistence.Tasks.{
  row_of, same_key, save, save_row, insert_row, or_now, get_by_idempotency_key, optional_task,
}
use atlas_queue.Persistence.Tasks.Saved.{At}
use atlas_queue.Runtime.Exec.{Exec, pure}
use atlas_queue.Runtime.Exec.Ensures.{Post, Ensures-bind, Ensures-if, Ensures-pure, Ensures-weaken}
use atlas_queue.Runtime.World.{Env, World, Settings, served, tick, now}
use atlas_queue.Runtime.World.Served.{Returns, Total, Returns-and, Returns-db_call}
use atlas_queue.Runtime.Frame.{Frame, on_world}
use atlas_queue.Services.Rows.{View, On, KeepsTasks, step_keep}
use atlas_queue.Services.QueueManager.{find_existing}
use atlas_queue.Services.QueueManager.Queued.{HasRow}

-- no row has the id or the idempotency key
abbrev pub Free : TaskId → Option String → List TaskModel → Type 0
Free id key rows = any (λ o. o.id == id || same_key o.idempotency_key key) rows ≡ false

abbrev pub Present : TaskId → List TaskModel → Type 0
Present id rows = row_of id rows ≢ none

-- an INSERT would not clash
abbrev pub Savable : View
Savable u rows = row_of u.id rows ≡ none → Free u.id u.idempotency_key rows

pub HasRow-Present :
    (id : TaskId) (s : TaskStatus) (rows : List TaskModel) → HasRow id s rows → Present id rows
HasRow-Present id s [] h = cc
HasRow-Present id s (m ∷ ms) h = elim (Bool-cases (m.id == id)) [
  | inl same ↦ rw same (λ e. cc)
  | inr other ↦ rw other (HasRow-Present id s ms (rw other at h))
]

-- then no row has the key
keyless :
    (id : TaskId) (key : String) (ms : List TaskModel)
    → Free id (some key) ms
    → keep (λ m. same_key m.idempotency_key (some key)) ms ≡ []
keyless id key [] h = refl
keyless id key (m ∷ ms) h = ground (arith, keyless id key ms)

pub Total_on_world :
    {A : Type 0} {P : Frame → Type 0} (m : Exec World A)
    → ((f : Frame) → P f → Post (λ _ _. Unit) (λ _. ⊥) (m f.world))
    → Returns P (on_world m) (λ _ _. Unit)
unfolding on_world
Total_on_world {A} {P} m h = record { at = λ f p. go f (m f.world) (h f p) }
  where
    go :
        (f : Frame) (r : Result A × World)
        → Post (λ _ _. Unit) (λ _. ⊥) r
        → Post {S = Frame} (λ _ _. Unit) (λ _. ⊥) (r.0, record f { world = r.1 })
    go f (ok a, w) x = tt
    go f (err e, w) x = x

-- a step that returns, and leaves the object and the table alone
pub step-Total :
    {A : Type 0} (X : View) (m : Exec World A)
    → KeepsTasks m
    → Total m
    → Returns (On X) (on_world m) (λ _. On X)
step-Total X m keeps total =
    Returns-and _ (step_keep X (λ _ _. Unit) m keeps (λ t rows x. tt))
      (Total_on_world m (λ f x. total.at f.world tt))

module _ (env : Env) (all_served : (n : ℕ) → env.fault n ≡ served) where
  Total-or_now :
      (P : World → Type 0) (o : Option Instant)
      → ((w : World) → P w → P (tick w))
      → Returns P (or_now env o) (λ _. P)
  unfolding or_now now pure
  Total-or_now P none h = record { at = λ w p. h w p }
  Total-or_now P (some at) h = record { at = λ w p. p }

  save_row-Returns :
      (u : Task) (o : Option TaskModel)
      → Returns
          (λ w. o ≡ none → Free u.id u.idempotency_key w.db.tasks)
          (save_row env u o)
          (λ _ _. Unit)
  unfolding save_row insert_row to_model_task
  save_row-Returns u none = Ensures-bind _ _ (Total-or_now _ u.created_at (λ w p. p)) λ c.
      Ensures-bind _ _ (Total-or_now _ u.updated_at (λ w p. p))
        λ d. Returns-db_call env all_served _ (λ w p. rw (p refl) tt)
  save_row-Returns u (some m) =
      Ensures-bind {R = λ _ _. Unit} _ _
        (Ensures-weaken _ (Total-or_now (λ w. Unit) u.updated_at (λ w p. tt)) (λ w p. tt)
          (λ _ w p. p) (λ w p. p))
        λ d. Returns-db_call env all_served _ (λ w p. tt)

  pub save-Returns : (u : Task) → Returns (λ w. Savable u w.db.tasks) (save env u) (λ _ _. Unit)
  unfolding save
  save-Returns u =
      Ensures-bind {R = λ o w. o ≡ none → Free u.id u.idempotency_key w.db.tasks} _ _
        (Returns-db_call env all_served _ (λ w p. p)) (λ o. save_row-Returns u o)

  pub none_found :
      (settings : Settings) (rows : List TaskModel) (id : TaskId) (key : Option String)
      → Free id key rows
      → Returns (At rows) (find_existing env settings key) (λ o w. (o ≡ none) × At rows w)
  unfolding find_existing get_by_idempotency_key
  none_found settings rows id none h = Ensures-pure none (λ w e. (refl, e))
  none_found settings rows id (some k) h =
      Ensures-if (truthy (some k)) _ _
        (λ _.
          Ensures-bind {R = λ o w. (o ≡ none) × At rows w} _ _
            (Returns-db_call env all_served _ (λ w e. rw (e, keyless id k rows h) (refl, refl)))
            nothing)
        (λ _. Ensures-pure none (λ w e. (refl, e)))
    where
      nothing :
          (o : Option TaskModel)
          → Returns
              (λ w. (o ≡ none) × At rows w)
              (optional_task env o)
              (λ o w. (o ≡ none) × At rows w)
      nothing none = Ensures-pure none (λ w e. (refl, e.1))
      nothing (some m) = record { at = λ w e. absurd (cc e.0) }
