-- ===== src/Persistence/Workers/Table.antt =====
-- The table of workers as a function from ids, and what `save_worker` and `get_worker` do to it.
use atlas_queue.Prelude.{
  ℕ, ◌≡◌, refl, sym, ap, ◌∙◌, Bool, true, false, Option, none, some, List, [], ◌∷◌, find, ◌==◌,
  arith, if◌then◌else◌,
}
use atlas_queue.Domain.Exceptions.{Result, ok}
use atlas_queue.Domain.Enums.{worker_status_value, parse_worker_status-worker_status_value}
use atlas_queue.Domain.Worker.{Worker}
use atlas_queue.Persistence.Models.{WorkerModel}
use atlas_queue.Persistence.Workers.{
  upsert_worker, to_worker, save_worker, get_worker, optional_worker,
}
use atlas_queue.Runtime.Exec.Ensures.{Ensures, Ensures-bind, Ensures-pure, Ensures-lift}
use atlas_queue.Runtime.World.Calls.{Ensures-db_call}
use atlas_queue.Runtime.World.{Env, World}

abbrev pub row_at : ℕ → List WorkerModel → Option WorkerModel
row_at id rows = find (λ m. m.id == id) rows

abbrev pub read : Option WorkerModel → Option (Result Worker)
read none = none
read (some m) = some (to_worker m)

-- a worker, or the exception of reading its row, for each id that has a row
abbrev pub worker_table : List WorkerModel → ℕ → Option (Result Worker)
worker_table rows id = read (row_at id rows)

-- the row of a saved worker: one that was there keeps its time of registration
abbrev pub saved_row : Worker → Option WorkerModel → WorkerModel
saved_row u none = record {
  id = u.id;
  hostname = u.hostname;
  status = worker_status_value u.status;
  registered_at = u.registered_at;
  last_seen_at = u.last_seen_at;
  worker_metadata = u.metadata;
}
saved_row u (some m) = record m {
  hostname = u.hostname;
  status = worker_status_value u.status;
  last_seen_at = u.last_seen_at;
  worker_metadata = u.metadata;
}

-- what a saved worker reads like
abbrev pub stored_worker : Option WorkerModel → Worker → Worker
stored_worker none u = u
stored_worker (some m) u = record u { registered_at = m.registered_at }

row_at-upsert_worker :
    (u : Worker) (j : ℕ) (rows : List WorkerModel)
    → row_at j (upsert_worker u rows)
      ≡ (if u.id == j then some (saved_row u (row_at u.id rows)) else row_at j rows)
unfolding upsert_worker
row_at-upsert_worker u j [] = refl
row_at-upsert_worker u j (x ∷ xs) = ground (arith, row_at-upsert_worker u j xs)

pub row_at-id :
    (j : ℕ) (rows : List WorkerModel) (m : WorkerModel) → row_at j rows ≡ some m → m.id ≡ j
row_at-id j [] m h = cc
row_at-id j (x ∷ xs) m h = ground (arith, row_at-id j xs m)

to_worker-saved_row :
    (u : Worker) (o : Option WorkerModel)
    → ((m : WorkerModel) → o ≡ some m → m.id ≡ u.id)
    → to_worker (saved_row u o) ≡ ok (stored_worker o u)
unfolding to_worker
to_worker-saved_row u none h = rw parse_worker_status-worker_status_value refl
to_worker-saved_row u (some m) h = rw (parse_worker_status-worker_status_value, h m refl) refl

read-if :
    (b : Bool) (m : WorkerModel) (t : Worker) (o : Option WorkerModel)
    → to_worker m ≡ ok t
    → read (if b then some m else o) ≡ (if b then some (ok t) else read o)
read-if true m t o h = ap some h
read-if false m t o h = refl

-- saving a worker sets the table at its id only
pub worker_table-upsert_worker :
    (u : Worker) (rows : List WorkerModel) (j : ℕ)
    → worker_table (upsert_worker u rows) j
      ≡ (if u.id == j then some (ok (stored_worker (row_at u.id rows) u)) else worker_table rows j)
worker_table-upsert_worker u rows j =
    ap read (row_at-upsert_worker u j rows)
    ∙ read-if (u.id == j) (saved_row u (row_at u.id rows)) (stored_worker (row_at u.id rows) u)
        (row_at j rows) (to_worker-saved_row u (row_at u.id rows) (λ m h. row_at-id u.id rows m h))

-- the table is still this one
abbrev pub At : List WorkerModel → World → Type 0
At rows w = w.db.workers ≡ rows

-- what an answer says of the rows
abbrev pub Found : ℕ → List WorkerModel → Option Worker → Type 0
Found id rows none = row_at id rows ≡ none
Found id rows (some w) = (m : WorkerModel) × (row_at id rows ≡ some m) × (to_worker m ≡ ok w)

module _ (env : Env) where
  pub get_worker-Found :
      (id : ℕ) (rows : List WorkerModel)
      → Ensures (At rows) (get_worker env id) (λ o v. Found id rows o × At rows v) (At rows)
  unfolding get_worker
  get_worker-Found id rows =
      Ensures-bind {R = λ o v. (row_at id rows ≡ o) × At rows v} _ _
        (Ensures-db_call env _ (λ w h. (ap (row_at id) (sym h), h)) (λ w h. h)) found
    where
      found :
          (o : Option WorkerModel)
          → Ensures
              (λ v. (row_at id rows ≡ o) × At rows v)
              (optional_worker env o)
              (λ t v. Found id rows t × At rows v)
              (At rows)
      found none = Ensures-pure none (λ v h. h)
      found (some m) =
          Ensures-bind {R = λ t v. (to_worker m ≡ ok t) × (row_at id rows ≡ some m) × At rows v} _ _
            (Ensures-lift (to_worker m) (λ t v e h. (e, h.0, h.1)) (λ v h. h.1))
            λ t. Ensures-pure (some t) (λ v h. ((m, h.1, h.0), h.2))

  pub save_worker-At :
      (u : Worker) (rows : List WorkerModel)
      → Ensures (At rows) (save_worker env u) (λ _. At (upsert_worker u rows)) (At rows)
  unfolding save_worker
  save_worker-At u rows =
      Ensures-bind _ _ (Ensures-db_call env _ (λ w h. h) (λ w h. h))
        λ _. Ensures-db_call env _ (λ w h. ap (upsert_worker u) h) (λ w h. h)
