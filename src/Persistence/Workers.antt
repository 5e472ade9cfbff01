-- ===== src/Persistence/Workers.antt =====
-- `SqlAlchemyWorkerRepository` of src/atlasqueue/infrastructure/persistence/repositories.py.
pub mod Table
use atlas_queue.Prelude.{
  ℕ, ◌+◌, suc, str_eq, Bool, ◌&&◌, not, Option, none, some, List, [], ◌∷◌, find, take, leb, ltb,
  ◌==◌, if◌then◌else◌,
}
use atlas_queue.Domain.Exceptions.{Result, ok, err}
use atlas_queue.Domain.Exceptions as Exceptions
use atlas_queue.Domain.Enums.{worker_status_value, parse_worker_status, offline}
use atlas_queue.Domain.Task.{Instant, seconds}
use atlas_queue.Domain.Worker.{Worker}
use atlas_queue.Persistence.Models.{WorkerModel}
use atlas_queue.Runtime.Exec.{Exec, ◌>>=◌, ◌>>◌, pure, lift}
use atlas_queue.Runtime.World.{Env, World, now, db_call}

-- INSERT, or the assignments to the row that is there
unfoldable pub upsert_worker : Worker → List WorkerModel → List WorkerModel
upsert_worker w [] =
    record {
      id = w.id;
      hostname = w.hostname;
      status = worker_status_value w.status;
      registered_at = w.registered_at;
      last_seen_at = w.last_seen_at;
      worker_metadata = w.metadata;
    }
    ∷ []
upsert_worker w (m ∷ ms) =
    if m.id == w.id
    then record m {
      hostname = w.hostname;
      status = worker_status_value w.status;
      last_seen_at = w.last_seen_at;
      worker_metadata = w.metadata;
    }
      ∷ ms
    else m ∷ upsert_worker w ms

unfoldable pub to_worker : WorkerModel → Result Worker
to_worker m = Exceptions.◌>>=◌ (parse_worker_status m.status) (λ status. ok (record {
  id = m.id;
  hostname = m.hostname;
  status = status;
  registered_at = m.registered_at;
  last_seen_at = m.last_seen_at;
  metadata = m.worker_metadata;
}))

all_to_worker : List WorkerModel → Result (List Worker)
unfolding to_worker
all_to_worker [] = ok []
all_to_worker (m ∷ ms) =
    Exceptions.◌>>=◌ (to_worker m) (λ w. Exceptions.◌>>=◌ (all_to_worker ms) (λ ws. ok (w ∷ ws)))

insert_recent : WorkerModel → List WorkerModel → List WorkerModel
insert_recent m [] = m ∷ []
insert_recent m (x ∷ xs) =
    if leb x.last_seen_at m.last_seen_at then m ∷ x ∷ xs else x ∷ insert_recent m xs

-- ORDER BY last_seen_at DESC
unfoldable pub by_last_seen : List WorkerModel → List WorkerModel
unfolding insert_recent
by_last_seen [] = []
by_last_seen (m ∷ ms) = insert_recent m (by_last_seen ms)

-- the WHERE clause of `mark_stale_offline`; `last_seen_at < now - delta`
unfoldable pub is_stale : Instant → ℕ → WorkerModel → Bool
is_stale cutoff stale_seconds m =
    ltb (m.last_seen_at + seconds stale_seconds) cutoff
    && not (str_eq m.status (worker_status_value offline))

-- UPDATE, with the number of rows that it changed
unfoldable pub set_offline : Instant → ℕ → List WorkerModel → ℕ × List WorkerModel
unfolding is_stale
set_offline cutoff stale_seconds [] = (0, [])
set_offline cutoff stale_seconds (m ∷ ms) =
    let (n, rest) = set_offline cutoff stale_seconds ms in
    if is_stale cutoff stale_seconds m
    then (suc n, record m { status = worker_status_value offline } ∷ rest)
    else (n, m ∷ rest)

module _ (env : Env) where
  -- `session.get`, then an INSERT or an UPDATE
  unfoldable pub save_worker : Worker → Exec World Unit
  unfolding upsert_worker
  save_worker w = do
    db_call env (λ db. (ok tt, db))
    db_call env (λ db. (ok tt, record db { workers = upsert_worker w db.workers }))

  unfoldable pub optional_worker : Option WorkerModel → Exec World (Option Worker)
  unfolding to_worker
  optional_worker none = pure none
  optional_worker (some m) = do w ← lift (to_worker m); pure (some w)

  unfoldable pub get_worker : ℕ → Exec World (Option Worker)
  unfolding optional_worker
  get_worker id = do
    model ← db_call env (λ db. (ok (find (λ m. m.id == id) db.workers), db))
    optional_worker model

  unfoldable pub list_workers : ℕ → Exec World (List Worker)
  unfolding all_to_worker by_last_seen
  list_workers limit = do
    rows ← db_call env (λ db. (ok (take limit (by_last_seen db.workers)), db))
    lift (all_to_worker rows)

  unfoldable pub mark_stale_offline : ℕ → Exec World ℕ
  unfolding set_offline
  mark_stale_offline stale_seconds = do
    cutoff ← now env
    db_call env (λ db.
        let (n, rows) = set_offline cutoff stale_seconds db.workers in
        (ok n, record db { workers = rows }))
