-- ===== src/Runtime/Container/Lawful.antt =====
-- The classes of the container keep the laws of their ports.
use atlas_queue.Prelude.{ℕ, ◌≡◌, refl, ap, ◌∙◌, Option, none, some, List, ◌==◌, if◌then◌else◌}
use atlas_queue.Domain.Exceptions.{Result, ok, err}
use atlas_queue.Domain.Exceptions as Exceptions
use atlas_queue.Domain.Enums.{WorkerStatus, parse_worker_status}
use atlas_queue.Domain.Worker.{Worker}
use atlas_queue.Domain.Ports.Lawful.{Workers, Since, Sets, Reads, IsLawful}
use atlas_queue.Persistence.Models.{WorkerModel}
use atlas_queue.Persistence.Workers.{upsert_worker, to_worker}
use atlas_queue.Persistence.Workers.Table.{
  row_at, row_at-id, read, worker_table, stored_worker, worker_table-upsert_worker, Found,
  get_worker-Found, save_worker-At,
}
use atlas_queue.Runtime.Exec.Ensures.{Ensures-weaken}
use atlas_queue.Runtime.World.{Env, World, Settings}
use atlas_queue.Runtime.Container.{worker_repository, queue_backend}
use atlas_queue.Services.WorkerRegistry.Rows.{set_worker_heartbeat-Rows, to_worker-Restored}

-- the table of workers, as the database has it
abbrev pub workers_of : World → Workers
workers_of w = worker_table w.db.workers

stored_worker-Since :
    (u : Worker) (o : Option WorkerModel)
    → (at : ℕ) × Since u (read o) at × (stored_worker o u ≡ record u { registered_at = at })
unfolding to_worker
stored_worker-Since u none = (u.registered_at, refl, refl)
stored_worker-Since u (some m) = (m.registered_at, by_status (parse_worker_status m.status), refl)
  where
    by_status :
        (r : Result WorkerStatus)
        → Since u
            (some (
              Exceptions.◌>>=◌ r (λ s. ok (record {
                id = m.id;
                hostname = m.hostname;
                status = s;
                registered_at = m.registered_at;
                last_seen_at = m.last_seen_at;
                metadata = m.worker_metadata;
              }))))
            m.registered_at
    by_status (ok s) = refl
    by_status (err e) = tt

read-id :
    (id : ℕ) (rows : List WorkerModel) (u : Worker) (o : Option WorkerModel)
    → row_at id rows ≡ o
    → read o ≡ some (ok u)
    → u.id ≡ id
read-id id rows u none h e = cc
read-id id rows u (some m) h e = (to_worker-Restored m u 0 (cc e)).0 ∙ row_at-id id rows m h

upsert_worker-Sets :
    (u : Worker) (rows rows' : List WorkerModel)
    → rows' ≡ upsert_worker u rows
    → Sets u (worker_table rows) (worker_table rows')
upsert_worker-Sets u rows rows' h =
    let (at, since, stored) = stored_worker-Since u (row_at u.id rows) in
    (
      at,
      since,
      λ j.
          ap (λ ms. worker_table ms j) h
          ∙ worker_table-upsert_worker u rows j
          ∙ ap (λ x. if u.id == j then some (ok x) else worker_table rows j) stored,
    )

Found-Reads :
    (id : ℕ) (rows : List WorkerModel) (o : Option Worker)
    → Found id rows o
    → Reads o (worker_table rows id)
Found-Reads id rows none h = ap read h
Found-Reads id rows (some u) (m, e, k) = ap read e ∙ ap some k

-- The repository of workers over SQLAlchemy and the queue over Redis keep the laws of their ports,
-- with the table of workers of the database behind them.
pub container-IsLawful :
    (env : Env) (settings : Settings)
    → IsLawful (worker_repository env) (queue_backend env settings) workers_of
container-IsLawful env settings = record {
  view-tick = λ w. refl;
  view-id = λ w id u h. read-id id w.db.workers u _ refl h;
  save-Sets = λ u w.
      (Ensures-weaken _ (save_worker-At env u w.db.workers) (λ v h. h)
          (λ _ v h. upsert_worker-Sets u w.db.workers v.db.workers h) (λ v h. ap worker_table h)).at
        w refl;
  get_by_id-Reads = λ id w.
      (Ensures-weaken _ (get_worker-Found env id w.db.workers) (λ v h. h)
          (λ o v h. (Found-Reads id w.db.workers o h.0, ap worker_table h.1))
          (λ v h. ap worker_table h)).at
        w refl;
  set_worker_heartbeat-Same = λ key metadata w.
      (set_worker_heartbeat-Rows env settings (λ ms. worker_table ms ≡ workers_of w) key
          metadata).at
        w refl;
}
