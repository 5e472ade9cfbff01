-- ===== src/Services/WorkerRegistry/Rows.antt =====
-- What registrations and heartbeats do to the table of workers.
use atlas_queue.Prelude.{
  ℕ, ◌≡◌, refl, sym, subst, Bool-cases, ap, ◌∙◌, String, ◌⊎◌, inl, inr, Option, none, some, List,
  [], ◌∷◌, ◌==◌, ==_iff, if◌then◌else◌,
}
use atlas_queue.Prelude.Text.{show_uuid}
use atlas_queue.Domain.Exceptions.{Result, ok, err}
use atlas_queue.Domain.Exceptions as Exceptions
use atlas_queue.Domain.Enums.{WorkerStatus, active, parse_worker_status}
use atlas_queue.Domain.Task.{Instant}
use atlas_queue.Domain.Worker.{Worker, Metadata, create, heartbeat}
use atlas_queue.Persistence.Models.{WorkerModel}
use atlas_queue.Persistence.Workers.{to_worker, upsert_worker}
use atlas_queue.Persistence.Workers.Table.{
  row_at, row_at-id, worker_table, stored_worker, worker_table-upsert_worker, At, Found,
  get_worker-Found, save_worker-At,
}
use atlas_queue.Redis.Queue.{set_worker_heartbeat}
use atlas_queue.Runtime.Container.{worker_repository, queue_backend}
use atlas_queue.Services.WorkerRegistry.{register, beat, beat_row}
use atlas_queue.Runtime.Exec.Ensures.{Post, Ensures, Ensures-bind, Ensures-pure, Ensures-weaken}
use atlas_queue.Runtime.World.{Env, World, Settings, now, uuid4}
use atlas_queue.Runtime.World.Calls.{Ensures-redis_do}

abbrev pub new_worker : (at : Instant) (id : ℕ) → String → Metadata → Worker
new_worker at id hostname metadata = record {
  id = id;
  hostname = hostname;
  status = active;
  registered_at = at;
  last_seen_at = at;
  metadata = metadata;
}

-- What a registration answers, and that its worker is what the table has at its id; a row that was
-- there would keep its time of registration.
abbrev pub Registered : String → Metadata → List WorkerModel → Worker → World → Type 0
Registered hostname metadata rows worker v =
    ((at : Instant) × (id : ℕ) × (worker ≡ new_worker at id hostname metadata))
    × ((j : ℕ)
        → worker_table v.db.workers j ≡ (
            if worker.id == j
            then some (ok (stored_worker (row_at worker.id rows) worker))
            else worker_table rows j))

-- the entry of a worker that was seen at the instant
abbrev pub seen_at : Instant → Option (Result Worker) → Option (Result Worker)
seen_at t (some (ok w)) = some (ok (record w { last_seen_at = t; status = active }))
seen_at t x = x

-- the table after a heartbeat
abbrev pub BeatenRows : ℕ → (rows rows' : List WorkerModel) → Type 0
BeatenRows id rows rows' =
    (t : Instant) × ((j : ℕ)
      → worker_table rows' j
        ≡ (if id == j then seen_at t (worker_table rows id) else worker_table rows j))

abbrev pub Beaten : ℕ → List WorkerModel → World → Type 0
Beaten id rows v = BeatenRows id rows v.db.workers

-- what was read from a row is written back to it with its time of registration
abbrev pub Restored : WorkerModel → Instant → Worker → Type 0
Restored m t w = (w.id ≡ m.id) × (stored_worker (some m) (heartbeat t w) ≡ heartbeat t w)

pub to_worker-Restored :
    (m : WorkerModel) (w : Worker) (t : Instant) → to_worker m ≡ ok w → Restored m t w
unfolding to_worker heartbeat
to_worker-Restored m w t h = go (parse_worker_status m.status) h
  where
    with_status : WorkerStatus → Worker
    with_status s = record {
      id = m.id;
      hostname = m.hostname;
      status = s;
      registered_at = m.registered_at;
      last_seen_at = m.last_seen_at;
      metadata = m.worker_metadata;
    }

    go :
        (r : Result WorkerStatus)
        → Exceptions.◌>>=◌ r (λ s. ok (with_status s)) ≡ ok w
        → Restored m t w
    go (ok s) e = let same : with_status s ≡ w = cc e in subst (Restored m t) same (refl, refl)
    go (err x) e = cc e

Found-Beaten :
    (id : ℕ) (t : Instant) (rows : List WorkerModel) (w : Worker) (v : World)
    → Found id rows (some w)
    → At (upsert_worker (heartbeat t w) rows) v
    → Beaten id rows v
unfolding heartbeat
Found-Beaten id t rows w v (m, at, e) h =
    let (same, restored) = to_worker-Restored m w t e in
    let mine : w.id ≡ id = same ∙ row_at-id id rows m at in
    (
      t,
      λ j.
          ap (λ ms. worker_table ms j) h
          ∙ worker_table-upsert_worker (heartbeat t w) rows j
          ∙ rw (ap (λ k. row_at k rows) mine ∙ at, restored, at, e, mine) refl,
    )

kept-Beaten :
    (id : ℕ) (rows : List WorkerModel) (v : World)
    → Found id rows none
    → At rows v
    → Beaten id rows v
kept-Beaten id rows v missing h = (
  0,
  λ j. ap (λ ms. worker_table ms j) h ∙ elim (Bool-cases (id == j)) [
    | inl e ↦ rw (e, missing, sym ((==_iff id j).0 e), missing) refl
    | inr e ↦ rw e refl
  ],
)

module _ (env : Env) (settings : Settings) where
  -- the heartbeat in Redis leaves the tables
  pub set_worker_heartbeat-Rows :
      (P : List WorkerModel → Type 0) (key : String) (metadata : Metadata)
      → Ensures
          (λ v. P v.db.workers)
          (set_worker_heartbeat env settings key metadata)
          (λ _ v. P v.db.workers)
          (λ v. P v.db.workers)
  unfolding set_worker_heartbeat now
  set_worker_heartbeat-Rows P key metadata =
      Ensures-bind {R = λ _ v. P v.db.workers} _ _ (record { at = λ v h. h })
        λ _.
          Ensures-bind {R = λ _ v. P v.db.workers} _ _
            (Ensures-redis_do env _ (λ v at h. (h, h)) (λ v h. h))
            λ _. Ensures-redis_do env _ (λ v at h. (h, h)) (λ v h. h)

  register-Registered :
      (hostname : String) (metadata : Metadata) (rows : List WorkerModel)
      → Ensures
          (At rows)
          (register env (worker_repository env) (queue_backend env settings) hostname metadata)
          (Registered hostname metadata rows)
          (λ _. Unit)
  unfolding register now uuid4 create
  register-Registered hostname metadata rows =
      Ensures-bind {R = λ _. At rows} _ _ (record { at = λ v h. h })
        λ at.
          Ensures-bind {R = λ _. At rows} _ _ (record { at = λ v h. h })
            λ id.
              let worker : Worker = create at id hostname metadata in
              Ensures-bind {R = λ _. At (upsert_worker worker rows)} _ _
                (Ensures-weaken _ (save_worker-At env worker rows) (λ v h. h) (λ _ v h. h)
                  (λ v h. tt))
                λ _.
                  Ensures-bind {R = λ _. At (upsert_worker worker rows)} _ _
                    (Ensures-weaken _
                      (set_worker_heartbeat-Rows (λ ms. ms ≡ upsert_worker worker rows)
                        (show_uuid worker.id) (("hostname", hostname) ∷ []))
                      (λ v h. h) (λ _ v h. h) (λ v h. tt))
                    λ _. Ensures-pure worker (λ v h. (
                      (at, id, refl),
                      λ j.
                          ap (λ ms. worker_table ms j) h ∙ worker_table-upsert_worker worker rows j,
                    ))

  beat_row-Beaten :
      (id : ℕ) (rows : List WorkerModel) (o : Option Worker)
      → Ensures
          (λ v. Found id rows o × At rows v)
          (beat_row env (worker_repository env) (queue_backend env settings) o)
          (λ _. Beaten id rows)
          (At rows)
  unfolding beat_row now
  beat_row-Beaten id rows none = Ensures-pure tt (λ v h. kept-Beaten id rows v h.0 h.1)
  beat_row-Beaten id rows (some w) =
      Ensures-bind {R = λ _ v. Found id rows (some w) × At rows v} _ _ (record { at = λ v h. h })
        λ t. record {
          at = λ v h.
              (Ensures-weaken _ (save_worker-At env (heartbeat t w) rows) (λ v e. e)
                  (λ _ v e. Found-Beaten id t rows w v h.0 e) (λ v e. e)).at
                v h.1;
        }

  beat-Beaten :
      (id : ℕ) (hostname : String) (rows : List WorkerModel)
      → Ensures
          (At rows)
          (beat env (worker_repository env) (queue_backend env settings) id hostname)
          (λ _. Beaten id rows)
          (λ v. At rows v ⊎ Beaten id rows v)
  unfolding beat
  beat-Beaten id hostname rows =
      Ensures-bind {R = λ o v. Found id rows o × At rows v} _ _
        (Ensures-weaken _ (get_worker-Found env id rows) (λ v h. h) (λ _ v h. h) (λ v h. inl h))
        λ o.
          Ensures-bind {R = λ _. Beaten id rows} _ _
            (Ensures-weaken _ (beat_row-Beaten id rows o) (λ v h. h) (λ _ v h. h) (λ v h. inl h))
            λ _.
              Ensures-weaken _
                (set_worker_heartbeat-Rows (BeatenRows id rows) (show_uuid id)
                  (("hostname", hostname) ∷ []))
                (λ v h. h) (λ _ v h. h) (λ v h. inr h)

-- A registration, if it returns, answers a new, active worker with the host's name and metadata,
-- and sets the table of workers at its id only, to that worker, or to it with the time of
-- registration of a row that was there. A heartbeat, if it returns, makes the worker of its id, if
-- there is one, active and seen at an instant, and leaves the rest of the table, also of that
-- worker; where it raises, the table is that or still the same.
pub registry_lem :
    (env : Env) (settings : Settings) (hostname : String) (metadata : Metadata) (id : ℕ) (w : World)
    → Post
        (Registered hostname metadata w.db.workers)
        (λ _. Unit)
        (register env (worker_repository env) (queue_backend env settings) hostname metadata w)
      × Post
          (λ _. Beaten id w.db.workers)
          (λ v. At w.db.workers v ⊎ Beaten id w.db.workers v)
          (beat env (worker_repository env) (queue_backend env settings) id hostname w)
registry_lem env settings hostname metadata id w = (
  (register-Registered env settings hostname metadata w.db.workers).at w refl,
  (beat-Beaten env settings id hostname w.db.workers).at w refl,
)
