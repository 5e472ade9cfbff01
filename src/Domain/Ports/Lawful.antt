-- ===== src/Domain/Ports/Lawful.antt =====
-- What the registry of workers asks of its ports: a table of workers behind them.
use atlas_queue.Prelude.{ℕ, ◌≡◌, String, Option, none, some, ◌==◌, if◌then◌else◌}
use atlas_queue.Domain.Exceptions.{Result, ok, err}
use atlas_queue.Domain.Task.{Instant}
use atlas_queue.Domain.Worker.{Worker, Metadata}
use atlas_queue.Domain.Ports.{WorkerRepository, QueueBackend}
use atlas_queue.Runtime.Exec.Ensures.{Post}
use atlas_queue.Runtime.World.{World, tick}

-- a worker, or the exception of reading it, for each id that is taken
abbrev pub Workers : Type 0
Workers = ℕ → Option (Result Worker)

abbrev pub Same : Workers → Workers → Type 0
Same f g = g ≡ f

-- a worker that was there keeps its time of registration
abbrev pub Since : Worker → Option (Result Worker) → Instant → Type 0
Since u none at = at ≡ u.registered_at
Since u (some (ok old)) at = at ≡ old.registered_at
Since u (some (err e)) at = Unit

abbrev pub Sets : Worker → Workers → Workers → Type 0
Sets u f g =
    (at : Instant) × Since u (f u.id) at
    × ((j : ℕ) → g j ≡ (if u.id == j then some (ok (record u { registered_at = at })) else f j))

abbrev pub Reads : Option Worker → Option (Result Worker) → Type 0
Reads none entry = entry ≡ none
Reads (some u) entry = entry ≡ some (ok u)

pub record IsLawful (workers : WorkerRepository World) (queue : QueueBackend World)
    (view : World → Workers) : Type 0 where
  pub view-tick : (w : World) → Same (view w) (view (tick w))
  pub view-id : (w : World) (id : ℕ) (u : Worker) → view w id ≡ some (ok u) → u.id ≡ id
  pub save-Sets :
      (u : Worker) (w : World)
      → Post (λ _ v. Sets u (view w) (view v)) (λ v. Same (view w) (view v)) (workers.save u w)
  pub get_by_id-Reads :
      (id : ℕ) (w : World)
      → Post
          (λ o v. Reads o (view w id) × Same (view w) (view v))
          (λ v. Same (view w) (view v))
          (workers.get_by_id id w)
  pub set_worker_heartbeat-Same :
      (key : String) (metadata : Metadata) (w : World)
      → Post
          (λ _ v. Same (view w) (view v))
          (λ v. Same (view w) (view v))
          (queue.set_worker_heartbeat key metadata w)
