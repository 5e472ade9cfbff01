-- ===== src/Services/WorkerRegistry.antt =====
-- `WorkerRegistry` of src/atlasqueue/application/services/queue_manager.py, over its ports. A worker
-- id is handed about as the text of its UUID, and stands here as the UUID.
pub mod Rows
pub mod Entries
pub mod Kept
use atlas_queue.Prelude.{ℕ, String, Option, none, some, [], ◌∷◌}
use atlas_queue.Prelude.Text.{show_uuid}
use atlas_queue.Domain.Ports.{WorkerRepository, QueueBackend}
use atlas_queue.Domain.Worker.{Worker, Metadata, create, heartbeat}
use atlas_queue.Runtime.Exec.{Exec, ◌>>=◌, ◌>>◌, pure}
use atlas_queue.Runtime.World.{Env, World, now, uuid4}

module _ (env : Env) (workers : WorkerRepository World) (queue : QueueBackend World) where
  unfoldable pub register : String → Metadata → Exec World Worker
  register hostname metadata = do
    at ← now env
    id ← uuid4 env
    let worker = create at id hostname metadata
    workers.save worker
    queue.set_worker_heartbeat (show_uuid worker.id) (("hostname", hostname) ∷ [])
    pure worker

  -- a worker that has no row only gets its heartbeat in Redis
  unfoldable pub beat_row : Option Worker → Exec World Unit
  beat_row none = pure tt
  beat_row (some w) = do at ← now env; workers.save (heartbeat at w)

  unfoldable pub beat : ℕ → String → Exec World Unit
  unfolding beat_row
  beat worker_id hostname = do
    worker ← workers.get_by_id worker_id
    beat_row worker
    queue.set_worker_heartbeat (show_uuid worker_id) (("hostname", hostname) ∷ [])
