-- ===== src/Domain/Worker.antt =====
-- src/atlasqueue/domain/entities/worker.py
use atlas_queue.Prelude.{ℕ, String, List}
use atlas_queue.Domain.Enums.{WorkerStatus, active}
use atlas_queue.Domain.Task.{Instant}

-- `metadata: dict[str, str]`
abbrev pub Metadata : Type 0
Metadata = List (String × String)

pub record Worker : Type 0 where
  pub id : ℕ
  pub hostname : String
  pub status : WorkerStatus
  pub registered_at : Instant
  pub last_seen_at : Instant
  pub metadata : Metadata

-- `Worker.create`, at the instant and with the UUID that it draws; `metadata or {}` is the argument
unfoldable pub create : (now : Instant) (uuid : ℕ) (hostname : String) → Metadata → Worker
create now uuid hostname metadata = record {
  id = uuid;
  hostname = hostname;
  status = active;
  registered_at = now;
  last_seen_at = now;
  metadata = metadata;
}

-- `Worker.heartbeat`
unfoldable pub heartbeat : (now : Instant) → Worker → Worker
heartbeat now w = record w { last_seen_at = now; status = active }
