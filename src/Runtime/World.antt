-- ===== src/Runtime/World.antt =====
-- The world of a run, the environment that answers its calls, and the calls.
pub mod Calls
pub mod Served
use atlas_queue.Prelude.{ℕ, suc, String, Bool, Option, List, ◌∷◌, [], ◌++◌}
use atlas_queue.Domain.Exceptions.{Result, ok, err, external_error}
use atlas_queue.Domain.Backoff.{FloatOps}
use atlas_queue.Domain.Task.{Instant, Fields}
use atlas_queue.Persistence.Models.{Db}
use atlas_queue.Redis.State.{Redis, Leader, expire_keys}
use atlas_queue.Runtime.Exec.{Exec}

-- How a call to Redis or Postgres ends: it is served; or it raises, before the server has acted
-- on it or after.
pub data Fault : Type 0 where
  served : Fault
  lost_request : String → Fault
  lost_reply : String → Fault

-- What the `n`-th call of a run to the outside answers. Nothing is assumed of it: clocks may step
-- back, and any call may fail.
pub record Env : Type 0 where
  pub now : ℕ → Instant
  pub uuid4 : ℕ → ℕ
  pub fault : ℕ → Fault
  -- what other processes make of the lock of the scheduler, where a command waits for the next
  pub meanwhile : ℕ → Option Leader → Option Leader
  pub floats : FloatOps
  -- `len(str(payload).encode())`
  pub payload_size : Fields → ℕ
  -- Postgres: `column ILIKE pattern`, and `<=` of its collation
  pub ilike : (column pattern : String) → Bool
  pub collate_le : String → String → Bool

-- the metrics of infrastructure/observability/metrics.py that the modelled code writes, in order
pub data Metric : Type 0 where
  tasks_submitted : (task_name executor_type : String) → Metric
  tasks_completed : (task_name status : String) → Metric
  task_duration : (task_name : String) → Metric
  tasks_cancelled tasks_retried : Metric
  scheduler_ticks : Metric
  scheduler_released : (count : ℕ) → Metric
  queue_depth : (queue : String) → (depth : ℕ) → Metric
  workers_active : (count : ℕ) → Metric
  dlq_depth : (depth : ℕ) → Metric
  http_requests : (method endpoint status_code : String) → Metric
  http_latency : (method endpoint : String) → Metric

-- the fields of shared/config.py that the modelled code reads
pub record Settings : Type 0 where
  pub max_payload_bytes : ℕ
  pub priority_levels : ℕ
  pub scheduler_batch_size : ℕ
  pub scheduler_lock_ttl : ℕ
  pub worker_heartbeat_interval : ℕ
  pub block_private_webhook_urls : Bool

pub record World : Type 0 where
  pub db : Db
  pub redis : Redis
  pub metrics : List Metric
  pub calls : ℕ

abbrev pub tick : World → World
tick w = record w { calls = suc w.calls }

-- the time between two commands, in which the lock of the scheduler may change hands
unfoldable pub elapse : Env → Exec World Unit
elapse env w =
    (ok tt, record w { redis = record w.redis { leader = env.meanwhile w.calls w.redis.leader } })

unfoldable pub emit : Metric → Exec World Unit
emit m w = (ok tt, record w { metrics = w.metrics ++ m ∷ [] })

module _ (env : Env) where
  -- `datetime.now(UTC)`
  unfoldable pub now : Exec World Instant
  now w = (ok (env.now w.calls), tick w)

  unfoldable pub uuid4 : Exec World ℕ
  uuid4 w = (ok (env.uuid4 w.calls), tick w)

module _ {A : Type 0} where
  abbrev pub serve_redis : Fault → (Redis → A × Redis) → World → Result A × World
  serve_redis served f w = let (a, r) = f w.redis in (ok a, record w { redis = r })
  serve_redis (lost_request m) f w = (err (external_error m), w)
  serve_redis (lost_reply m) f w =
      let (a, r) = f w.redis in (err (external_error m), record w { redis = r })

  -- one Redis command, as a function of the server's clock
  unfoldable pub redis_call : Env → (Instant → Redis → A × Redis) → Exec World A
  redis_call env f w =
      let at = env.now w.calls in
      serve_redis (env.fault w.calls) (λ r. f at (expire_keys at r)) (tick w)

  abbrev pub serve_db : Fault → (Db → Result A × Db) → World → Result A × World
  serve_db served f w = let (a, d) = f w.db in (a, record w { db = d })
  serve_db (lost_request m) f w = (err (external_error m), w)
  serve_db (lost_reply m) f w = (err (external_error m), w)

  -- one statement in the open transaction; a failed one has no effect there
  unfoldable pub db_call : Env → (Db → Result A × Db) → Exec World A
  db_call env f w = serve_db (env.fault w.calls) f (tick w)

-- a Redis command that answers nothing the caller reads
unfoldable pub redis_do : Env → (Instant → Redis → Redis) → Exec World Unit
unfolding redis_call
redis_do env f = redis_call env (λ at r. (tt, f at r))
