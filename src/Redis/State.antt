-- ===== src/Redis/State.antt =====
-- The keys that src/atlasqueue/infrastructure/redis/queue_backend.py uses, and the Redis commands
-- that it calls on them. A task id stands for its text, which `str` and `UUID` turn into each other.
use atlas_queue.Prelude.{
  String, str_eq, Bool, true, not, ◌&&◌, ◌||◌, Option, none, some, List, [], ◌∷◌, ◌++◌, ◌==◌, ltb,
  any, keep, if◌then◌else◌,
}
use atlas_queue.Prelude.Int.{ℤ, eqb_ℤ}
use atlas_queue.Domain.Task.{TaskId, Instant}
use atlas_queue.Domain.Worker.{Metadata}

-- the hash `queue:inflight:<task_id>`
pub record Inflight : Type 0 where
  pub task_id : TaskId
  pub worker_id : String
  pub started_at : Instant
  pub expires_at : Option Instant

-- the hash `workers:<worker_id>`
pub record Heartbeat : Type 0 where
  pub worker_id : String
  pub last_seen : Instant
  pub metadata : Metadata
  pub expires_at : Option Instant

-- the string `lock:scheduler`
pub record Leader : Type 0 where
  pub owner : String
  pub expires_at : Option Instant

-- `ready p` is the list `queue:ready:<p>`, its left end first; `scheduled` is the sorted set
-- `queue:scheduled` by score and then member; `cancelled` is the set `cancel:pending`.
pub record Redis : Type 0 where
  pub ready : ℤ → List TaskId
  pub scheduled : List (Instant × TaskId)
  pub inflight : List Inflight
  pub dlq : List TaskId
  pub cancelled : List TaskId
  pub workers : List Heartbeat
  pub leader : Option Leader

abbrev pub empty_redis : Redis
empty_redis = record {
  ready = λ p. [];
  scheduled = [];
  inflight = [];
  dlq = [];
  cancelled = [];
  workers = [];
  leader = none;
}

-- a key with a time to live is gone from that instant on
abbrev pub is_live : Instant → Option Instant → Bool
is_live now none = true
is_live now (some t) = ltb now t

abbrev live_leader : Instant → Option Leader → Option Leader
live_leader now none = none
live_leader now (some l) = if is_live now l.expires_at then some l else none

-- Redis drops what has expired before it serves a command
unfoldable pub expire_keys : Instant → Redis → Redis
expire_keys now r = record r {
  inflight = keep (λ e. is_live now e.expires_at) r.inflight;
  workers = keep (λ e. is_live now e.expires_at) r.workers;
  leader = live_leader now r.leader;
}

-- LPUSH to a ready list
abbrev pub push_ready : ℤ → TaskId → (ℤ → List TaskId) → ℤ → List TaskId
push_ready p t ready q = if eqb_ℤ p q then t ∷ ready q else ready q

-- what RPOP leaves, and what it takes
abbrev pub init_list : List TaskId → List TaskId
init_list [] = []
init_list (x ∷ []) = []
init_list (x ∷ y ∷ xs) = x ∷ init_list (y ∷ xs)

abbrev pub last_elem : List TaskId → Option TaskId
last_elem [] = none
last_elem (x ∷ []) = some x
last_elem (x ∷ y ∷ xs) = last_elem (y ∷ xs)

abbrev before : Instant × TaskId → Instant × TaskId → Bool
before (s, a) (t, b) = ltb s t || (s == t && ltb a b)

insert_scored : Instant × TaskId → List (Instant × TaskId) → List (Instant × TaskId)
insert_scored e [] = e ∷ []
insert_scored e (x ∷ xs) = if before e x then e ∷ x ∷ xs else x ∷ insert_scored e xs

-- ZREM
unfoldable pub zrem : TaskId → List (Instant × TaskId) → List (Instant × TaskId)
zrem t = keep (λ e. not (e.1 == t))

-- ZADD: a member that is there takes the new score
unfoldable pub zadd : Instant → TaskId → List (Instant × TaskId) → List (Instant × TaskId)
unfolding insert_scored zrem
zadd score t z = insert_scored (score, t) (zrem t z)

-- SADD, SREM and SISMEMBER on the set of cancelled tasks
unfoldable pub sadd : TaskId → List TaskId → List TaskId
sadd t s = if any (λ u. u == t) s then s else s ++ t ∷ []

unfoldable pub srem : TaskId → List TaskId → List TaskId
srem t = keep (λ u. not (u == t))

unfoldable pub sismember : TaskId → List TaskId → Bool
sismember t s = any (λ u. u == t) s

-- HSET and EXPIRE on the hash of an inflight task, and DEL
unfoldable pub hset_inflight : TaskId → String → Instant → List Inflight → List Inflight
hset_inflight t worker now [] =
    record { task_id = t; worker_id = worker; started_at = now; expires_at = none } ∷ []
hset_inflight t worker now (e ∷ es) =
    if e.task_id == t
    then record e { worker_id = worker; started_at = now } ∷ es
    else e ∷ hset_inflight t worker now es

unfoldable pub expire_inflight : TaskId → Instant → List Inflight → List Inflight
expire_inflight t at [] = []
expire_inflight t at (e ∷ es) =
    (if e.task_id == t then record e { expires_at = some at } else e) ∷ expire_inflight t at es

unfoldable pub del_inflight : TaskId → List Inflight → List Inflight
del_inflight t = keep (λ e. not (e.task_id == t))

-- HSET and EXPIRE on the hash of a worker
unfoldable pub hset_worker : String → Instant → Metadata → List Heartbeat → List Heartbeat
hset_worker w now m [] =
    record { worker_id = w; last_seen = now; metadata = m; expires_at = none } ∷ []
hset_worker w now m (e ∷ es) =
    if str_eq e.worker_id w
    then record e { last_seen = now; metadata = m } ∷ es
    else e ∷ hset_worker w now m es

unfoldable pub expire_worker : String → Instant → List Heartbeat → List Heartbeat
expire_worker w at [] = []
expire_worker w at (e ∷ es) =
    (if str_eq e.worker_id w then record e { expires_at = some at } else e) ∷ expire_worker w at es
