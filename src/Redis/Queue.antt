-- ===== src/Redis/Queue.antt =====
-- `RedisQueueBackend` of src/atlasqueue/infrastructure/redis/queue_backend.py.
pub mod Claim
pub mod Fifo
use Prim.Native.String.{◌++◌ as cat}
use atlas_queue.Prelude.{
  ℕ, zero, suc, ◌+◌, ◌*◌, min, String, Bool, true, false, Option, none, some, List, [], ◌∷◌, ◌++◌,
  map, take, keep, length, leb, any, not, ◌==◌, if◌then◌else◌,
}
use atlas_queue.Prelude.Int.{ℤ, pos, negsuc, eqb_ℤ}
use atlas_queue.Prelude.Text.{show}
use atlas_queue.Domain.Task.{TaskId, Instant, seconds}
use atlas_queue.Domain.Worker.{Metadata}
use atlas_queue.Redis.State.{
  Redis, Inflight, Heartbeat, push_ready, init_list, last_elem, zadd, zrem, sadd, srem, sismember,
  hset_inflight, expire_inflight, del_inflight, hset_worker, expire_worker,
}
use atlas_queue.Runtime.Exec.{Exec, ◌>>=◌, ◌>>◌, pure}
use atlas_queue.Runtime.World.{Env, Settings, World, redis_call, redis_do, now}

-- `min(priority, priority_levels - 1)`, which is -1 for no levels
unfoldable pub clamp_priority : ℕ → ℕ → ℤ
clamp_priority zero priority = negsuc 0
clamp_priority (suc top) priority = pos (min priority top)

-- `_ready_keys`: the ready lists in the order in which BRPOP looks at them
abbrev range_from : ℕ → ℕ → List ℤ
range_from from zero = []
range_from from (suc n) = pos from ∷ range_from (suc from) n

unfoldable pub ready_keys : Settings → List ℤ
ready_keys settings = range_from 0 settings.priority_levels

-- BRPOP on several lists: the right end of the first that is not empty. With all of them empty it
-- blocks until its timeout, and answers nothing.
unfoldable pub brpop : List ℤ → Redis → Option TaskId × Redis
brpop [] r = (none, r)
brpop (k ∷ ks) r =
    let rest = brpop ks r in
    elim (last_elem (r.ready k)) [
      | none ↦ rest
      | some t ↦
          (some t, record r { ready = λ q. if eqb_ℤ k q then init_list (r.ready q) else r.ready q })
    ]

-- The Lua script: the members with a score up to now, at most `limit` of them, each then removed.
unfoldable pub due : Instant → ℕ → List (Instant × TaskId) → List TaskId
due at limit z = take limit (map (λ e. e.1) (keep (λ e. leb e.0 at) z))

unfoldable pub remove_all : List TaskId → List (Instant × TaskId) → List (Instant × TaskId)
unfolding zrem
remove_all [] z = z
remove_all (t ∷ ts) z = remove_all ts (zrem t z)

module _ (env : Env) where
  unfoldable pub enqueue_ready : Settings → TaskId → ℕ → Exec World Unit
  unfolding clamp_priority
  enqueue_ready settings t priority = redis_do env (λ at r. record r {
    ready = push_ready (clamp_priority settings.priority_levels priority) t r.ready;
  })

  unfoldable pub enqueue_scheduled : TaskId → Instant → Exec World Unit
  enqueue_scheduled t run_at =
      redis_do env (λ at r. record r { scheduled = zadd run_at t r.scheduled })

  unfoldable pub dequeue_ready : Settings → Exec World (Option TaskId)
  unfolding brpop ready_keys
  dequeue_ready settings = redis_call env (λ at r. brpop (ready_keys settings) r)

  unfoldable pub remove_scheduled : TaskId → Exec World Unit
  remove_scheduled t = redis_do env (λ at r. record r { scheduled = zrem t r.scheduled })

  unfoldable pub get_due_scheduled : ℕ → Exec World (List TaskId)
  unfolding due
  get_due_scheduled limit = do at ← now env; redis_call env (λ _ r. (due at limit r.scheduled, r))

  unfoldable pub claim_due_scheduled : ℕ → Exec World (List TaskId)
  unfolding due remove_all
  claim_due_scheduled limit = do
    at ← now env
    redis_call env (λ _ r.
        let ids = due at limit r.scheduled in
        (ids, record r { scheduled = remove_all ids r.scheduled }))

  unfoldable pub mark_inflight : TaskId → String → ℕ → Exec World Unit
  mark_inflight t worker_id ttl_seconds = do
    started_at ← now env
    redis_do env (λ _ r. record r { inflight = hset_inflight t worker_id started_at r.inflight })
    redis_do env
        (λ at r. record r { inflight = expire_inflight t (at + seconds ttl_seconds) r.inflight })

  unfoldable pub clear_inflight : TaskId → Exec World Unit
  clear_inflight t = redis_do env (λ at r. record r { inflight = del_inflight t r.inflight })

  unfoldable pub enqueue_dlq : TaskId → Exec World Unit
  enqueue_dlq t = redis_do env (λ at r. record r { dlq = t ∷ r.dlq })

  unfoldable pub dequeue_dlq : Exec World (Option TaskId)
  dequeue_dlq = redis_call env (λ at r. (last_elem r.dlq, record r { dlq = init_list r.dlq }))

  unfoldable pub mark_cancelled : TaskId → Exec World Unit
  mark_cancelled t = redis_do env (λ at r. record r { cancelled = sadd t r.cancelled })

  unfoldable pub is_cancelled : TaskId → Exec World Bool
  is_cancelled t = redis_call env (λ at r. (sismember t r.cancelled, r))

  unfoldable pub clear_cancelled : TaskId → Exec World Unit
  clear_cancelled t = redis_do env (λ at r. record r { cancelled = srem t r.cancelled })

  -- the loop of `queue_depths` over the priorities, from `from` on
  unfoldable pub ready_depths : ℕ → ℕ → Exec World (List (String × ℕ))
  ready_depths from zero = pure []
  ready_depths from (suc n) = do
    depth ← redis_call env (λ at r. (length (r.ready (pos from)), r))
    depths ← ready_depths (suc from) n
    pure ((cat "ready_" (show from), depth) ∷ depths)

  unfoldable pub queue_depths : Settings → Exec World (List (String × ℕ))
  unfolding ready_depths
  queue_depths settings = do
    depths ← ready_depths 0 settings.priority_levels
    scheduled ← redis_call env (λ at r. (length r.scheduled, r))
    dlq ← redis_call env (λ at r. (length r.dlq, r))
    pure (depths ++ ("scheduled", scheduled) ∷ ("dlq", dlq) ∷ [])

  unfoldable pub set_worker_heartbeat : Settings → String → Metadata → Exec World Unit
  set_worker_heartbeat settings worker_id metadata = do
    last_seen ← now env
    redis_do env (λ _ r. record r { workers = hset_worker worker_id last_seen metadata r.workers })
    redis_do env (λ at r. record r {
      workers =
          expire_worker worker_id (at + seconds (settings.worker_heartbeat_interval * 3)) r.workers;
    })

  -- The scan of the keys is one command here, which answers every key of the kind once.
  unfoldable pub get_active_workers : Exec World (List String)
  get_active_workers = redis_call env (λ at r. (map (λ e. e.worker_id) r.workers, r))

  unfoldable pub get_inflight_task_ids : Exec World (List TaskId)
  get_inflight_task_ids = redis_call env (λ at r. (map (λ e. e.task_id) r.inflight, r))
