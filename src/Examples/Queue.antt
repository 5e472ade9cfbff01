-- ===== src/Examples/Queue.antt =====
-- The queues in Redis at concrete inputs.
use atlas_queue.Prelude.{
  ◌≤◌, ◌≡◌, refl, true, false, ◌&&◌, none, some, List, [], ◌∷◌, any, length, leb, ◌==◌,
}
use atlas_queue.Prelude.Int.{pos}
use atlas_queue.Domain.Task.{TaskId, Instant}
use atlas_queue.Redis.State.{Redis, empty_redis, push_ready}
use atlas_queue.Redis.Queue.{brpop, due, remove_all, ready_keys}
use atlas_queue.Redis.Queue.Claim.{entry_of, claim_lem}
use atlas_queue.Runtime.World.{Settings}

abbrev pub settings : Settings
settings = record {
  max_payload_bytes = 1048576;
  priority_levels = 4;
  scheduler_batch_size = 100;
  scheduler_lock_ttl = 30;
  worker_heartbeat_interval = 10;
  block_private_webhook_urls = true;
}

abbrev two_lists : Redis
two_lists = record empty_redis {
  ready = push_ready (pos 1) 8 (push_ready (pos 1) 7 (push_ready (pos 2) 9 (λ p. [])));
}

pop_first : (brpop (ready_keys settings) two_lists).0 ≡ some 7
unfolding brpop ready_keys
pop_first = refl

abbrev waiting : List (Instant × TaskId)
waiting = (3, 7) ∷ (5, 8) ∷ (9, 6) ∷ []

claim_lem_example :
    let ids = due 5 100 waiting in
    let z' = remove_all ids waiting in
    (length ids ≤ 100)
    × ((t : TaskId)
        → any (λ u. u == t) ids ≡ true
        → (any (λ e. e.1 == t && leb e.0 5) waiting ≡ true) × (entry_of t z' ≡ none))
    × ((t : TaskId) → any (λ u. u == t) ids ≡ false → entry_of t z' ≡ entry_of t waiting)
claim_lem_example = claim_lem 5 100 waiting
