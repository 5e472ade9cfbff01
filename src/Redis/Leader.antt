-- ===== src/Redis/Leader.antt =====
-- `RedisLeaderLock` of src/atlasqueue/infrastructure/redis/queue_backend.py. `renew` and `release`
-- send two commands, and other processes may act on the lock between them.
pub mod Exclusive
pub mod Owned
use atlas_queue.Prelude.{
  ℕ, ◌+◌, String, str_eq, Bool, true, false, Option, none, some, if◌then◌else◌,
}
use atlas_queue.Prelude.Text.{truthy}
use atlas_queue.Domain.Task.{Instant, seconds}
use atlas_queue.Redis.State.{Redis, Leader}
use atlas_queue.Runtime.Exec.{Exec, ◌>>=◌, ◌>>◌, pure}
use atlas_queue.Runtime.World.{Env, World, elapse, redis_call, redis_do}

-- SET NX EX: it takes the lock if the key is not there
abbrev pub set_nx : String → Instant → Redis → Option Leader → Bool × Redis
set_nx owner until r none =
    (true, record r { leader = some (record { owner = owner; expires_at = some until }) })
set_nx owner until r (some l) = (false, r)

-- GET
abbrev pub owner_text : Option Leader → Option String
owner_text none = none
owner_text (some l) = some l.owner

-- EXPIRE
abbrev pub expire_leader : Instant → Option Leader → Option Leader
expire_leader until none = none
expire_leader until (some l) = some (record l { expires_at = some until })

module _ (env : Env) (owner_id : String) where
  unfoldable pub acquire : ℕ → Exec World Bool
  acquire ttl_seconds =
      redis_call env (λ at r. set_nx owner_id (at + seconds ttl_seconds) r r.leader)

  abbrev pub renew_owned : ℕ → Option String → Exec World Bool
  renew_owned ttl_seconds none = pure false
  renew_owned ttl_seconds (some owner) =
      if str_eq owner owner_id
      then (do
        elapse env
        redis_do env
            (λ at r. record r { leader = expire_leader (at + seconds ttl_seconds) r.leader })
        pure true)
      else pure false

  unfoldable pub renew : ℕ → Exec World Bool
  renew ttl_seconds = do
    current ← redis_call env (λ at r. (owner_text r.leader, r))
    renew_owned ttl_seconds current

  abbrev pub release_owned : Option String → Exec World Unit
  release_owned none = pure tt
  release_owned (some owner) =
      if truthy (some owner)
      then (if str_eq owner owner_id
          then (do elapse env; redis_do env (λ at r. record r { leader = none }))
          else pure tt)
      else pure tt

  unfoldable pub release : Exec World Unit
  release = do current ← redis_call env (λ at r. (owner_text r.leader, r)); release_owned current
