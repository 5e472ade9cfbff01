-- ===== src/Runtime/World/Calls.antt =====
-- Rules for the calls to Postgres and Redis, which hold however a call ends.
use atlas_queue.Domain.Exceptions.{Result}
use atlas_queue.Domain.Task.{Instant}
use atlas_queue.Persistence.Models.{Db}
use atlas_queue.Redis.State.{Redis, expire_keys}
use atlas_queue.Runtime.Exec.Ensures.{Post, Ensures}
use atlas_queue.Runtime.World.{
  Env, World, Fault, served, lost_request, lost_reply, tick, serve_db, db_call, serve_redis,
  redis_call, redis_do,
}

-- the answer of a statement, and the world that it leaves
abbrev pub answered : {A : Type 0} → (Db → Result A × Db) → World → Result A × World
answered f w = let (a, d) = f w.db in (a, record (tick w) { db = d })

module _ {A : Type 0} (Q : A → World → Type 0) (E : World → Type 0) where
  serve_db-Post :
      (x : Fault) (f : Db → Result A × Db) (w : World)
      → Post Q E (serve_db served f w)
      → E w
      → Post Q E (serve_db x f w)
  serve_db-Post served f w q e = q
  serve_db-Post (lost_request m) f w q e = e
  serve_db-Post (lost_reply m) f w q e = e

  serve_redis-Post :
      (x : Fault) (f : Redis → A × Redis) (w : World)
      → (let (a, r) = f w.redis in Q a (record w { redis = r }) × E (record w { redis = r }))
      → E w
      → Post Q E (serve_redis x f w)
  serve_redis-Post served f w q e = q.0
  serve_redis-Post (lost_request m) f w q e = e
  serve_redis-Post (lost_reply m) f w q e = q.1

module _ {A : Type 0} {P : World → Type 0} {Q : A → World → Type 0} {E : World → Type 0} where
  pub Ensures-db_call :
      (env : Env) (f : Db → Result A × Db)
      → ((w : World) → P w → Post Q E (answered f w))
      → ((w : World) → P w → E (tick w))
      → Ensures P (db_call env f) Q E
  unfolding db_call
  Ensures-db_call env f q e = record {
    at = λ w h. serve_db-Post Q E (env.fault w.calls) f (tick w) (q w h) (e w h);
  }

  -- with the server's clock that the call reads
  pub Ensures-redis_at :
      (env : Env) (f : Instant → Redis → A × Redis)
      → ((w : World)
          → P w
          → let (a, r) = f (env.now w.calls) (expire_keys (env.now w.calls) w.redis) in
            Q a (record (tick w) { redis = r }) × E (record (tick w) { redis = r }))
      → ((w : World) → P w → E (tick w))
      → Ensures P (redis_call env f) Q E
  unfolding redis_call
  Ensures-redis_at env f q e = record {
    at = λ w h. serve_redis-Post Q E (env.fault w.calls) _ (tick w) (q w h) (e w h);
  }

  -- a command that is served may still raise
  pub Ensures-redis_call :
      (env : Env) (f : Instant → Redis → A × Redis)
      → ((w : World) (at : Instant)
          → P w
          → let (a, r) = f at (expire_keys at w.redis) in
            Q a (record (tick w) { redis = r }) × E (record (tick w) { redis = r }))
      → ((w : World) → P w → E (tick w))
      → Ensures P (redis_call env f) Q E
  Ensures-redis_call env f q e = Ensures-redis_at env f (λ w h. q w (env.now w.calls) h) e

pub Ensures-redis_do :
    {P E : World → Type 0} {Q : World → Type 0} (env : Env) (f : Instant → Redis → Redis)
    → ((w : World) (at : Instant)
        → P w
        → let v = record (tick w) { redis = f at (expire_keys at w.redis) } in Q v × E v)
    → ((w : World) → P w → E (tick w))
    → Ensures P (redis_do env f) (λ _. Q) E
unfolding redis_do
Ensures-redis_do env f q e = Ensures-redis_call env (λ at r. (tt, f at r)) q e
