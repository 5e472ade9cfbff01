-- ===== src/Examples/Api.antt =====
-- Credentials, tokens and locks at concrete inputs.
use atlas_queue.Prelude.{◌≡◌, str_eq, refl, true, false, none, some, [], ◌∷◌, any, arith}
use atlas_queue.Prelude.{◌&&◌, ltb, if◌then◌else◌, ◌==◌}
use atlas_queue.Domain.Exceptions.{ok, err, type_error}
use atlas_queue.Redis.State.{empty_redis, expire_keys}
use atlas_queue.Redis.Leader.{acquire, renew, release}
use atlas_queue.Redis.Leader.Owned.{Acquired, Renewed, Released, owner_lem}
use atlas_queue.Redis.Leader.Exclusive.{HeldBy, lock_of, follower_lem}
use atlas_queue.Runtime.Exec.Ensures.{Post}
use atlas_queue.Runtime.World.{Env, World, redis_call, redis_do, elapse}
use atlas_queue.Api.Auth.{Crypto, AuthSettings, AuthContext, require_role, resolve_auth}
use atlas_queue.Api.Login.{TokenResponse}
use atlas_queue.Runtime.Exec.{◌>>=◌, pure}
use atlas_queue.Api.Auth.Granted.{Resolved, require_role-Resolved}
use atlas_queue.Examples.Services.{calm, one_queued}

abbrev pub crypto : Crypto
crypto = record {
  encode = λ s r e. s;
  decode = λ at t. some (record { sub = some t; role = some "user" });
  hashpw = λ p. p;
  checkpw = str_eq;
}

abbrev pub auth_settings : AuthSettings
auth_settings = record {
  api_key = "dev-api-key";
  jwt_expire_minutes = 60;
  admin_username = "admin";
  admin_password = "admin-change-me";
}

granted : require_role crypto 0 auth_settings ("admin" ∷ "user" ∷ []) none (some "ann") ≡ ok "ann"
unfolding require_role
granted = refl

require_role-Resolved_example :
    (c : AuthContext) × Resolved crypto 0 auth_settings none (some "ann") c
    × (any (str_eq c.role) ("admin" ∷ "user" ∷ []) ≡ true)
    × (c.subject ≡ "ann")
require_role-Resolved_example =
    require_role-Resolved crypto 0 auth_settings ("admin" ∷ "user" ∷ []) none (some "ann") "ann"
      granted

-- a scheme with one token that is any good, until it expires
abbrev one_token : Crypto
one_token = record {
  encode = λ s r e. if e == 3600000020 then "token" else "stale";
  decode = λ at t.
      if str_eq t "token" && ltb at 3600000020
      then some (record { sub = some "admin"; role = some "admin" })
      else none;
  hashpw = λ p. p;
  checkpw = str_eq;
}

abbrev response : TokenResponse
response = record { access_token = "token"; role = "admin" }

abbrev led : World
led = record one_queued { redis = record empty_redis { leader = some (lock_of "a" 30) } }

owner_lem_example :
    Post (Acquired "a" 30 led.redis) (λ _. Unit) (acquire calm "a" 30 led)
    × Post (Renewed calm "a" 30 led.redis) (λ _. Unit) (renew calm "a" 30 led)
    × Post (λ _. Released "a" led.redis) (λ _. Unit) (release calm "a" led)
owner_lem_example = owner_lem calm "a" 30 led

follower_lem_example :
    Post (λ won v. (won ≡ false) × HeldBy "a" 30 v) (HeldBy "a" 30) (acquire calm "b" 30 led)
    × Post (λ still v. (still ≡ false) × HeldBy "a" 30 v) (HeldBy "a" 30) (renew calm "b" 30 led)
    × Post (λ _. HeldBy "a" 30) (HeldBy "a" 30) (release calm "b" led)
follower_lem_example = follower_lem calm "b" "a" 30 led 30 refl (λ n. omega arith) refl

-- the lock goes from "a" to "b" between the two commands
abbrev handed_over : Env
handed_over = record calm { meanwhile = λ n l. some (lock_of "b" 40) }

overtaken :
    (renew handed_over "a" 30 led).0 ≡ ok true
    × ((renew handed_over "a" 30 led).1.redis.leader ≡ some (lock_of "b" 30000020))
unfolding renew ◌>>=◌ pure redis_call expire_keys elapse redis_do
overtaken = (refl, refl)

-- a key that is not ASCII cannot be compared
accented :
    resolve_auth crypto 0 auth_settings (some "clé") none
    ≡ err (type_error "comparing strings with non-ASCII characters is not supported")
unfolding resolve_auth
accented = refl
