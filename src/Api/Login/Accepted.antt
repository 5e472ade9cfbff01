-- ===== src/Api/Login/Accepted.antt =====
-- What the token of a login is good for.
use atlas_queue.Prelude.{ℕ, ◌+◌, ◌*◌, ◌≡◌, String, str_eq, Bool, Option, none, some}
use atlas_queue.Domain.Task.{Instant, seconds}
use atlas_queue.Persistence.Models.{UserModel}
use atlas_queue.Runtime.Exec.{Exec}
use atlas_queue.Runtime.Exec.Ensures.{Ensures}
use atlas_queue.Runtime.World.{Env, World, now}
use atlas_queue.Api.Auth.{AuthContext, AuthSettings, Crypto, create_access_token}
use atlas_queue.Api.Login.{TokenResponse}

module _ (username : String) where
  abbrev named : UserModel → Bool
  named u = str_eq u.username username

  abbrev Named : Option UserModel → Type 0
  Named none = Unit
  Named (some u) = u.username ≡ username

  abbrev Subject : Option AuthContext → Type 0
  Subject none = Unit
  Subject (some c) = c.subject ≡ username

module _ (crypto : Crypto) (settings : AuthSettings) (env : Env) (username password : String) where
  -- the token was made for the user and the role that is answered
  abbrev MadeFor : TokenResponse → Type 0
  MadeFor t =
      (n : ℕ) × (t.access_token ≡ create_access_token crypto settings username t.role (env.now n))

-- when a token expires that is made at the instant of the `n`-th call
abbrev pub expiry : AuthSettings → Env → ℕ → Instant
expiry settings env n = env.now n + seconds (settings.jwt_expire_minutes * 60)
