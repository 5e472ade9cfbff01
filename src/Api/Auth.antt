-- ===== src/Api/Auth.antt =====
-- src/atlasqueue/api/middleware/auth.py
pub mod Granted
use Prim.Native.String.{◌++◌, len, count}
use atlas_queue.Prelude.{
  ℕ, ◌+◌, ◌*◌, String, str_eq, Bool, ◌&&◌, ◌==◌, Option, none, some, List, [], ◌∷◌, any, keep,
  if◌then◌else◌,
}
use atlas_queue.Prelude.Text.{truthy}
use atlas_queue.Domain.Exceptions.{
  Result, ok, err, ◌>>=◌, authentication_error, authorization_error, type_error,
}
use atlas_queue.Domain.Task.{Instant, seconds}
use atlas_queue.Persistence.Models.{UserModel, Db}
use atlas_queue.Persistence.Tasks.{one_or_none}
use atlas_queue.Runtime.Exec as Exec
use atlas_queue.Runtime.Exec.{Exec, pure, raise}
use atlas_queue.Runtime.World.{Env, World, now, uuid4, db_call}

pub data UserRole : Type 0 where
  admin user worker : UserRole

unfoldable pub role_value : UserRole → String
role_value admin = "admin"
role_value user = "user"
role_value worker = "worker"

pub record AuthContext : Type 0 where
  pub subject : String
  pub role : String
  pub auth_type : String

-- the claims of a token that the code reads, as texts
pub record Claims : Type 0 where
  pub sub : Option String
  pub role : Option String

-- PyJWT with the secret and the algorithm of the settings, and bcrypt. `decode` answers `none`
-- where it raises a `PyJWTError` at that instant, as for a token that has expired.
pub record Crypto : Type 0 where
  pub encode : (subject role : String) → (expires : Instant) → String
  pub decode : (now : Instant) → String → Option Claims
  pub hashpw : String → String
  pub checkpw : (password hash : String) → Bool

pub record AuthSettings : Type 0 where
  pub api_key : String
  pub jwt_expire_minutes : ℕ
  pub admin_username : String
  pub admin_password : String

-- as many bytes as characters
abbrev pub is_ascii : String → Bool
is_ascii s = len s == count s

-- `secrets.compare_digest`, which compares texts of ASCII characters only
unfoldable pub compare_digest : String → String → Result Bool
compare_digest a b =
    if is_ascii a && is_ascii b
    then ok (str_eq a b)
    else err (type_error "comparing strings with non-ASCII characters is not supported")

module _ (crypto : Crypto) where
  -- `if not subject or not role: raise`
  abbrev pub context_for : Option String → Option String → Result AuthContext
  context_for (some subject) (some role) =
      if truthy (some subject) && truthy (some role)
      then ok (record { subject = subject; role = role; auth_type = "jwt" })
      else err (authentication_error "Invalid token payload")
  context_for _ _ = err (authentication_error "Invalid token payload")

  abbrev pub context_of : Option Claims → Result AuthContext
  context_of none = err (authentication_error "Invalid or expired token")
  context_of (some payload) = context_for payload.sub payload.role

  unfoldable pub decode_access_token : (at : Instant) → String → Result AuthContext
  decode_access_token at token = context_of (crypto.decode at token)

  unfoldable pub create_access_token :
      AuthSettings → (subject role : String) → (now : Instant) → String
  create_access_token settings subject role now =
      crypto.encode subject role (now + seconds (settings.jwt_expire_minutes * 60))

  -- `api_key and secrets.compare_digest(api_key, settings.api_key)`
  unfoldable pub key_matches : AuthSettings → Option String → Result Bool
  key_matches settings none = ok Bool.false
  key_matches settings (some key) =
      if truthy (some key) then compare_digest key settings.api_key else ok Bool.false

  unfoldable pub resolve_key : AuthSettings → Option String → Result AuthContext
  unfolding key_matches compare_digest
  resolve_key settings api_key = do
    same ← key_matches settings api_key
    if same
        then ok (record { subject = "api-key"; role = role_value admin; auth_type = "api_key" })
        else err (authentication_error "Invalid or missing credentials")

  -- `bearer` is the text of its credentials
  unfoldable pub resolve_auth :
      (at : Instant) → AuthSettings → (api_key bearer : Option String) → Result AuthContext
  unfolding decode_access_token resolve_key
  resolve_auth at settings api_key none = resolve_key settings api_key
  resolve_auth at settings api_key (some token) =
      if truthy (some token) then decode_access_token at token else resolve_key settings api_key

  -- the dependency `require_role(*roles)`
  unfoldable pub require_role :
      (at : Instant)
      → AuthSettings
      → (roles : List String) (api_key bearer : Option String) → Result String
  unfolding resolve_auth
  require_role at settings roles api_key bearer = do
    auth ← resolve_auth at settings api_key bearer
    if any (str_eq auth.role) roles
        then ok auth.subject
        else err (
            authorization_error ("Role '" ++ auth.role ++ "' is not authorized for this operation"))

  unfoldable pub verify_api_key_or_jwt :
      (at : Instant) → AuthSettings → (api_key bearer : Option String) → Result String
  unfolding resolve_auth
  verify_api_key_or_jwt at settings api_key bearer = do
    auth ← resolve_auth at settings api_key bearer
    ok auth.subject

  unfoldable pub verify_api_key : AuthSettings → (api_key : Option String) → Result String
  verify_api_key settings none = err (authentication_error "Invalid or missing API key")
  verify_api_key settings (some key) =
      if truthy (some key)
      then (do
        same ← compare_digest key settings.api_key
        if same then ok key else err (authentication_error "Invalid or missing API key"))
      else err (authentication_error "Invalid or missing API key")

  unfoldable pub hash_password : String → String
  hash_password password = crypto.hashpw password

  unfoldable pub verify_password : (password hash : String) → Bool
  verify_password password hash = crypto.checkpw password hash

  -- `select(UserModel).where(UserModel.username == username)`
  unfoldable pub users_named : String → Db → Result (Option UserModel)
  users_named username db = one_or_none (keep (λ u. str_eq u.username username) db.users)

  unfoldable pub check_user : String → Option UserModel → Option AuthContext
  unfolding verify_password
  check_user password none = none
  check_user password (some u) =
      if verify_password password u.password_hash
      then some (record { subject = u.username; role = u.role; auth_type = "jwt" })
      else none

  unfoldable pub authenticate_user :
      Env → (username password : String) → Exec World (Option AuthContext)
  unfolding users_named check_user
  authenticate_user env username password =
      Exec.◌>>=◌ (db_call env (λ db. (users_named username db, db)))
        (λ found. pure (check_user password found))
