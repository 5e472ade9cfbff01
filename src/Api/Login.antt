-- ===== src/Api/Login.antt =====
-- `login` of src/atlasqueue/api/routes/auth.py, with `ensure_default_admin`.
pub mod Accepted
use atlas_queue.Prelude.{String, Option, none, some, [], ◌∷◌, ◌++◌}
use atlas_queue.Domain.Exceptions.{ok, authentication_error}
use atlas_queue.Persistence.Models.{UserModel}
use atlas_queue.Runtime.Exec.{Exec, ◌>>=◌, ◌>>◌, pure, raise}
use atlas_queue.Runtime.World.{Env, World, now, uuid4, db_call}
use atlas_queue.Runtime.Session.{session}
use atlas_queue.Api.Auth.{
  AuthContext, AuthSettings, Crypto, UserRole, role_value, users_named, authenticate_user,
  create_access_token, hash_password,
}

pub record TokenResponse : Type 0 where
  pub access_token : String
  pub role : String

module _ (crypto : Crypto) (settings : AuthSettings) (env : Env) where
  -- the INSERT of the default admin, where no user has the name
  unfoldable pub add_admin : Option UserModel → Exec World Unit
  unfolding hash_password
  add_admin (some u) = pure tt
  add_admin none = do
    id ← uuid4 env
    created_at ← now env
    let row : UserModel = record {
      id = id;
      username = settings.admin_username;
      password_hash = hash_password crypto settings.admin_password;
      role = role_value UserRole.admin;
      created_at = created_at;
    }
    db_call env (λ db. (ok tt, record db { users = db.users ++ row ∷ [] }))

  unfoldable pub ensure_default_admin : Exec World Unit
  unfolding add_admin
  ensure_default_admin = do
    found ← db_call env (λ db. (users_named crypto settings.admin_username db, db))
    add_admin found

  unfoldable pub issue_token : Option AuthContext → Exec World TokenResponse
  issue_token none = raise (authentication_error "Invalid username or password")
  issue_token (some auth) = do
    at ← now env
    pure (record {
      access_token = create_access_token crypto settings auth.subject auth.role at;
      role = auth.role;
    })

  unfoldable pub login : (username password : String) → Exec World TokenResponse
  unfolding ensure_default_admin issue_token
  login username password = session env (do
    ensure_default_admin
    auth ← authenticate_user crypto env username password
    issue_token auth)
