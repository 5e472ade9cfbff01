-- ===== src/Api/Auth/Granted.antt =====
-- Who gets past `require_role`.
use atlas_queue.Prelude.{
  ◌≡◌, refl, String, str_eq, true, false, Option, none, some, List, any, arith, inl, inr,
  if◌then◌else◌, Bool-cases,
}
use atlas_queue.Prelude.Text.{truthy}
use Prim.Native.String.{◌++◌}
use atlas_queue.Domain.Exceptions.{Result, ok, err, authorization_error}
use atlas_queue.Domain.Task.{Instant}
use atlas_queue.Api.Auth.{
  Crypto, Claims, AuthSettings, AuthContext, role_value, key_matches, compare_digest, resolve_key,
  resolve_auth, decode_access_token, require_role, context_of, context_for,
}

-- how a context comes about: from a token that decodes to its subject and role, or, without a
-- token, from the API key, as an admin
pub data Resolved (crypto : Crypto) (at : Instant) (settings : AuthSettings)
    (api_key bearer : Option String) (c : AuthContext) : Type 0 where
  by_token :
      (token : String) (claims : Claims)
      → bearer ≡ some token
      → crypto.decode at token ≡ some claims
      → claims.sub ≡ some c.subject
      → claims.role ≡ some c.role
      → Resolved crypto at settings api_key bearer c
  by_key :
      (key : String)
      → truthy bearer ≡ false
      → api_key ≡ some key
      → str_eq key settings.api_key ≡ true
      → c.role ≡ "admin"
      → Resolved crypto at settings api_key bearer c

module _ (crypto : Crypto) (at : Instant) (settings : AuthSettings) where
  context_for-ok :
      (sub role : Option String) (c : AuthContext)
      → context_for crypto sub role ≡ ok c
      → (sub ≡ some c.subject) × (role ≡ some c.role)
  context_for-ok (some s) (some r) c h = ground arith
  context_for-ok none r c h = cc
  context_for-ok (some s) none c h = cc

  token-Resolved :
      (api_key : Option String) (token : String) (c : AuthContext) (o : Option Claims)
      → crypto.decode at token ≡ o
      → context_of crypto o ≡ ok c
      → Resolved crypto at settings api_key (some token) c
  token-Resolved api_key token c none e h = cc
  token-Resolved api_key token c (some claims) e h =
      let (s, r) = context_for-ok claims.sub claims.role c h in by_token token claims refl e s r

  key_role :
      (key : String) (c : AuthContext)
      → resolve_key crypto settings (some key) ≡ ok c
      → (str_eq key settings.api_key ≡ true) × (c.role ≡ "admin")
  unfolding resolve_key key_matches compare_digest role_value
  key_role key c h = ground arith

  key-Resolved :
      (api_key bearer : Option String) (c : AuthContext)
      → truthy bearer ≡ false
      → resolve_key crypto settings api_key ≡ ok c
      → Resolved crypto at settings api_key bearer c
  unfolding resolve_key key_matches compare_digest role_value
  key-Resolved none bearer c t h = cc
  key-Resolved (some key) bearer c t h =
      let (same, role) = key_role key c h in by_key key t refl same role

  resolve_auth-Resolved :
      (api_key bearer : Option String) (c : AuthContext)
      → resolve_auth crypto at settings api_key bearer ≡ ok c
      → Resolved crypto at settings api_key bearer c
  unfolding resolve_auth decode_access_token
  resolve_auth-Resolved api_key none c h = key-Resolved api_key none c refl h
  resolve_auth-Resolved api_key (some token) c h = elim (Bool-cases (truthy (some token))) [
    | inl given ↦ token-Resolved api_key token c _ refl (rw given at h)
    | inr empty ↦ key-Resolved api_key (some token) c empty (rw empty at h)
  ]

-- `require_role` lets through only the subject of a context that has one of its roles, and that
-- context comes from a token that decodes to it then, or, when no token is given, from the API key of
-- the settings, as an admin.
pub require_role-Resolved :
    (crypto : Crypto) (at : Instant) (settings : AuthSettings) (roles : List String)
    (api_key bearer : Option String) (subject : String)
    → require_role crypto at settings roles api_key bearer ≡ ok subject
    → (c : AuthContext) × Resolved crypto at settings api_key bearer c
      × (any (str_eq c.role) roles ≡ true)
      × (c.subject ≡ subject)
unfolding require_role
require_role-Resolved crypto at settings roles api_key bearer subject h = go _ refl h
  where
    go :
        (r : Result AuthContext)
        → resolve_auth crypto at settings api_key bearer ≡ r
        → require_role crypto at settings roles api_key bearer ≡ ok subject
        → (c : AuthContext) × Resolved crypto at settings api_key bearer c
          × (any (str_eq c.role) roles ≡ true)
          × (c.subject ≡ subject)
    go (err x) e h = cc
    go (ok c) e h =
        let (role, same) = granted c (rw e at h) in
        (c, resolve_auth-Resolved crypto at settings api_key bearer c e, role, same)
      where
        granted :
            (c : AuthContext)
            → (if any (str_eq c.role) roles
                then ok c.subject
                else err (
                    authorization_error
                      ("Role '" ++ c.role ++ "' is not authorized for this operation")))
              ≡ ok subject
            → (any (str_eq c.role) roles ≡ true) × (c.subject ≡ subject)
        granted c h = ground arith
