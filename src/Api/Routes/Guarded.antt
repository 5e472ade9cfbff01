-- ===== src/Api/Routes/Guarded.antt =====
-- What a caller needs to get past the credentials of a route.
use atlas_queue.Prelude.{
  ◌≡◌, refl, String, str_eq, eq_iff, Bool, true, false, ◌&&◌, Option, none, some, List, [], ◌∷◌,
  any, ◌⊎◌, inl, inr, if◌then◌else◌, Bool-cases,
}
use Prim.Native.String.{◌++◌}
use atlas_queue.Prelude.Text.{truthy}
use atlas_queue.Domain.Exceptions.{Exc, Result, ok, err, authorization_error, authentication_error}
use atlas_queue.Domain.Exceptions as Exceptions
use atlas_queue.Runtime.Exec.{Exec, ◌>>=◌, ◌>>◌}
use atlas_queue.Runtime.World.{Env, World}
use atlas_queue.Domain.Task.{Instant}
use atlas_queue.Api.Auth.{
  Crypto, Claims, AuthSettings, AuthContext, is_ascii, compare_digest, key_matches, resolve_key,
  resolve_auth, decode_access_token, require_role, verify_api_key_or_jwt, context_of, context_for,
}
use atlas_queue.Api.Errors.{status_code}
use atlas_queue.Api.Routes.{
  Site, Credentials, Request, answer, check, with_role, with_caller, post_tasks, get_tasks_id,
  get_tasks, post_tasks_cancel, post_tasks_retry, get_tasks_events, post_workers_register,
  get_workers, get_admin_stats, submit_task, get_task, list_tasks_page, cancel_task, retry_task,
  get_events, register_worker, list_all_workers, admin_stats,
}

-- the roles that the routes ask for
abbrev pub Allows : Request → String → Type 0
Allows (post_tasks b) r = (r ≡ "admin") ⊎ (r ≡ "user")
Allows (post_tasks_cancel i) r = (r ≡ "admin") ⊎ (r ≡ "user")
Allows (post_tasks_retry i) r = r ≡ "admin"
Allows (post_workers_register b) r = (r ≡ "admin") ⊎ (r ≡ "worker")
Allows get_admin_stats r = r ≡ "admin"
Allows _ r = Unit

-- what a result is, by how it comes out
abbrev Comes : {A : Type 0} → (A → Type 0) → (Exc → Type 0) → Result A → Type 0
Comes Q E (ok a) = Q a
Comes Q E (err e) = E e

-- an API key that cannot be compared with that of the settings
abbrev pub Incomparable : AuthSettings → Option String → Type 0
Incomparable settings key =
    (k : String) × (key ≡ some k) × ((is_ascii k && is_ascii settings.api_key) ≡ false)

module _ (settings : AuthSettings) (key : Option String) where
  -- the caller is not known; FastAPI answers an exception that no handler takes with 500
  abbrev pub Unknown : Exc → Type 0
  Unknown e = (status_code e ≡ some 401) ⊎ (Incomparable settings key × (status_code e ≡ none))

  -- a response that refuses the caller
  abbrev pub Refuses : Exc → Type 0
  Refuses e = Unknown e ⊎ (status_code e ≡ some 403)

  abbrev Rejects : {A : Type 0} → Result A → Type 0
  Rejects r = Comes (λ _. Unit) Unknown r

  checked :
      (b : Bool) (a : AuthContext) (m : String)
      → Rejects (if b then ok a else err (authentication_error m))
  unfolding status_code
  checked true a m = tt
  checked false a m = inl refl

module _ (crypto : Crypto) (settings : AuthSettings) (at : Instant) where
  context_for-Rejects :
      (key sub role : Option String) → Rejects settings key (context_for crypto sub role)
  unfolding status_code
  context_for-Rejects key (some s) (some r) =
      checked settings key (truthy (some s) && truthy (some r))
        (record { subject = s; role = r; auth_type = "jwt" }) _
  context_for-Rejects key (some s) none = inl refl
  context_for-Rejects key none r = inl refl

  context_of-Rejects :
      (key : Option String) (o : Option Claims) → Rejects settings key (context_of crypto o)
  unfolding status_code
  context_of-Rejects key none = inl refl
  context_of-Rejects key (some c) = context_for-Rejects key c.sub c.role

  compare_digest-Rejects :
      (k : String) (a : AuthContext) (m : String)
      → Rejects settings (some k) (
          Exceptions.◌>>=◌
            (compare_digest k settings.api_key)
            (λ same. if same then ok a else err (authentication_error m)))
  unfolding compare_digest status_code
  compare_digest-Rejects k a m = elim (Bool-cases (is_ascii k && is_ascii settings.api_key)) [
    | inl e ↦ rw e (checked settings (some k) (str_eq k settings.api_key) a m)
    | inr e ↦ rw e (inr ((k, refl, e), refl))
  ]

  resolve_key-Rejects :
      (key : Option String) → Rejects settings key (resolve_key crypto settings key)
  unfolding resolve_key key_matches status_code
  resolve_key-Rejects none = inl refl
  resolve_key-Rejects (some k) = elim (Bool-cases (truthy (some k))) [
    | inl e ↦ rw e (compare_digest-Rejects k _ _)
    | inr e ↦ rw e (inl refl)
  ]

  resolve_auth-Rejects :
      (key bearer : Option String)
      → Rejects settings key (resolve_auth crypto at settings key bearer)
  unfolding resolve_auth decode_access_token
  resolve_auth-Rejects key none = resolve_key-Rejects key
  resolve_auth-Rejects key (some token) =
      either key (truthy (some token)) (context_of crypto (crypto.decode at token))
        (resolve_key crypto settings key) (context_of-Rejects key (crypto.decode at token))
        (resolve_key-Rejects key)
    where
      either :
          (key : Option String) (b : Bool) (r s : Result AuthContext)
          → Comes (λ _. Unit) (Unknown settings key) r
          → Comes (λ _. Unit) (Unknown settings key) s
          → Comes (λ _. Unit) (Unknown settings key) (if b then r else s)
      either key true r s h k = h
      either key false r s h k = k

  -- a context with one of the roles
  abbrev pub Resolves : Credentials → (String → Type 0) → Type 0
  Resolves c R =
      (a : AuthContext) × (resolve_auth crypto at settings c.api_key c.bearer ≡ ok a) × R a.role

role_checked :
    (settings : AuthSettings) (key : Option String) (roles : List String) (r : Result AuthContext)
    → Rejects settings key r
    → Comes
        (λ _. (a : AuthContext) × (r ≡ ok a) × (any (str_eq a.role) roles ≡ true))
        (Refuses settings key)
        (Exceptions.◌>>=◌ r (λ auth.
          if any (str_eq auth.role) roles
          then ok auth.subject
          else err (
              authorization_error
                ("Role '" ++ auth.role ++ "' is not authorized for this operation"))))
unfolding status_code
role_checked settings key roles (err e) k = inl k
role_checked settings key roles (ok a) k = by_role (any (str_eq a.role) roles) refl _
  where
    by_role :
        (b : Bool)
        → any (str_eq a.role) roles ≡ b
        → (m : String)
        → Comes
            (λ _. (a' : AuthContext) × (ok a ≡ ok a') × (any (str_eq a'.role) roles ≡ true))
            (Refuses settings key)
            (if b then ok a.subject else err (authorization_error m))
    by_role true e m = (a, refl, e)
    by_role false e m = inr refl

caller_checked :
    (settings : AuthSettings) (key : Option String) (r : Result AuthContext)
    → Rejects settings key r
    → Comes
        (λ _. (a : AuthContext) × (r ≡ ok a) × Unit)
        (Refuses settings key)
        (Exceptions.◌>>=◌ r (λ auth. ok auth.subject))
caller_checked settings key (err e) k = inl k
caller_checked settings key (ok a) k = (a, refl, tt)

only : (a r : String) → any (str_eq r) (a ∷ []) ≡ true → r ≡ a
only a r h = elim (Bool-cases (str_eq r a)) [ inl e ↦ (eq_iff r a).0 e | inr e ↦ cc (rw e at h) ]

one_of : (a b r : String) → any (str_eq r) (a ∷ b ∷ []) ≡ true → (r ≡ a) ⊎ (r ≡ b)
one_of a b r h = elim (Bool-cases (str_eq r a)) [
  | inl e ↦ inl ((eq_iff r a).0 e)
  | inr e ↦ inr (only b r (rw e at h))
]

-- The two ways in which a request ends up: its credentials resolve to a context of such a role, by
-- the clock of the check, or the caller is refused and the world is as it was.
pub record Guarded (site : Site) (env : Env) (c : Credentials) (w : World) (R : String → Type 0)
    {A : Type 0} (m : Exec World A) : Type 0 where
  pub outcome :
      Resolves site.crypto site.auth (env.now w.calls) c R
      ⊎ ((e : Exc) × (m w ≡ (err e, w)) × Refuses site.auth c.api_key e)

module _ (site : Site) (env : Env) (c : Credentials) (w : World) where
  by_check :
      {A B C : Type 0} (R : String → Type 0) (f : Instant → Result C) (body : Exec World A)
      (k : A → Exec World B)
      → Comes
          (λ _. Resolves site.crypto site.auth (env.now w.calls) c R)
          (Refuses site.auth c.api_key)
          (f (env.now w.calls))
      → Guarded site env c w R (check site env f >> body >>= k)
  unfolding ◌>>=◌ check
  by_check {A} {B} {C} R f body k h = record { outcome = outcome_of (f (env.now w.calls)) h }
    where
      outcome_of :
          (r : Result C)
          → Comes
              (λ _. Resolves site.crypto site.auth (env.now w.calls) c R)
              (Refuses site.auth c.api_key)
              r
          → Resolves site.crypto site.auth (env.now w.calls) c R
            ⊎ ((e : Exc) × ((((λ w'. (r, w')) >> body) >>= k) w ≡ (err e, w))
                × Refuses site.auth c.api_key e)
      outcome_of (ok a) h = inl h
      outcome_of (err e) h = inr (e, refl, h)

  by_role :
      {A B : Type 0} (roles : List String) (body : Exec World A) (k : A → Exec World B)
      → Guarded site env c w
          (λ role. any (str_eq role) roles ≡ true)
          (with_role site env roles c body >>= k)
  unfolding with_role require_role
  by_role roles body k =
      by_check (λ role. any (str_eq role) roles ≡ true)
        (λ at. require_role site.crypto at site.auth roles c.api_key c.bearer) body k
        (role_checked site.auth c.api_key roles
          (resolve_auth site.crypto (env.now w.calls) site.auth c.api_key c.bearer)
          (resolve_auth-Rejects site.crypto site.auth (env.now w.calls) c.api_key c.bearer))

  by_caller :
      {A B : Type 0} (body : Exec World A) (k : A → Exec World B)
      → Guarded site env c w (λ role. Unit) (with_caller site env c body >>= k)
  unfolding with_caller verify_api_key_or_jwt
  by_caller body k =
      by_check (λ role. Unit)
        (λ at. verify_api_key_or_jwt site.crypto at site.auth c.api_key c.bearer) body k
        (caller_checked site.auth c.api_key
          (resolve_auth site.crypto (env.now w.calls) site.auth c.api_key c.bearer)
          (resolve_auth-Rejects site.crypto site.auth (env.now w.calls) c.api_key c.bearer))

  weaken :
      {A : Type 0} {R S : String → Type 0} (m : Exec World A)
      → ((r : String) → R r → S r)
      → Guarded site env c w R m
      → Guarded site env c w S m
  weaken {A} {R} {S} m h g = record { outcome = either g.outcome }
    where
      either :
          Resolves site.crypto site.auth (env.now w.calls) c R
            ⊎ ((e : Exc) × (m w ≡ (err e, w)) × Refuses site.auth c.api_key e)
          → Resolves site.crypto site.auth (env.now w.calls) c S
            ⊎ ((e : Exc) × (m w ≡ (err e, w)) × Refuses site.auth c.api_key e)
      either (inl (a, e, x)) = inl (a, e, h a.role x)
      either (inr x) = inr x

-- A request that is answered, or fails in its handler, comes with credentials that resolve to a
-- context of a role that its route allows. Any other request is refused with 401 or 403, or, where
-- the API key or that of the settings has characters that are not ASCII, by an exception that no
-- handler takes; and neither the database nor Redis has been touched.
pub answer-Guarded :
    (site : Site) (env : Env) (c : Credentials) (request : Request) (w : World)
    → Guarded site env c w (Allows request) (answer site env c request)
unfolding answer submit_task get_task list_tasks_page cancel_task retry_task get_events
    register_worker list_all_workers admin_stats
answer-Guarded site env c (post_tasks b) w =
    weaken site env c w _ (one_of "admin" "user") (by_role site env c w _ _ _)
answer-Guarded site env c (post_tasks_cancel i) w =
    weaken site env c w _ (one_of "admin" "user") (by_role site env c w _ _ _)
answer-Guarded site env c (post_tasks_retry i) w =
    weaken site env c w _ (only "admin") (by_role site env c w _ _ _)
answer-Guarded site env c (post_workers_register b) w =
    weaken site env c w _ (one_of "admin" "worker") (by_role site env c w _ _ _)
answer-Guarded site env c get_admin_stats w =
    weaken site env c w _ (only "admin") (by_role site env c w _ _ _)
answer-Guarded site env c (get_tasks_id i) w = by_caller site env c w _ _
answer-Guarded site env c (get_tasks q) w = by_caller site env c w _ _
answer-Guarded site env c (get_tasks_events i) w = by_caller site env c w _ _
answer-Guarded site env c get_workers w = by_caller site env c w _ _
