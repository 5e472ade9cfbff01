-- ===== src/Api/Middleware/Echoed.antt =====
-- The id of a request in its response.
use atlas_queue.Prelude.{
  ◌≡◌, refl, String, str_eq, eq_iff, Option, none, some, [], ◌∷◌, inl, inr, Bool-cases,
}
use atlas_queue.Prelude.Text.{show_uuid}
use atlas_queue.Domain.Exceptions.{Result, ok, err}
use atlas_queue.Runtime.Exec.{Exec}
use atlas_queue.Runtime.Exec.Ensures.{Post, Ensures-bind, Ensures-pure}
use atlas_queue.Runtime.Frame.Objects.{Gives}
use atlas_queue.Runtime.Frame.Rules.{Ensures-any}
use atlas_queue.Runtime.World.{Env, World, uuid4}
use atlas_queue.Api.Middleware.{
  Headers, HttpCall, HttpAnswer, Next, header, set_header, request_id_of, with_request_id,
}

header-set_header :
    (name value : String) (hs : Headers) → header name (set_header name value hs) ≡ some value
unfolding header set_header
header-set_header name value [] = rw ((eq_iff name name).1 refl) refl
header-set_header name value ((n, v) ∷ hs) = elim (Bool-cases (str_eq n name)) [
  | inl same ↦ rw (same, same) refl
  | inr other ↦ rw (other, other) (header-set_header name value hs)
]

-- a response that carries an id, the request's own if it had one
abbrev pub Echoes : HttpCall → HttpAnswer → Type 0
Echoes request response =
    (id : String) × (header "x-request-id" response.headers ≡ some id)
    × ((given : String) → header "x-request-id" request.headers ≡ some given → id ≡ given)

-- what does not depend on the world
pub fact-Gives : {A : Type 0} (F : Type 0) (m : Exec World A) → Gives (λ _. F) m (λ _ _. F)
fact-Gives {A} F m = record { at = λ w h. go (m w) h }
  where
    go : (r : Result A × World) → F → Post (λ _ _. F) (λ _. Unit) r
    go (ok a, w) h = h
    go (err e, w) h = tt

module _ (env : Env) (request : HttpCall) where
  abbrev Own : String → Type 0
  Own id = (given : String) → header "x-request-id" request.headers ≡ some given → id ≡ given

  request_id_of-Own : Gives (λ w. Unit) (request_id_of env request) (λ id _. Own id)
  unfolding request_id_of
  request_id_of-Own = Ensures-bind (uuid4 env) _ (Ensures-any _) λ fresh.
      Ensures-pure _ (λ w h. by_header (show_uuid fresh) (header "x-request-id" request.headers))
    where
      by_header :
          (fresh : String) (o : Option String) (given : String)
          → o ≡ some given
          → elim o [ none ↦ fresh | some id ↦ id ] ≡ given
      by_header fresh none given e = cc
      by_header fresh (some id) given e = cc

-- A response that comes back carries a request id; where the request had one, it is that.
pub with_request_id-Echoes :
    (env : Env) (next : Next) (request : HttpCall) (w : World)
    → Post (λ response _. Echoes request response) (λ _. Unit) (with_request_id env next request w)
unfolding with_request_id
with_request_id-Echoes env next request w =
    (Ensures-bind {R = λ id _. Own env request id} _ _ (request_id_of-Own env request) λ id.
        Ensures-bind {R = λ _ _. Own env request id} _ _ (fact-Gives (Own env request id) _)
          λ response.
            Ensures-pure _
              (λ v own. (id, header-set_header "x-request-id" id response.headers, own))).at
      w tt
