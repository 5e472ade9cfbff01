-- ===== src/Api/App/Composed.antt =====
-- What the pieces of the application do together.
use atlas_queue.Prelude.{
  ◌≡◌, refl, sym, subst, ◌∙◌, String, str_eq, Bool, true, false, ◌&&◌, none, some, List, [], ◌∷◌,
  ◌++◌, find, map, take, drop, inl, inr, Bool-cases,
}
use Prim.Native.String as Text
use mathlib.Core.List.{append_assoc}
use atlas_queue.Prelude.Text.{show}
use atlas_queue.Runtime.Exec.{◌>>=◌, ◌>>◌, pure}
use atlas_queue.Runtime.Exec.Ensures.{Post, Ensures-bind, Ensures-if, Ensures-weaken}
use atlas_queue.Runtime.Frame.Objects.{Gives}
use atlas_queue.Runtime.Frame.Rules.{Ensures-any}
use atlas_queue.Runtime.World.{Env, World, Metric, http_requests, http_latency, emit}
use atlas_queue.Api.Middleware.{HttpCall, HttpAnswer, Next, with_metrics, with_request_id}
use atlas_queue.Api.Middleware.Echoed.{Echoes, fact-Gives, with_request_id-Echoes}
use atlas_queue.Api.App.{
  App, AppSettings, Endpoint, create_app, protect_metrics, wrap, endpoint_for, v1_router,
  auth_router, metrics_route, get, verify_api_key_or_jwt,
}

module _ {A : Type 0} (p : A → Bool) where
  find-append : (xs : List A) (y : A) → p y ≡ false → find p (xs ++ y ∷ []) ≡ find p xs
  find-append [] y h = rw h refl
  find-append (x ∷ xs) y h = rw (find-append xs y h) refl

  -- a row behind another one that matches the same is never found
  find-behind :
      (xs ys : List A) (z y : A)
      → p y ≡ p z
      → find p ((xs ++ z ∷ ys) ++ y ∷ []) ≡ find p (xs ++ z ∷ ys)
  find-behind [] ys z y h = elim (Bool-cases (p z)) [
    | inl e ↦ rw e refl
    | inr e ↦ rw e (find-append ys y (h ∙ e))
  ]
  find-behind (x ∷ xs) ys z y h = rw (find-behind xs ys z y h) refl

module _ (env : Env) (ends_in_metrics : String → Bool) (slow_api cors : Next → Next) where
  abbrev app_for : AppSettings → App
  app_for = create_app env ends_in_metrics slow_api cors

  -- the template of the route, or the path where none was found
  abbrev pub endpoint_of : HttpCall → String
  endpoint_of request = elim request.route [ none ↦ request.path | some path ↦ path ]

  -- the last metrics are the request's, under the status of its answer
  abbrev pub Counted : HttpCall → HttpAnswer → World → Type 0
  Counted request response v =
      (ms : List Metric) × (v.metrics
        ≡ ms
          ++ http_requests request.method (endpoint_of request) (show response.status_code)
            ∷ http_latency request.method (endpoint_of request)
            ∷ [])

  -- the middlewares, from the outside in
  abbrev layers : List (Next → Next)
  layers = with_metrics env ends_in_metrics ∷ with_request_id env ∷ cors ∷ slow_api ∷ []

  middleware-create_app : (settings : AppSettings) → (app_for settings).middleware ≡ layers
  unfolding create_app protect_metrics
  middleware-create_app settings = elim (Bool-cases settings.metrics_require_auth) [
    | inl e ↦ rw e refl
    | inr e ↦ rw e refl
  ]

  -- an answer with the request's id, and counted where its path is not the metrics'
  abbrev pub Served : HttpCall → HttpAnswer → World → Type 0
  Served request response v =
      Echoes request response × (ends_in_metrics request.path ≡ false → Counted request response v)

  module _ (router : Next) (request : HttpCall) where
    echoed :
        Gives
          (λ _. Unit)
          (with_request_id env (cors (slow_api router)) request)
          (λ response _. Echoes request response)
    echoed = record { at = λ w _. with_request_id-Echoes env _ request w }

    counted :
        (response : HttpAnswer)
        → Gives
            (λ _. Echoes request response)
            (emit (http_requests request.method (endpoint_of request) (show response.status_code))
              >> (emit (http_latency request.method (endpoint_of request)) >> pure response))
            (Served request)
    unfolding emit ◌>>=◌ pure
    counted response = record { at = λ v h. (h, λ _. (v.metrics, append_assoc v.metrics _ _)) }

    layers-Served : Gives (λ _. Unit) (wrap layers router request) (Served request)
    unfolding wrap with_metrics emit
    layers-Served =
        Ensures-if (ends_in_metrics request.path) _ _
          (λ e. Ensures-weaken _ echoed (λ w h. h) (λ response v h. (h, λ f. cc (e, f))) (λ v h. h))
          (λ _. Ensures-bind _ _ (Ensures-any _) λ _. Ensures-bind _ _ echoed λ response.
            Ensures-bind _ _ (fact-Gives (Echoes request response) _) λ _. counted response)

-- Whatever the router and the middlewares of slowapi and CORS do, a response that they return comes
-- out of the middlewares with the id of its request, and unless the path is that of the metrics the
-- request is counted, with the status of that response, after all other metrics. An exception that
-- they raise goes through; nothing is said of the answer that FastAPI makes of it outside.
pub middleware-Served :
    (env : Env) (ends_in_metrics : String → Bool) (slow_api cors : Next → Next) (router : Next)
    (settings : AppSettings) (request : HttpCall) (w : World)
    → Post
        (Served env ends_in_metrics slow_api cors request)
        (λ _. Unit)
        (wrap (create_app env ends_in_metrics slow_api cors settings).middleware router request w)
middleware-Served env ends_in_metrics slow_api cors router settings request w =
    subst
      (λ ms.
        Post (Served env ends_in_metrics slow_api cors request) (λ _. Unit)
          (wrap ms router request w))
      (sym (middleware-create_app env ends_in_metrics slow_api cors settings))
      ((layers-Served env ends_in_metrics slow_api cors router request).at w tt)

abbrev under_v1 : Endpoint → Endpoint
under_v1 e = record e { path = Text.◌++◌ "/v1" e.path }

-- The setting METRICS_REQUIRE_AUTH has no effect: with it or without it, every method and path is
-- served by the same endpoint, however paths are matched to templates.
pub protect_metrics_lem :
    (env : Env) (ends_in_metrics : String → Bool) (slow_api cors : Next → Next)
    (matches : (template path : String) → Bool) (docs : Bool) (method path : String)
    → let app = create_app env ends_in_metrics slow_api cors in
      endpoint_for matches method path
        (app (record { enable_docs = docs; metrics_require_auth = true })).routes
      ≡ endpoint_for matches method path
          (app (record { enable_docs = docs; metrics_require_auth = false })).routes
unfolding endpoint_for create_app protect_metrics
protect_metrics_lem env ends_in_metrics slow_api cors matches docs method path =
    find-behind (λ (e : Endpoint). str_eq e.method method && matches e.path path)
      (map under_v1 (auth_router ++ take 2 v1_router)) (map under_v1 (drop 3 v1_router))
      (under_v1 metrics_route) (get "/v1/metrics" "protected_metrics" verify_api_key_or_jwt) refl
