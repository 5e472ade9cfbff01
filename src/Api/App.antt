-- ===== src/Api/App.antt =====
-- `create_app` of src/atlasqueue/api/main.py, with the routers of
-- src/atlasqueue/api/routes/v1.py and src/atlasqueue/api/routes/auth.py as tables.
pub mod Composed
use Prim.Native.String.{◌++◌}
use atlas_queue.Prelude.{
  ℕ, String, str_eq, Bool, ◌&&◌, Option, none, some, List, [], ◌∷◌, find, map, if◌then◌else◌,
}
use atlas_queue.Prelude.{◌++◌ as append}
use atlas_queue.Runtime.World.{Env}
use atlas_queue.Api.Middleware.{Next, with_request_id, with_metrics}

-- what an endpoint asks of the credentials: nothing, that they are some caller's, or a role
pub data Dependency : Type 0 where
  open_to_all verify_api_key_or_jwt : Dependency
  require_role : List String → Dependency

-- a row of a router; the handler is the name of its function
pub record Endpoint : Type 0 where
  pub method : String
  pub path : String
  pub handler : String
  pub status_code : ℕ
  pub dependency : Dependency

abbrev pub get : (path handler : String) → Dependency → Endpoint
get path handler dependency = record {
  method = "GET";
  path = path;
  handler = handler;
  status_code = 200;
  dependency = dependency;
}

abbrev pub post : (path handler : String) → Dependency → Endpoint
post path handler dependency = record (get path handler dependency) { method = "POST" }

-- `@router.get` and `@router.post`
abbrev pub health_route : Endpoint
health_route = get "/health" "health" open_to_all

abbrev pub ready_route : Endpoint
ready_route = get "/ready" "ready" open_to_all

abbrev pub metrics_route : Endpoint
metrics_route = get "/metrics" "metrics" open_to_all

abbrev pub submit_task_route : Endpoint
submit_task_route = record (post "/tasks" "submit_task" (require_role ("admin" ∷ "user" ∷ []))) {
  status_code = 202;
}

abbrev pub get_task_route : Endpoint
get_task_route = get "/tasks/{task_id}" "get_task" verify_api_key_or_jwt

abbrev pub list_tasks_route : Endpoint
list_tasks_route = get "/tasks" "list_tasks" verify_api_key_or_jwt

abbrev pub cancel_task_route : Endpoint
cancel_task_route =
    post "/tasks/{task_id}/cancel" "cancel_task" (require_role ("admin" ∷ "user" ∷ []))

abbrev pub retry_task_route : Endpoint
retry_task_route = post "/tasks/{task_id}/retry" "retry_task" (require_role ("admin" ∷ []))

abbrev pub get_task_events_route : Endpoint
get_task_events_route = get "/tasks/{task_id}/events" "get_task_events" verify_api_key_or_jwt

abbrev pub register_worker_route : Endpoint
register_worker_route =
    record (post "/workers/register" "register_worker" (require_role ("admin" ∷ "worker" ∷ []))) {
      status_code = 201;
    }

abbrev pub list_workers_route : Endpoint
list_workers_route = get "/workers" "list_workers" verify_api_key_or_jwt

abbrev pub admin_stats_route : Endpoint
admin_stats_route = get "/admin/stats" "admin_stats" (require_role ("admin" ∷ []))

-- the routers, whose rows stand in the order of their decorators
abbrev pub v1_router : List Endpoint
v1_router =
    health_route ∷ ready_route ∷ metrics_route ∷ submit_task_route ∷ get_task_route
    ∷ list_tasks_route ∷ cancel_task_route ∷ retry_task_route ∷ get_task_events_route
    ∷ register_worker_route ∷ list_workers_route ∷ admin_stats_route ∷ []

abbrev pub auth_router : List Endpoint
auth_router = post "/auth/login" "login" open_to_all ∷ []

pub record AppSettings : Type 0 where
  pub enable_docs : Bool
  pub metrics_require_auth : Bool

-- the middleware that was added last stands first, and is the outermost
pub record App : Type 0 where
  pub docs_url : Option String
  pub redoc_url : Option String
  pub openapi_url : Option String
  pub middleware : List (Next → Next)
  pub routes : List Endpoint

abbrev pub add_middleware : (Next → Next) → App → App
add_middleware m app = record app { middleware = m ∷ app.middleware }

-- `include_router(router, prefix=prefix)`
abbrev pub include_router : List Endpoint → String → App → App
include_router router prefix app = record app {
  routes = append app.routes (map (λ (e : Endpoint). record e { path = prefix ++ e.path }) router);
}

-- the block under `if settings.metrics_require_auth`
unfoldable pub protect_metrics : App → App
protect_metrics app = record app {
  routes = append app.routes (get "/v1/metrics" "protected_metrics" verify_api_key_or_jwt ∷ []);
}

module _ (env : Env) (ends_in_metrics : String → Bool) (slow_api cors : Next → Next) where
  -- `create_app`, with the middlewares of slowapi and FastAPI
  unfoldable pub create_app : AppSettings → App
  unfolding protect_metrics
  create_app settings =
      let bare : App = record {
        docs_url = if settings.enable_docs then some "/docs" else none;
        redoc_url = if settings.enable_docs then some "/redoc" else none;
        openapi_url = if settings.enable_docs then some "/openapi.json" else none;
        middleware = [];
        routes = [];
      } in
      let wrapped = add_middleware (with_metrics env ends_in_metrics) (
        add_middleware (with_request_id env)
          (add_middleware cors (add_middleware slow_api bare))) in
      let app = include_router v1_router "/v1" (include_router auth_router "/v1" wrapped) in
      if settings.metrics_require_auth then protect_metrics app else app

-- the application around its router
unfoldable pub wrap : List (Next → Next) → Next → Next
wrap [] router = router
wrap (m ∷ ms) router = m (wrap ms router)

-- the endpoint that serves a request: the first with its method whose path matches
unfoldable pub endpoint_for :
    (matches : (template path : String) → Bool) (method path : String)
    → List Endpoint
    → Option Endpoint
endpoint_for matches method path routes =
    find (λ (e : Endpoint). str_eq e.method method && matches e.path path) routes
