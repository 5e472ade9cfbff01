-- ===== src/Api/Middleware.antt =====
-- The middleware of src/atlasqueue/api/middleware/request_id.py and of
-- src/atlasqueue/infrastructure/observability/metrics.py, around the rest of the application.
pub mod Echoed
use atlas_queue.Prelude.{
  ℕ, String, str_eq, Bool, true, false, Option, none, some, List, [], ◌∷◌, ◌++◌, if◌then◌else◌,
}
use atlas_queue.Prelude.Text.{show, show_uuid}
use atlas_queue.Runtime.Exec.{Exec, ◌>>=◌, ◌>>◌, pure}
use atlas_queue.Runtime.World.{Env, World, uuid4, now, emit, http_requests, http_latency}

abbrev pub Headers : Type 0
Headers = List (String × String)

pub record HttpCall : Type 0 where
  pub method : String
  pub path : String
  pub headers : Headers
  pub route : Option String
  pub request_id : Option String

pub record HttpAnswer : Type 0 where
  pub status_code : ℕ
  pub headers : Headers
  pub body : String

-- `headers.get(name)`, of names in one case
unfoldable pub header : String → Headers → Option String
header name [] = none
header name ((n, v) ∷ rest) = if str_eq n name then some v else header name rest

-- `headers[name] = value`: in place of the first that is there, whose repetitions go
unfoldable pub drop_header : String → Headers → Headers
drop_header name [] = []
drop_header name ((n, v) ∷ rest) =
    if str_eq n name then drop_header name rest else (n, v) ∷ drop_header name rest

unfoldable pub set_header : String → String → Headers → Headers
unfolding drop_header
set_header name value [] = (name, value) ∷ []
set_header name value ((n, v) ∷ rest) =
    if str_eq n name
    then (n, value) ∷ drop_header name rest
    else (n, v) ∷ set_header name value rest

-- the rest of the application, for a request that carries its id
abbrev pub Next : Type 0
Next = HttpCall → Exec World HttpAnswer

module _ (env : Env) where
  -- `headers.get("X-Request-ID", str(uuid4()))`, which draws the UUID in either case
  unfoldable pub request_id_of : HttpCall → Exec World String
  unfolding header
  request_id_of request = do
    fresh ← uuid4 env
    pure (elim (header "x-request-id" request.headers) [ none ↦ show_uuid fresh | some id ↦ id ])

  -- `RequestIdMiddleware.dispatch`
  unfoldable pub with_request_id : Next → Next
  unfolding request_id_of set_header
  with_request_id next request = do
    id ← request_id_of request
    response ← next (record request { request_id = some id })
    pure (record response { headers = set_header "x-request-id" id response.headers })

  -- `PrometheusMiddleware.dispatch`, for a path that ends in `/metrics` or does not
  unfoldable pub with_metrics : (String → Bool) → Next → Next
  with_metrics ends_in_metrics next request =
      if ends_in_metrics request.path then next request else do
        now env
        response ← next request
        now env
        let endpoint : String = elim request.route [ none ↦ request.path | some path ↦ path ]
        emit (http_requests request.method endpoint (show response.status_code))
        emit (http_latency request.method endpoint)
        pure response
