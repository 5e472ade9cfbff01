-- ===== src/Examples/App.antt =====
-- The application at concrete inputs.
use atlas_queue.Prelude.{◌≡◌, true, false, str_eq, none, [], ◌∷◌}
use atlas_queue.Runtime.Exec.{pure}
use atlas_queue.Runtime.Exec.Ensures.{Post}
use atlas_queue.Api.Middleware.{HttpCall, Next}
use atlas_queue.Api.App.{create_app, wrap, endpoint_for}
use atlas_queue.Api.App.Composed.{Served, middleware-Served, protect_metrics_lem}
use atlas_queue.Examples.Services.{calm, one_queued}

abbrev quiet : Next → Next
quiet next = next

abbrev found : Next
found request = pure (record { status_code = 200; headers = []; body = "[]" })

abbrev call : HttpCall
call = record {
  method = "GET";
  path = "/v1/workers";
  headers = ("x-request-id", "7") ∷ [];
  route = none;
  request_id = none;
}

middleware-Served_example :
    Post
      (Served calm (λ _. false) quiet quiet call)
      (λ _. Unit)
      (wrap
        (create_app calm
          (λ _. false)
          quiet
          quiet
          (record { enable_docs = true; metrics_require_auth = true })).middleware
        found
        call
        one_queued)
middleware-Served_example =
    middleware-Served calm (λ _. false) quiet quiet found
      (record { enable_docs = true; metrics_require_auth = true }) call one_queued

protect_metrics_lem_example :
    let app = create_app calm (λ _. false) quiet quiet in
    endpoint_for str_eq "GET" "/v1/metrics"
      (app (record { enable_docs = true; metrics_require_auth = true })).routes
    ≡ endpoint_for str_eq "GET" "/v1/metrics"
        (app (record { enable_docs = true; metrics_require_auth = false })).routes
protect_metrics_lem_example =
    protect_metrics_lem calm (λ _. false) quiet quiet str_eq true "GET" "/v1/metrics"
