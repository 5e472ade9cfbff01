-- ===== src/Sdk/Served.antt =====
-- The client of the SDK against the routes of the API.
use Prim.Native.String.{◌++◌}
use atlas_queue.Prelude.{◌≡◌, refl, Bool, Option, none, some}
use atlas_queue.Domain.Backoff.{Float}
use atlas_queue.Domain.Exceptions.{Exc, Result, ok}
use atlas_queue.Runtime.Exec.{Exec, ◌>>=◌, pure, raise}
use atlas_queue.Runtime.World.{Env, World}
use atlas_queue.Services.QueueManager.{SubmitTaskRequest}
use atlas_queue.Api.Requests.{SubmitTaskBody, validate_submit, model_dump}
use atlas_queue.Api.Requests.Accepted.{validate_submit-model_dump}
use atlas_queue.Api.Responses.{TaskResponse}
use atlas_queue.Api.Routes as Routes
use atlas_queue.Sdk.{AtlasQueueClient, SubmitArguments, submit_task, arguments_body, send, data_of}

-- the API as a client meets it: how its results become responses, the response to a body that is
-- not accepted, and what it takes for the credentials
pub record Server (Response : Type 0) : Type 0 where
  pub site : Routes.Site
  pub env : Env
  pub credentials : Routes.Credentials
  pub respond : Result TaskResponse → Response
  pub unprocessable : Response

module _ {Response : Type 0} (is_at_least_one : Float → Bool) (server : Server Response) where
  -- the route on a request, and its result as a response
  abbrev pub routed : SubmitTaskRequest → Exec World Response
  routed request w =
      let (r, v) = Routes.submit_task server.site server.env server.credentials request w in
      (ok (server.respond r), v)

  abbrev pub accepted : Option SubmitTaskRequest → Exec World Response
  accepted none = pure server.unprocessable
  accepted (some request) = routed request

  -- POST /v1/tasks
  abbrev pub serve : SubmitTaskBody → Exec World Response
  serve body = accepted (validate_submit is_at_least_one body)

  -- what the client answers for a request, or for one that it could not build
  abbrev pub answered :
      {Data : Type 0}
      → AtlasQueueClient Response Data
      → Exc
      → Option SubmitTaskRequest
      → Exec World Data
  answered self invalid none = raise invalid
  answered self invalid (some request) = do response ← routed request; data_of self response

  send-Served :
      {Data : Type 0} (self : AtlasQueueClient Response Data) (body : SubmitTaskBody)
      (invalid : Exc)
      → ((b : SubmitTaskBody) → self.client.post (self.base_url ++ "/v1/tasks") (some b) ≡ serve b)
      → (o : Option SubmitTaskRequest) → validate_submit is_at_least_one body ≡ o
      → send self invalid o ≡ answered self invalid o
  send-Served self body invalid reaches none e = refl
  send-Served self body invalid reaches (some request) e =
      rw (reaches (model_dump request), validate_submit-model_dump is_at_least_one body request e)
        refl

-- Where the posts of a client reach the API, a submission through the SDK is the route's own, on the
-- request that the client has built from its arguments: the API never refuses the body as invalid.
-- Arguments that make no request raise in the client, and nothing is sent.
pub submit_task-Served :
    {Response Data : Type 0} (is_at_least_one : Float → Bool) (server : Server Response)
    (self : AtlasQueueClient Response Data) (invalid : SubmitTaskBody → Exc) (a : SubmitArguments)
    → ((b : SubmitTaskBody)
        → self.client.post (self.base_url ++ "/v1/tasks") (some b) ≡ serve is_at_least_one server b)
    → submit_task self is_at_least_one invalid a
      ≡ answered is_at_least_one server self
          (invalid (arguments_body a))
          (validate_submit is_at_least_one (arguments_body a))
unfolding submit_task
submit_task-Served is_at_least_one server self invalid a reaches =
    send-Served is_at_least_one server self (arguments_body a) (invalid (arguments_body a)) reaches
      (validate_submit is_at_least_one (arguments_body a)) refl
