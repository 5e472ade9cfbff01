-- ===== src/Examples/Requests.antt =====
-- Bodies of requests, and the client of the SDK, at concrete inputs.
use atlas_queue.Prelude.{◌≡◌, refl, Bool, Option, none, some, All, leb, ◌&&◌}
use atlas_queue.Prelude.Int.{pos, negsuc}
use atlas_queue.Prelude.Options.{◌>>=◌}
use atlas_queue.Domain.Backoff.{Float}
use atlas_queue.Domain.Exceptions.{Exc, Result, ok, value_error}
use atlas_queue.Domain.Task.{end}
use atlas_queue.Runtime.Exec.{Exec}
use atlas_queue.Runtime.World.{World}
use atlas_queue.Persistence.Schema.Cells.{TaskFits}
use atlas_queue.Persistence.Schema.Fits.{to_model_task-Fits}
use atlas_queue.Services.QueueManager.{SubmitTaskRequest}
use atlas_queue.Api.Requests.{BackoffPolicyBody, SubmitTaskBody, validate_submit, validate_register}
use atlas_queue.Api.Requests.Fits.{submit_task-Fits}
use atlas_queue.Api.Responses.{TaskResponse}
use atlas_queue.Api.Routes as Routes
use atlas_queue.Sdk.{
  AsyncClient, AtlasQueueClient, SubmitArguments, connect, submit_task, arguments_body,
  rstrip_slash,
}
use atlas_queue.Sdk.Served.{Server, serve, answered, submit_task-Served}
use atlas_queue.Examples.States.{sample}
use atlas_queue.Examples.Services.{calm, one_queued}
use atlas_queue.Examples.Schema.{sample-Sized}
use atlas_queue.Examples.Routes.{site, ann}

-- the floats from 1.0 to infinity, in the order of their bits
abbrev from_one : Float → Bool
from_one x = leb 0x3ff0000000000000 x.bits && leb x.bits 0x7ff0000000000000

abbrev exponential_policy : BackoffPolicyBody
exponential_policy = record {
  strategy = some "exponential";
  base_delay_seconds = none;
  max_delay_seconds = some (pos 60);
  multiplier = none;
}

abbrev body : SubmitTaskBody
body = record {
  name = some "greet";
  executor_type = none;
  payload = none;
  priority = some (pos 10);
  scheduled_at = none;
  max_retries = none;
  timeout_seconds = none;
  backoff_policy = some exponential_policy;
  idempotency_key = some "k";
}

abbrev accepted_request : SubmitTaskRequest
accepted_request = record {
  name = "greet";
  executor_type = "python";
  payload = end;
  priority = pos 10;
  scheduled_at = none;
  max_retries = 3;
  timeout_seconds = 300;
  backoff_policy = some (record {
    strategy = "exponential";
    base_delay_seconds = 5;
    max_delay_seconds = 60;
    multiplier = record { bits = 0x4000000000000000 };
  });
  idempotency_key = some "k";
}

body_accepted : validate_submit from_one body ≡ some accepted_request
unfolding validate_submit ◌>>=◌
body_accepted = refl

no_name : validate_submit from_one (record body { name = none }) ≡ none
unfolding validate_submit ◌>>=◌
no_name = refl

priority_too_high : validate_submit from_one (record body { priority = some (pos 11) }) ≡ none
unfolding validate_submit ◌>>=◌
priority_too_high = refl

no_time : validate_submit from_one (record body { timeout_seconds = some (pos 0) }) ≡ none
unfolding validate_submit ◌>>=◌
no_time = refl

negative_retries : validate_submit from_one (record body { max_retries = some (negsuc 0) }) ≡ none
unfolding validate_submit ◌>>=◌
negative_retries = refl

nameless_host : validate_register (record { hostname = some ""; metadata = none }) ≡ none
unfolding validate_register ◌>>=◌
nameless_host = refl

one_queued-Fits : All TaskFits one_queued.db.tasks
one_queued-Fits = (to_model_task-Fits sample sample-Sized 1 2, tt)

submit_task-Fits_example :
    All TaskFits (Routes.submit_task site calm ann accepted_request one_queued).1.db.tasks
submit_task-Fits_example =
    submit_task-Fits from_one site calm ann body accepted_request one_queued body_accepted
      one_queued-Fits

two_slashes : rstrip_slash 10 "http://h//" ≡ "http://h"
two_slashes = refl

-- responses as their results, and `none` for a body that is refused
abbrev server : Server (Option (Result TaskResponse))
server = record { site = site; env = calm; credentials = ann; respond = some; unprocessable = none }

abbrev posted : Option SubmitTaskBody → Exec World (Option (Result TaskResponse))
posted none w = (ok none, w)
posted (some b) w = serve from_one server b w

abbrev transport : AsyncClient (Option (Result TaskResponse)) (Option (Result TaskResponse))
transport = record {
  post = λ url sent. posted sent;
  get = λ url w. (ok none, w);
  raise_for_status = λ response. ok tt;
  json = ok;
  aclose = λ w. (ok tt, w);
}

abbrev client : AtlasQueueClient (Option (Result TaskResponse)) (Option (Result TaskResponse))
unfolding connect
client = connect (λ headers timeout. transport) "http://h/" "key" none

abbrev given : SubmitArguments
given = record {
  name = "greet";
  payload = none;
  executor_type = "python";
  priority = pos 2;
  scheduled_at = none;
  max_retries = pos 3;
  timeout_seconds = pos 300;
  backoff_policy = none;
  idempotency_key = none;
}

abbrev invalid : SubmitTaskBody → Exc
invalid b = value_error "validation error for SubmitTaskRequest"

submit_task-Served_example :
    submit_task client from_one invalid given
    ≡ answered from_one server client
        (invalid (arguments_body given))
        (validate_submit from_one (arguments_body given))
unfolding client
submit_task-Served_example = submit_task-Served from_one server client invalid given (λ b. refl)
