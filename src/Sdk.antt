-- ===== src/Sdk.antt =====
-- `AtlasQueueClient` of src/atlasqueue/sdk/client.py, over httpx.
pub mod Served
use Prim.Native.String.{◌++◌, len, slice}
use mathlib.Core.Option.{get_or}
use atlas_queue.Prelude.{
  ℕ, zero, suc, ◌-◌, String, str_eq, Bool, Option, none, some, List, [], ◌∷◌, if◌then◌else◌,
}
use atlas_queue.Prelude.Int.{ℤ}
use atlas_queue.Domain.Backoff.{Float}
use atlas_queue.Domain.Exceptions.{Exc, Result}
use atlas_queue.Domain.Task.{Fields, Timestamp, end}
use atlas_queue.Runtime.Exec.{Exec, ◌>>=◌, ◌>>◌, lift, raise}
use atlas_queue.Runtime.World.{World}
use atlas_queue.Services.QueueManager.{SubmitTaskRequest}
use atlas_queue.Api.Requests.{BackoffPolicyBody, SubmitTaskBody, validate_submit, model_dump}

-- what the code calls of `httpx.AsyncClient` and of its responses, over what is at the other end
pub record AsyncClient (Response Data : Type 0) : Type 0 where
  pub post : String → Option SubmitTaskBody → Exec World Response
  pub get : String → Exec World Response
  pub raise_for_status : Response → Result (Unit {0})
  pub json : Response → Result Data
  pub aclose : Exec World (Unit {0})

pub record AtlasQueueClient (Response Data : Type 0) : Type 0 where
  pub base_url : String
  pub api_key : String
  pub client : AsyncClient Response Data

-- the keyword arguments of `submit_task`; those of the `BackoffPolicyDTO` are its own
pub record SubmitArguments : Type 0 where
  pub name : String
  pub payload : Option Fields
  pub executor_type : String
  pub priority : ℤ
  pub scheduled_at : Option Timestamp
  pub max_retries : ℤ
  pub timeout_seconds : ℤ
  pub backoff_policy : Option BackoffPolicyBody
  pub idempotency_key : Option String

-- `text.rstrip("/")`, with as much fuel as the text has bytes
abbrev pub rstrip_slash : ℕ → String → String
rstrip_slash zero s = s
rstrip_slash (suc n) s =
    let last = len s - 1 in
    let rest = rstrip_slash n (slice s 0 last) in
    if str_eq (slice s last (len s)) "/" then rest else s

-- the arguments of `SubmitTaskRequest(...)`
abbrev pub arguments_body : SubmitArguments → SubmitTaskBody
arguments_body a = record {
  name = some a.name;
  executor_type = some a.executor_type;
  payload = some (get_or a.payload end);
  priority = some a.priority;
  scheduled_at = a.scheduled_at;
  max_retries = some a.max_retries;
  timeout_seconds = some a.timeout_seconds;
  backoff_policy = a.backoff_policy;
  idempotency_key = a.idempotency_key;
}

module _ {Response Data : Type 0} where
  -- `AtlasQueueClient(base_url, api_key, client)`; `make` is `httpx.AsyncClient` with its headers
  -- and its timeout
  unfoldable pub connect :
      (make : List (String × String) → (timeout : ℕ) → AsyncClient Response Data)
      (base_url api_key : String)
      → Option (AsyncClient Response Data)
      → AtlasQueueClient Response Data
  connect make base_url api_key client = record {
    base_url = rstrip_slash (len base_url) base_url;
    api_key = api_key;
    client = get_or client (make (("X-API-Key", api_key) ∷ []) 30);
  }

  module _ (self : AtlasQueueClient Response Data) where
    -- `response.raise_for_status()` and `response.json()`
    abbrev pub data_of : Response → Exec World Data
    data_of response = do
      lift (self.client.raise_for_status response)
      lift (self.client.json response)

    -- the request from its validation on; `invalid` is pydantic's exception
    abbrev pub send : Exc → Option SubmitTaskRequest → Exec World Data
    send invalid none = raise invalid
    send invalid (some request) = do
      response ← self.client.post (self.base_url ++ "/v1/tasks") (some (model_dump request))
      data_of response

    unfoldable pub submit_task :
        (is_at_least_one : Float → Bool) (invalid : SubmitTaskBody → Exc)
        → SubmitArguments
        → Exec World Data
    submit_task is_at_least_one invalid a =
        send (invalid (arguments_body a)) (validate_submit is_at_least_one (arguments_body a))

    unfoldable pub get_task : String → Exec World Data
    get_task task_id = do
      response ← self.client.get (self.base_url ++ "/v1/tasks/" ++ task_id)
      data_of response

    unfoldable pub cancel_task : String → Exec World Data
    cancel_task task_id = do
      response ← self.client.post (self.base_url ++ "/v1/tasks/" ++ task_id ++ "/cancel") none
      data_of response

    unfoldable pub aclose : Exec World Unit
    aclose = self.client.aclose
