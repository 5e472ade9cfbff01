-- ===== src/Api/Requests.antt =====
-- The bodies that src/atlasqueue/application/dto/task_dto.py takes, and the constraints of their
-- fields, which pydantic checks before a handler runs. Every JSON value already has the type of its
-- field; `none` is a key that is missing, or null where the field may be.
pub mod Accepted
pub mod Fits
use Prim.Native.String.{count}
use mathlib.Core.Option.{get_or}
use atlas_queue.Prelude.{
  ℕ, String, str_eq, Bool, ◌&&◌, Option, none, some, List, [], ◌∷◌, any, leb, if◌then◌else◌,
}
use atlas_queue.Prelude.Int.{ℤ, pos, negsuc}
use atlas_queue.Prelude.Options.{◌>>=◌}
use atlas_queue.Domain.Backoff.{Float, BackoffPolicy, two}
use atlas_queue.Domain.Task.{Fields, Timestamp, end}
use atlas_queue.Domain.Worker.{Metadata}
use atlas_queue.Services.QueueManager.{SubmitTaskRequest}
use atlas_queue.Api.Routes.{RegisterWorkerRequest}

pub record BackoffPolicyBody : Type 0 where
  pub strategy : Option String
  pub base_delay_seconds : Option ℤ
  pub max_delay_seconds : Option ℤ
  pub multiplier : Option Float

pub record SubmitTaskBody : Type 0 where
  pub name : Option String
  pub executor_type : Option String
  pub payload : Option Fields
  pub priority : Option ℤ
  pub scheduled_at : Option Timestamp
  pub max_retries : Option ℤ
  pub timeout_seconds : Option ℤ
  pub backoff_policy : Option BackoffPolicyBody
  pub idempotency_key : Option String

pub record RegisterWorkerBody : Type 0 where
  pub hostname : Option String
  pub metadata : Option Metadata

-- `ge=low`
abbrev pub at_least : ℕ → ℤ → Option ℕ
at_least low (pos n) = if leb low n then some n else none
at_least low (negsuc n) = none

-- `ge=low, le=high`
abbrev pub between : ℕ → ℕ → ℤ → Option ℕ
between low high (pos n) = if leb low n && leb n high then some n else none
between low high (negsuc n) = none

-- `min_length=low, max_length=high`, in characters
abbrev pub length_between : ℕ → ℕ → String → Option String
length_between low high s = if leb low (count s) && leb (count s) high then some s else none

-- `Literal[...]`
abbrev pub one_of : List String → String → Option String
one_of options s = if any (str_eq s) options then some s else none

-- a field of type `T | None`
abbrev pub or_null : {A B : Type 0} → (A → Option B) → Option A → Option (Option B)
or_null f none = some none
or_null f (some a) = do b ← f a; some (some b)

-- Python's `x >= 1.0` on floats, which the repository does not implement
module _ (is_at_least_one : Float → Bool) where
  -- `ge=1.0`
  abbrev pub float_at_least_one : Float → Option Float
  float_at_least_one x = if is_at_least_one x then some x else none

  -- `BackoffPolicyDTO`, and the `BackoffPolicy` that `submit` makes of it
  unfoldable pub validate_backoff : BackoffPolicyBody → Option BackoffPolicy
  validate_backoff body = do
    strategy ← one_of ("fixed" ∷ "exponential" ∷ []) (get_or body.strategy "fixed")
    base_delay_seconds ← at_least 0 (get_or body.base_delay_seconds (pos 5))
    max_delay_seconds ← at_least 1 (get_or body.max_delay_seconds (pos 300))
    multiplier ← float_at_least_one (get_or body.multiplier two)
    some (record {
      strategy = strategy;
      base_delay_seconds = base_delay_seconds;
      max_delay_seconds = max_delay_seconds;
      multiplier = multiplier;
    })

  -- `SubmitTaskRequest`
  unfoldable pub validate_submit : SubmitTaskBody → Option SubmitTaskRequest
  unfolding validate_backoff
  validate_submit body = do
    given ← body.name
    name ← length_between 1 255 given
    executor_type ← one_of ("python" ∷ "webhook" ∷ []) (get_or body.executor_type "python")
    priority ← between 0 10 (get_or body.priority (pos 2))
    max_retries ← between 0 20 (get_or body.max_retries (pos 3))
    timeout_seconds ← between 1 3600 (get_or body.timeout_seconds (pos 300))
    backoff_policy ← or_null validate_backoff body.backoff_policy
    idempotency_key ← or_null (length_between 0 255) body.idempotency_key
    some (record {
      name = name;
      executor_type = executor_type;
      payload = get_or body.payload end;
      priority = pos priority;
      scheduled_at = body.scheduled_at;
      max_retries = max_retries;
      timeout_seconds = timeout_seconds;
      backoff_policy = backoff_policy;
      idempotency_key = idempotency_key;
    })

-- `RegisterWorkerRequest`
unfoldable pub validate_register : RegisterWorkerBody → Option RegisterWorkerRequest
validate_register body = do
  given ← body.hostname
  hostname ← length_between 1 255 given
  some (record { hostname = hostname; metadata = get_or body.metadata [] })

-- `request.model_dump(mode="json")`, which writes every field
abbrev pub dump_backoff : BackoffPolicy → BackoffPolicyBody
dump_backoff p = record {
  strategy = some p.strategy;
  base_delay_seconds = some (pos p.base_delay_seconds);
  max_delay_seconds = some (pos p.max_delay_seconds);
  multiplier = some p.multiplier;
}

abbrev pub map_option : {A B : Type 0} → (A → B) → Option A → Option B
map_option f none = none
map_option f (some a) = some (f a)

unfoldable pub model_dump : SubmitTaskRequest → SubmitTaskBody
model_dump r = record {
  name = some r.name;
  executor_type = some r.executor_type;
  payload = some r.payload;
  priority = some r.priority;
  scheduled_at = r.scheduled_at;
  max_retries = some (pos r.max_retries);
  timeout_seconds = some (pos r.timeout_seconds);
  backoff_policy = map_option dump_backoff r.backoff_policy;
  idempotency_key = r.idempotency_key;
}
