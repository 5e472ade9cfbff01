-- ===== src/Domain/Task.antt =====
-- `TaskId`, `Priority` and `Task` of src/atlasqueue/domain/entities/task.py. A UUID is its 128-bit
-- number, and an instant its number of microseconds.
pub mod Lifecycle
use Prim.Native.String.{◌++◌}
use atlas_queue.Prelude.{
  ℕ, ◌+◌, ◌*◌, String, Bool, true, false, ◌&&◌, Option, none, some, List, [], ◌∷◌, any, ltb,
  if◌then◌else◌, ◌≡◌, refl, subst,
}
use atlas_queue.Prelude.Int.{ℤ, pos, negsuc}
use atlas_queue.Domain.Exceptions.{Result, ok, err, value_error, type_error, ◌>>=◌}
use atlas_queue.Domain.Enums.{
  TaskStatus, ExecutorType, pending, scheduled, queued, running, completed, failed, cancelled,
  dead_letter, enqueue_failed, status_value, same_status,
}
use atlas_queue.Domain.Backoff.{Float, BackoffPolicy, FloatOps, default_policy, delay_for_attempt}

abbrev pub TaskId : Type 0
TaskId = ℕ

abbrev pub Instant : Type 0
Instant = ℕ

-- `timedelta(seconds=n)`
abbrev pub seconds : ℕ → ℕ
seconds n = n * 1000000

pub record Priority : Type 0 where
  pub value : ℕ

-- `Priority(value)`, with its `__post_init__`
unfoldable pub make_priority : ℤ → Result Priority
make_priority (pos n) = ok (record { value = n })
make_priority (negsuc n) = err (value_error "Priority must be non-negative")

abbrev pub critical : Priority
critical = record { value = 0 }

abbrev pub normal : Priority
normal = record { value = 2 }

-- the `dict[str, Any]` of a payload or a result: its JSON values
mutual
  pub data Json : Type 0 where
    null : Json
    bool : Bool → Json
    num : ℤ → Json
    real : Float → Json
    text : String → Json
    arr : Items → Json
    obj : Fields → Json

  pub data Items : Type 0 where
    nil : Items
    cons : Json → Items → Items

  pub data Fields : Type 0 where
    end : Fields
    field : String → Json → Fields → Fields

pub record Task : Type 0 where
  pub id : TaskId
  pub name : String
  pub executor_type : ExecutorType
  pub payload : Fields
  pub status : TaskStatus
  pub priority : Priority
  pub max_retries : ℕ
  pub attempts : ℕ
  pub scheduled_at : Option Instant
  pub timeout_seconds : ℕ
  pub backoff_policy : Option BackoffPolicy
  pub worker_id : Option String
  pub result : Option Fields
  pub error : Option String
  pub idempotency_key : Option String
  pub created_at : Option Instant
  pub updated_at : Option Instant
  pub started_at : Option Instant
  pub finished_at : Option Instant

-- `policy or BackoffPolicy()`
abbrev pub policy_or_default : Option BackoffPolicy → BackoffPolicy
policy_or_default none = default_policy
policy_or_default (some p) = p

-- `at and at > now`
abbrev pub is_later : Option Instant → Instant → Bool
is_later none now = false
is_later (some at) now = ltb now at

-- a `datetime` of a request, which may or may not carry a time zone
pub data Timestamp : Type 0 where
  aware naive : Instant → Timestamp

-- what `scheduled_at > now` needs of `scheduled_at`, where there is one
abbrev pub comparable : Option Timestamp → Result (Option Instant)
comparable none = ok none
comparable (some (aware at)) = ok (some at)
comparable (some (naive at)) =
    err (type_error "can't compare offset-naive and offset-aware datetimes")

-- the keyword arguments of `Task.create`
pub record NewTask : Type 0 where
  pub name : String
  pub executor_type : ExecutorType
  pub payload : Fields
  pub priority : Priority
  pub max_retries : ℕ
  pub scheduled_at : Option Timestamp
  pub timeout_seconds : ℕ
  pub backoff_policy : Option BackoffPolicy
  pub idempotency_key : Option String

-- the task of those arguments, once its time has been compared
abbrev pub created : (now : Instant) (uuid : ℕ) → NewTask → (scheduled_at : Option Instant) → Task
created now uuid n scheduled_at = record {
  id = uuid;
  name = n.name;
  executor_type = n.executor_type;
  payload = n.payload;
  status = if is_later scheduled_at now then scheduled else pending;
  priority = n.priority;
  max_retries = n.max_retries;
  attempts = 0;
  scheduled_at = scheduled_at;
  timeout_seconds = n.timeout_seconds;
  backoff_policy = some (policy_or_default n.backoff_policy);
  worker_id = none;
  result = none;
  error = none;
  idempotency_key = n.idempotency_key;
  created_at = some now;
  updated_at = some now;
  started_at = none;
  finished_at = none;
}

-- `Task.create`, at the instant and with the UUID that it draws
unfoldable pub create : (now : Instant) (uuid : ℕ) → NewTask → Result Task
create now uuid n = comparable n.scheduled_at >>= λ at. ok (created now uuid n at)

-- what is true of every task that `create` makes
pub create-holds :
    (X : Task → Type 0) (now : Instant) (uuid : ℕ) (n : NewTask)
    → ((at : Option Instant) → comparable n.scheduled_at ≡ ok at → X (created now uuid n at))
    → (t : Task) → create now uuid n ≡ ok t
    → X t
unfolding create
create-holds X now uuid n h t e = go (comparable n.scheduled_at) refl e
  where
    go :
        (r : Result (Option Instant))
        → comparable n.scheduled_at ≡ r
        → (r >>= λ at. ok (created now uuid n at)) ≡ ok t
        → X t
    go (ok at) c e = let same : created now uuid n at ≡ t = cc in subst X same (h at c)
    go (err x) c e = cc

unfoldable pub can_retry : Task → Bool
can_retry t = ltb t.attempts t.max_retries

unfoldable pub retry_delay_seconds : FloatOps → Task → Result ℕ
unfolding delay_for_attempt
retry_delay_seconds ops t = delay_for_attempt ops (policy_or_default t.backoff_policy) t.attempts

-- the table `allowed` of `transition_to`
abbrev pub allowed : TaskStatus → List TaskStatus
allowed pending = queued ∷ enqueue_failed ∷ cancelled ∷ []
allowed scheduled = queued ∷ cancelled ∷ enqueue_failed ∷ []
allowed queued = running ∷ cancelled ∷ []
allowed running = completed ∷ failed ∷ cancelled ∷ queued ∷ dead_letter ∷ []
allowed failed = queued ∷ dead_letter ∷ []
allowed enqueue_failed = queued ∷ scheduled ∷ []
allowed dead_letter = queued ∷ []
allowed completed = []
allowed cancelled = []

-- `Task.transition_to`, with the instant that it reads when it does not raise
unfoldable pub transition_to : TaskStatus → (now : Instant) → Task → Result Task
transition_to status now t =
    if any (same_status status) (allowed t.status)
    then ok (record t { status = status; updated_at = some now })
    else err (
        value_error
          ("Invalid transition from " ++ status_value t.status ++ " to " ++ status_value status))
