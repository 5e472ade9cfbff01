-- ===== src/Domain/Enums.antt =====
-- src/atlasqueue/domain/value_objects/enums.py: the string enumerations, and their values as texts.
use atlas_queue.Prelude.{arith, eq_iff, Bool, true, false, String, str_eq, if◌then◌else◌, ◌≡◌, refl}
use atlas_queue.Domain.Exceptions.{Result, ok, err, value_error}

pub data TaskStatus : Type 0 where
  pending scheduled queued running completed failed cancelled dead_letter enqueue_failed :
      TaskStatus

pub data ExecutorType : Type 0 where
  python webhook : ExecutorType

pub data WorkerStatus : Type 0 where
  active idle offline : WorkerStatus

-- `status.value`, which is also how an f-string prints it
abbrev pub status_value : TaskStatus → String
status_value pending = "pending"
status_value scheduled = "scheduled"
status_value queued = "queued"
status_value running = "running"
status_value completed = "completed"
status_value failed = "failed"
status_value cancelled = "cancelled"
status_value dead_letter = "dead_letter"
status_value enqueue_failed = "enqueue_failed"

-- `TaskStatus(text)`
unfoldable pub parse_status : String → Result TaskStatus
parse_status s =
    if str_eq s "pending"
    then ok pending
    else if str_eq s "scheduled"
    then ok scheduled
    else if str_eq s "queued"
    then ok queued
    else if str_eq s "running"
    then ok running
    else if str_eq s "completed"
    then ok completed
    else if str_eq s "failed"
    then ok failed
    else if str_eq s "cancelled"
    then ok cancelled
    else if str_eq s "dead_letter"
    then ok dead_letter
    else if str_eq s "enqueue_failed"
    then ok enqueue_failed
    else err (value_error "not a valid TaskStatus")

pub parse_status-status_value : (s : TaskStatus) → parse_status (status_value s) ≡ ok s
unfolding parse_status
parse_status-status_value pending = refl
parse_status-status_value _ = refl

-- a status is parsed from its own text only
pub parse_status-ok : (s : String) (x : TaskStatus) → parse_status s ≡ ok x → s ≡ status_value x
unfolding parse_status
parse_status-ok s x h = ground (
  arith,
  eq_iff s "pending",
  eq_iff s "scheduled",
  eq_iff s "queued",
  eq_iff s "running",
  eq_iff s "completed",
  eq_iff s "failed",
  eq_iff s "cancelled",
  eq_iff s "dead_letter",
  eq_iff s "enqueue_failed",
)

-- `a == b`
abbrev pub same_status : TaskStatus → TaskStatus → Bool
same_status pending pending = true
same_status scheduled scheduled = true
same_status queued queued = true
same_status running running = true
same_status completed completed = true
same_status failed failed = true
same_status cancelled cancelled = true
same_status dead_letter dead_letter = true
same_status enqueue_failed enqueue_failed = true
same_status _ _ = false

abbrev pub executor_value : ExecutorType → String
executor_value python = "python"
executor_value webhook = "webhook"

unfoldable pub parse_executor : String → Result ExecutorType
parse_executor s =
    if str_eq s "python"
    then ok python
    else if str_eq s "webhook"
    then ok webhook
    else err (value_error "not a valid ExecutorType")

pub parse_executor-executor_value : (e : ExecutorType) → parse_executor (executor_value e) ≡ ok e
unfolding parse_executor
parse_executor-executor_value python = refl
parse_executor-executor_value _ = refl

abbrev pub worker_status_value : WorkerStatus → String
worker_status_value active = "active"
worker_status_value idle = "idle"
worker_status_value offline = "offline"

unfoldable pub parse_worker_status : String → Result WorkerStatus
parse_worker_status s =
    if str_eq s "active"
    then ok active
    else if str_eq s "idle"
    then ok idle
    else if str_eq s "offline"
    then ok offline
    else err (value_error "not a valid WorkerStatus")

pub parse_worker_status-worker_status_value :
    (s : WorkerStatus) → parse_worker_status (worker_status_value s) ≡ ok s
unfolding parse_worker_status
parse_worker_status-worker_status_value active = refl
parse_worker_status-worker_status_value _ = refl
