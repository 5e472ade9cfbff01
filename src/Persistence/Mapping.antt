-- ===== src/Persistence/Mapping.antt =====
-- `_to_domain_task` and `_to_model_task` of src/atlasqueue/infrastructure/persistence/repositories.py.
use atlas_queue.Prelude.{◌≡◌, Option, none, some}
use atlas_queue.Prelude.Int.{pos}
use atlas_queue.Domain.Exceptions.{Result, ok, ◌>>=◌}
use atlas_queue.Domain.Enums.{
  parse_status, status_value, parse_executor, executor_value, parse_status-status_value,
  parse_executor-executor_value,
}
use atlas_queue.Domain.Backoff.{BackoffPolicy, default_policy}
use atlas_queue.Domain.Task.{Task, Instant, make_priority, policy_or_default}
use atlas_queue.Persistence.Models.{TaskModel, BackoffColumn}

-- `data.get(key, default)`
abbrev pub get_or {ℓ} : {A : Type ℓ} → Option A → A → A
get_or none d = d
get_or (some a) d = a

unfoldable pub to_domain_policy : BackoffColumn → BackoffPolicy
to_domain_policy data_ = record {
  strategy = get_or data_.strategy "fixed";
  base_delay_seconds = get_or data_.base_delay_seconds 5;
  max_delay_seconds = get_or data_.max_delay_seconds 300;
  multiplier = get_or data_.multiplier default_policy.multiplier;
}

unfoldable pub to_domain_task : TaskModel → Result Task
unfolding to_domain_policy
to_domain_task model = do
  executor_type ← parse_executor model.executor_type
  status ← parse_status model.status
  priority ← make_priority model.priority
  ok (record {
    id = model.id;
    name = model.name;
    executor_type = executor_type;
    payload = model.payload;
    status = status;
    priority = priority;
    max_retries = model.max_retries;
    attempts = model.attempts;
    scheduled_at = model.scheduled_at;
    timeout_seconds = model.timeout_seconds;
    backoff_policy = some (to_domain_policy model.backoff_policy);
    worker_id = model.worker_id;
    result = model.result;
    error = model.error;
    idempotency_key = model.idempotency_key;
    created_at = some model.created_at;
    updated_at = some model.updated_at;
    started_at = model.started_at;
    finished_at = model.finished_at;
  })

unfoldable pub to_model_policy : Option BackoffPolicy → BackoffColumn
to_model_policy p =
    let policy = policy_or_default p in
    record {
      strategy = some policy.strategy;
      base_delay_seconds = some policy.base_delay_seconds;
      max_delay_seconds = some policy.max_delay_seconds;
      multiplier = some policy.multiplier;
    }

-- with the instants that stand for a missing `created_at` and `updated_at`
unfoldable pub to_model_task : (created updated : Instant) → Task → TaskModel
unfolding to_model_policy
to_model_task created updated task = record {
  id = task.id;
  name = task.name;
  executor_type = executor_value task.executor_type;
  payload = task.payload;
  status = status_value task.status;
  priority = pos task.priority.value;
  scheduled_at = task.scheduled_at;
  attempts = task.attempts;
  max_retries = task.max_retries;
  timeout_seconds = task.timeout_seconds;
  backoff_policy = to_model_policy task.backoff_policy;
  worker_id = task.worker_id;
  result = task.result;
  error = task.error;
  idempotency_key = task.idempotency_key;
  created_at = get_or task.created_at created;
  updated_at = get_or task.updated_at updated;
  started_at = task.started_at;
  finished_at = task.finished_at;
}

-- what a task reads like after a round trip: the defaults are filled in
abbrev pub filled : (created updated : Instant) → Task → Task
filled created updated task = record task {
  backoff_policy = some (policy_or_default task.backoff_policy);
  created_at = some (get_or task.created_at created);
  updated_at = some (get_or task.updated_at updated);
}

-- Reading back the row of a task gives the task, with a missing backoff policy, creation time or
-- update time filled in by the default policy and the instants of the writing.
pub to_domain_task-to_model_task :
    (created updated : Instant) (task : Task)
    → to_domain_task (to_model_task created updated task) ≡ ok (filled created updated task)
unfolding to_domain_task to_model_task make_priority
to_domain_task-to_model_task created updated task =
    rw (parse_executor-executor_value, parse_status-status_value)
