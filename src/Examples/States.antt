-- ===== src/Examples/States.antt =====
-- The life of a task and its row, at concrete inputs.
use atlas_queue.Prelude.{◌≡◌, ◌≢◌, ◌⊎◌, none, some}
use atlas_queue.Domain.Exceptions.{ok}
use atlas_queue.Domain.Enums.{python, queued, running}
use atlas_queue.Domain.Task.{Task, Fields, normal, transition_to}
use atlas_queue.Domain.Task.Lifecycle.{◌⟶◌, transition_to_iff}

abbrev pub sample : Task
sample = record {
  id = 7;
  name = "echo";
  executor_type = python;
  payload = Fields.end;
  status = queued;
  priority = normal;
  max_retries = 3;
  attempts = 0;
  scheduled_at = none;
  timeout_seconds = 300;
  backoff_policy = none;
  worker_id = none;
  result = none;
  error = none;
  idempotency_key = none;
  created_at = some 10;
  updated_at = none;
  started_at = none;
  finished_at = none;
}

transition_to_iff_example :
    (queued ⟶ running
      × (transition_to running 20 sample
          ≡ ok (record sample { status = running; updated_at = some 20 })))
    ⊎ (¬ (queued ⟶ running) × ((u : Task) → transition_to running 20 sample ≢ ok u))
transition_to_iff_example = transition_to_iff running 20 sample
