-- ===== src/Examples/Services.antt =====
-- The services and a worker in a concrete environment.
use atlas_queue.Prelude.{
  ◌≡◌, ◌≢◌, ◌⊎◌, refl, false, none, some, List, [], ◌∷◌, arith, Bool, true, false,
}
use atlas_queue.Prelude.Int.{pos}
use atlas_queue.Domain.Exceptions.{Exc, Result, ok, err, external_error, message}
use atlas_queue.Domain.Task.{Task, aware, Fields, make_priority, create, transition_to}
use atlas_queue.Persistence.Models.{empty_db}
use atlas_queue.Persistence.Mapping.{to_model_task, filled, to_domain_task-to_model_task}
use atlas_queue.Redis.State.{empty_redis, expire_keys, zadd, zrem}
use atlas_queue.Runtime.Exec.Ensures.{Post}
use atlas_queue.Runtime.World.{Env, World, served, now, uuid4, db_call, redis_do, redis_call, emit}
use atlas_queue.Services.QueueManager.{
  SubmitTaskRequest, submit, find_existing, submit_fresh, submit_new, enqueue, enqueue_failure,
}
use atlas_queue.Services.QueueManager.Placed.{Placed, submit_fresh-Placed}
use atlas_queue.Services.QueueManager.Delayed.{submit_delayed}
use atlas_queue.Services.Inflight.{reconcile}
use atlas_queue.Runtime.ReadOnly.{SameQueues}
use atlas_queue.Services.Rows.Quiet.{Quiet}
use atlas_queue.Worker.Executor.{Executors}
use atlas_queue.Worker.Pool.{process_task}
use atlas_queue.Worker.Pool.Commits.{process_task-Quiet}
use atlas_queue.Domain.Enums.{parse_executor}
use atlas_queue.Runtime.Frame.{Frame, with_task, on_world, transition}
use atlas_queue.Services.Cancellation.{cancel_found}
use atlas_queue.Services.Cancellation.Allowed.{Final, Cancelled, cancel_found-Cancelled}
use atlas_queue.Services.Scheduler.{process_due_tasks}
use atlas_queue.Services.Scheduler.Ignores.{
  NoneScheduled, SameReady, process_due_tasks-NoneScheduled,
}
use atlas_queue.System.{Action, request_task, work, schedule, join, beats, history}
use atlas_queue.System.{post_task}
use atlas_queue.System.Rollback.{post_task-Rollback}
use atlas_queue.Runtime.Exec.{◌>>=◌, try_except, pure, raise, lift, gets}
use atlas_queue.Persistence.Tasks.{save, save_row, insert_row, or_now, assign, update_row}
use atlas_queue.Persistence.Events.{append}
use atlas_queue.Redis.Queue.{enqueue_scheduled, enqueue_ready, clamp_priority}
use atlas_queue.System.Readable.{Sound, history-Sound}
use atlas_queue.System.Stuck.{reconcile-history}
use atlas_queue.Examples.States.{sample}
use atlas_queue.Examples.Queue.{settings}

-- every call is served at the instant 20
abbrev pub calm : Env
calm = record {
  now = λ n. 20;
  uuid4 = λ n. 100;
  fault = λ n. served;
  meanwhile = λ n l. l;
  floats = record { pow = λ f n. none; mul = λ n f. none; trunc = λ f. none };
  payload_size = λ p. 2;
  ilike = λ c p. false;
  collate_le = λ a b. false;
}

abbrev pub failing : Executors
failing = record {
  execute_python = λ n t. err (external_error "boom");
  execute_webhook = λ n t. err (external_error "boom");
}

abbrev pub one_queued : World
one_queued = record {
  db = record empty_db { tasks = to_model_task 1 2 sample ∷ [] };
  redis = record empty_redis {
    inflight = record { task_id = 7; worker_id = "w"; started_at = 1; expires_at = none } ∷ [];
  };
  metrics = [];
  calls = 0;
}

abbrev pub request : SubmitTaskRequest
request = record {
  name = "echo";
  executor_type = "python";
  payload = Fields.end;
  priority = pos 1;
  scheduled_at = some (aware 50);
  max_retries = 3;
  timeout_seconds = 300;
  backoff_policy = none;
  idempotency_key = none;
}

abbrev pub at_once : SubmitTaskRequest
at_once = record request { scheduled_at = none }

abbrev is_ok : {A : Type 0} → Result A → Bool
is_ok (ok a) = true
is_ok (err e) = false

submitted : is_ok (submit_fresh calm settings at_once one_queued).0 ≡ true
unfolding to_model_task submit find_existing submit_fresh submit_new enqueue enqueue_failure ◌>>=◌
    try_except pure raise lift gets parse_executor make_priority create transition_to now uuid4
    db_call redis_do redis_call emit with_task on_world transition save save_row insert_row or_now
    assign update_row append enqueue_scheduled expire_keys zadd zrem message enqueue_ready
    clamp_priority
submitted = refl

submit_fresh-Placed_example :
    Post (Placed calm settings) (λ _. Unit) (submit_fresh calm settings at_once one_queued)
submit_fresh-Placed_example = submit_fresh-Placed calm settings at_once one_queued

submit_delayed_example : (submit calm settings request one_queued).0 ≢ ok sample
unfolding submit
submit_delayed_example =
    submit_delayed calm settings request 50 one_queued (λ n. omega arith) refl refl sample

one_queued-Quiet : Quiet one_queued.db.tasks
unfolding to_model_task
one_queued-Quiet = refl

process_task-Quiet_example : Quiet (process_task calm failing "w" 7 one_queued).1.db.tasks
process_task-Quiet_example = process_task-Quiet calm failing "w" 7 one_queued one_queued-Quiet

-- the task is waiting for its retry
abbrev waiting_retry : World
waiting_retry = record one_queued { redis = record empty_redis { scheduled = (15, 7) ∷ [] } }

waiting_retry-NoneScheduled : NoneScheduled waiting_retry.db.tasks
unfolding to_model_task
waiting_retry-NoneScheduled = refl

process_due_tasks-NoneScheduled_example :
    Post
      (λ n v. (n ≡ 0) × SameReady waiting_retry v)
      (SameReady waiting_retry)
      (process_due_tasks calm settings waiting_retry)
process_due_tasks-NoneScheduled_example =
    process_due_tasks-NoneScheduled calm settings waiting_retry waiting_retry-NoneScheduled

abbrev actions : List (Env × Action)
actions =
    (calm, request_task request)
    ∷ (calm, work failing "w")
    ∷ (calm, schedule "s" 2)
    ∷ (calm, join none "host")
    ∷ (calm, beats 1 0 "host")
    ∷ []

reconcile-history_example :
    let w = history settings actions one_queued in
    Post (λ n v. (n ≡ 0) × SameQueues w v) (SameQueues w) (reconcile calm w)
reconcile-history_example = reconcile-history settings actions one_queued calm one_queued-Quiet

one_queued-Sound : Sound one_queued.db.tasks
one_queued-Sound = (((filled 1 2 sample, to_domain_task-to_model_task 1 2 sample), tt), (refl, tt))

history-Sound_example : Sound (history settings actions one_queued).db.tasks
history-Sound_example = history-Sound settings actions one_queued one_queued-Sound

abbrev sample_frame : Frame
sample_frame = record { task = sample; world = one_queued }

cancel_found-Cancelled_example :
    (Final sample.status × (e : Exc) × (cancel_found calm sample_frame ≡ (err e, sample_frame)))
    ⊎ (¬ Final sample.status
        × Post (Cancelled sample_frame) (λ _. Unit) (cancel_found calm sample_frame))
cancel_found-Cancelled_example = cancel_found-Cancelled calm sample_frame

post_task-Rollback_example :
    ((t : Task) → (post_task calm settings request one_queued).0 ≢ ok t)
    × ((post_task calm settings request one_queued).1.db ≡ one_queued.db)
post_task-Rollback_example =
    post_task-Rollback calm settings request 50 one_queued (λ n. omega arith) refl refl
