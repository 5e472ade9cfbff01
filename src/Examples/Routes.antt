-- ===== src/Examples/Routes.antt =====
-- Requests, and the services behind them, at concrete inputs.
use atlas_queue.Prelude.{◌≡◌, refl, none, some, arith}
use atlas_queue.Domain.Enums.{dead_letter, scheduled, python, parse_executor}
use atlas_queue.Prelude.Int.{pos}
use atlas_queue.Domain.Exceptions.{ok}
use atlas_queue.Domain.Task.{Task, make_priority}
use atlas_queue.Persistence.Mapping.{to_model_task}
use atlas_queue.Runtime.Exec.Ensures.{Post}
use atlas_queue.Runtime.World.{World}
use atlas_queue.Runtime.ReadOnly.{SameQueues}
use atlas_queue.Runtime.Frame.{Frame}
use atlas_queue.Services.QueueManager.{submit, retry_found}
use atlas_queue.Services.QueueManager.Placed.{Placed}
use atlas_queue.Services.QueueManager.Served.{submit-Returns}
use atlas_queue.Services.QueueManager.Served.Steps.{Free}
use atlas_queue.Services.QueueManager.Retried.{Retried, retry_found-Retried}
use atlas_queue.Services.Scheduler.{process_due}
use atlas_queue.Services.Scheduler.Releases.{Processed, process_due-Processed}
use atlas_queue.Api.Routes.{Site, Credentials, ListQuery, answer, get_workers, post_tasks_retry}
use atlas_queue.Api.Routes.Guarded.{Guarded, Allows, answer-Guarded}
use atlas_queue.Api.Routes.Reads.{answer-SameQueues}
use atlas_queue.Examples.States.{sample}
use atlas_queue.Examples.Queue.{settings}
use atlas_queue.Examples.Services.{calm, one_queued, at_once}
use atlas_queue.Examples.Api.{crypto, auth_settings}

abbrev pub site : Site
site = record { settings = settings; auth = auth_settings; crypto = crypto; uuid = λ text. some 7 }

-- a token for the role of a user
abbrev pub ann : Credentials
ann = record { api_key = none; bearer = some "ann" }

answer-Guarded_example :
    Guarded site calm ann one_queued
      (Allows (post_tasks_retry "7"))
      (answer site calm ann (post_tasks_retry "7"))
answer-Guarded_example = answer-Guarded site calm ann (post_tasks_retry "7") one_queued

answer-SameQueues_example :
    Post
      (λ _. SameQueues one_queued)
      (SameQueues one_queued)
      (answer site calm ann get_workers one_queued)
answer-SameQueues_example = answer-SameQueues site calm ann get_workers one_queued tt

abbrev first_page : ListQuery
first_page = record {
  status = none;
  name = none;
  sort_by = "created_at";
  sort_order = "desc";
  limit = 50;
  offset = 0;
}

python_parsed : parse_executor "python" ≡ ok python
unfolding parse_executor
python_parsed = refl

priority_checked : make_priority (pos 1) ≡ ok (record { value = 1 })
unfolding make_priority
priority_checked = refl

uuid-Free : Free 100 none one_queued.db.tasks
unfolding to_model_task
uuid-Free = refl

submit-Returns_example :
    (t : Task) × (v : World) × (submit calm settings at_once one_queued ≡ (ok t, v))
    × Placed calm settings t v
submit-Returns_example =
    submit-Returns calm settings at_once python (record { value = 1 }) none one_queued (λ n. refl)
      (omega arith) python_parsed priority_checked refl (λ n. refl) (λ n. uuid-Free)

abbrev delayed : Task
delayed = record sample { status = scheduled; scheduled_at = some 15 }

process_due-Processed_example :
    Post
      (Processed calm settings 0 (some delayed) one_queued)
      (λ _. Unit)
      (process_due calm settings 0 (some delayed) one_queued)
process_due-Processed_example = process_due-Processed calm settings 0 (some delayed) one_queued

abbrev dead : Frame
dead = record {
  task = record sample { status = dead_letter; attempts = 3; error = some "boom" };
  world = one_queued;
}

retry_found-Retried_example :
    Post (Retried calm settings dead.task) (λ _. Unit) (retry_found calm settings dead)
retry_found-Retried_example = retry_found-Retried calm settings dead
