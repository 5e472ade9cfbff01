-- ===== src/Examples/Tables.antt =====
-- The tables, the registry of handlers and the webhook's URLs at concrete inputs.
use atlas_queue.Prelude.{◌≡◌, ◌⊎◌, refl, some, List, [], ◌∷◌}
use atlas_queue.Domain.Exceptions.{ok}
use atlas_queue.Domain.Task.{Task, text, end, field}
use atlas_queue.Persistence.Models.{WorkerModel}
use atlas_queue.Runtime.Exec.Ensures.{Post}
use atlas_queue.Runtime.Container.{worker_repository, queue_backend}
use atlas_queue.Services.WorkerRegistry.{register, beat}
use atlas_queue.Domain.Ports.Lawful.{Same, IsLawful}
use atlas_queue.Runtime.Container.Lawful.{workers_of, container-IsLawful}
use atlas_queue.Services.WorkerRegistry.Entries.{Entered, Refreshed, registry_lawful}
use atlas_queue.Runtime.World.{World}
use atlas_queue.Worker.Handlers.{Handler, Registry}
use atlas_queue.Worker.Webhook.{Texts, validate_webhook_url, prepare, get, request_for}
use atlas_queue.Worker.Webhook.Checked.{Unlisted, prepare-Unlisted}
use atlas_queue.Examples.States.{sample}
use atlas_queue.Examples.Queue.{settings}
use atlas_queue.Examples.Services.{calm, one_queued}

abbrev seen : List WorkerModel
seen =
    record {
      id = 1;
      hostname = "a";
      status = "active";
      registered_at = 0;
      last_seen_at = 5000000;
      worker_metadata = [];
    }
    ∷ []

-- with a worker in its table
abbrev staffed : World
staffed = record one_queued { db = record one_queued.db { workers = seen } }

registry_lawful_example :
    Post
      (λ worker v. Entered "b" [] (workers_of staffed) worker (workers_of v))
      (λ _. Unit)
      (register calm (worker_repository calm) (queue_backend calm settings) "b" [] staffed)
    × Post
        (λ _ v. Refreshed 1 (workers_of staffed) (workers_of v))
        (λ v.
          Same (workers_of staffed) (workers_of v)
          ⊎ Refreshed 1 (workers_of staffed) (workers_of v))
        (beat calm (worker_repository calm) (queue_backend calm settings) 1 "b" staffed)
registry_lawful_example =
    registry_lawful calm (worker_repository calm) (queue_backend calm settings) workers_of "b" [] 1
      staffed (container-IsLawful calm settings)

container-IsLawful_example :
    IsLawful (worker_repository calm) (queue_backend calm settings) workers_of
container-IsLawful_example = container-IsLawful calm settings

abbrev echo : Handler
echo = record { call = λ n kwargs. ok (text "hello") }

abbrev registry : Registry
registry = ("add", echo) ∷ []

-- every URL is one of the web, and its host is its text
abbrev texts : Texts
texts = record {
  urlparse = λ url. ok (record { scheme = "https"; hostname = some url });
  lower = λ s. s;
  upper = λ s. s;
  str = λ v. elim v [ text s ↦ s | _ ↦ "" ];
}

abbrev hook : Task
hook = record sample { payload = field "url" (text "example.org") end }

prepared : prepare texts settings hook ≡ ok (request_for texts settings hook "example.org")
unfolding prepare validate_webhook_url get
prepared = refl

prepare-Unlisted_example :
    Unlisted texts settings "example.org" × (hook.timeout_seconds ≡ hook.timeout_seconds)
unfolding get
prepare-Unlisted_example =
    prepare-Unlisted texts settings hook (request_for texts settings hook "example.org") refl
      prepared
