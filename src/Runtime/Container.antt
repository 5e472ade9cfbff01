-- ===== src/Runtime/Container.antt =====
-- `Container` of src/atlasqueue/infrastructure/di/container.py: the classes that stand behind the
-- ports. A session is the transaction that the calls to Postgres are part of, and no argument here.
pub mod Lawful
use atlas_queue.Prelude.{String}
use atlas_queue.Domain.Ports.{
  TaskRepository, TaskEventRepository, WorkerRepository, QueueBackend, LeaderLock,
}
use atlas_queue.Persistence.Tasks as Tasks
use atlas_queue.Persistence.Events as Events
use atlas_queue.Persistence.Workers as Workers
use atlas_queue.Redis.Queue as Queue
use atlas_queue.Redis.Leader as Leader
use atlas_queue.Runtime.World.{Env, World, Settings}

module _ (env : Env) where
  -- `SqlAlchemyTaskRepository(session)`
  abbrev pub task_repository : TaskRepository World
  task_repository = record {
    save = Tasks.save env;
    get_by_id = Tasks.get_by_id env;
    get_by_idempotency_key = Tasks.get_by_idempotency_key env;
    list_tasks = Tasks.list_tasks env;
    count_tasks = Tasks.count_tasks env;
    count_by_status = Tasks.count_by_status env;
  }

  -- `SqlAlchemyTaskEventRepository(session)`
  abbrev pub event_repository : TaskEventRepository World
  event_repository = record { append = Events.append env; list_for_task = Events.list_for_task env }

  -- `SqlAlchemyWorkerRepository(session)`
  abbrev pub worker_repository : WorkerRepository World
  worker_repository = record {
    save = Workers.save_worker env;
    get_by_id = Workers.get_worker env;
    list_workers = Workers.list_workers env;
    mark_stale_offline = Workers.mark_stale_offline env;
  }

  abbrev pub leader_lock : (owner_id : String) → LeaderLock World
  leader_lock owner_id = record {
    acquire = Leader.acquire env owner_id;
    renew = Leader.renew env owner_id;
    release = Leader.release env owner_id;
  }

  abbrev pub queue_backend : Settings → QueueBackend World
  queue_backend settings = record {
    enqueue_ready = Queue.enqueue_ready env settings;
    enqueue_scheduled = Queue.enqueue_scheduled env;
    dequeue_ready = Queue.dequeue_ready env settings;
    remove_scheduled = Queue.remove_scheduled env;
    get_due_scheduled = Queue.get_due_scheduled env;
    mark_inflight = Queue.mark_inflight env;
    clear_inflight = Queue.clear_inflight env;
    enqueue_dlq = Queue.enqueue_dlq env;
    dequeue_dlq = Queue.dequeue_dlq env;
    mark_cancelled = Queue.mark_cancelled env;
    is_cancelled = Queue.is_cancelled env;
    clear_cancelled = Queue.clear_cancelled env;
    queue_depths = Queue.queue_depths env settings;
    set_worker_heartbeat = Queue.set_worker_heartbeat env settings;
    get_active_workers = Queue.get_active_workers env;
    get_inflight_task_ids = Queue.get_inflight_task_ids env;
    claim_due_scheduled = Queue.claim_due_scheduled env;
  }
