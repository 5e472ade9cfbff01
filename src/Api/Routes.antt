-- ===== src/Api/Routes.antt =====
-- src/atlasqueue/api/routes/v1.py. FastAPI calls a handler once the parameters have been validated
-- and the dependency on the caller's credentials has returned.
pub mod Guarded
pub mod Reads
use atlas_queue.Prelude.{ℕ, String, Option, none, some, List, [], ◌∷◌, map}
use atlas_queue.Domain.Exceptions.{Result, ok, err, invalid_task_id_error}
use atlas_queue.Domain.Enums.{TaskStatus}
use atlas_queue.Domain.Task.{TaskId, Instant}
use atlas_queue.Domain.Worker.{Metadata}
use atlas_queue.Persistence.Tasks.{list_tasks, count_tasks}
use atlas_queue.Persistence.Workers.{list_workers}
use atlas_queue.Runtime.Exec.{Exec, ◌>>=◌, ◌>>◌, pure, lift}
use atlas_queue.Runtime.World.{
  Env, World, Settings, emit, redis_call, db_call, queue_depth, workers_active,
}
use atlas_queue.Runtime.Session.{session}
use atlas_queue.Runtime.Container.{worker_repository, queue_backend}
use atlas_queue.Services.QueueManager.{
  SubmitTaskRequest, submit, get_task_or_raise, get_task_events,
  get_admin_stats as admin_statistics,
}
use atlas_queue.Services.WorkerRegistry.{register}
use atlas_queue.System.{post_task, post_cancel, post_retry}
use atlas_queue.Api.Auth.{AuthSettings, Crypto, require_role, verify_api_key_or_jwt}
use atlas_queue.Api.Responses.{
  TaskResponse, TaskListResponse, WorkerResponse, TaskEventResponse, AdminStatsResponse,
  HealthResponse, task_to_response, worker_to_response, task_event_to_response,
}

-- the headers that carry credentials; `bearer` is the text of a bearer token
pub record Credentials : Type 0 where
  pub api_key : Option String
  pub bearer : Option String

-- the query of a listing, once it has been validated
pub record ListQuery : Type 0 where
  pub status : Option TaskStatus
  pub name : Option String
  pub sort_by : String
  pub sort_order : String
  pub limit : ℕ
  pub offset : ℕ

pub record RegisterWorkerRequest : Type 0 where
  pub hostname : String
  pub metadata : Metadata

-- the settings of the services and of the credentials; `uuid` is the constructor `UUID`, which
-- answers `none` where it raises a `ValueError`
pub record Site : Type 0 where
  pub settings : Settings
  pub auth : AuthSettings
  pub crypto : Crypto
  pub uuid : String → Option ℕ

-- `_parse_task_id`
unfoldable pub parse_task_id : Site → String → Result TaskId
parse_task_id site text = elim (site.uuid text) [
  | none ↦ err (invalid_task_id_error text)
  | some id ↦ ok id
]

unfoldable pub health : HealthResponse
health = record { status = "ok"; service = "atlasqueue" }

-- the loop over the gauges of the queues
unfoldable pub set_depths : List (String × ℕ) → Exec World Unit
set_depths [] = pure tt
set_depths ((queue, depth) ∷ depths) = do emit (queue_depth queue depth); set_depths depths

module _ (site : Site) (env : Env) where
  -- a check of credentials, by the clock that PyJWT reads
  unfoldable pub check : {A : Type 0} → (Instant → Result A) → Exec World A
  check f w = (f (env.now w.calls), w)

  -- `Depends(require_role(*roles))`
  unfoldable pub with_role : {A : Type 0} → List String → Credentials → Exec World A → Exec World A
  unfolding check
  with_role roles c body = do
    check (λ at. require_role site.crypto at site.auth roles c.api_key c.bearer)
    body

  -- `Depends(verify_api_key_or_jwt)`
  unfoldable pub with_caller : {A : Type 0} → Credentials → Exec World A → Exec World A
  unfolding check
  with_caller c body = do
    check (λ at. verify_api_key_or_jwt site.crypto at site.auth c.api_key c.bearer)
    body

  unfoldable pub ready : Exec World HealthResponse
  ready = do
    redis_call env (λ at r. (tt, r))
    session env (db_call env (λ db. (ok tt, db)))
    pure (record { status = "ready"; service = "atlasqueue" })

  unfoldable pub submit_task : Credentials → SubmitTaskRequest → Exec World TaskResponse
  unfolding with_role
  submit_task c body =
      with_role ("admin" ∷ "user" ∷ []) c
        (do task ← post_task env site.settings body; pure (task_to_response task))

  unfoldable pub get_task : Credentials → String → Exec World TaskResponse
  unfolding with_caller
  get_task c task_id = with_caller c (do
    id ← lift (parse_task_id site task_id)
    session env (do task ← get_task_or_raise env site.settings id; pure (task_to_response task)))

  unfoldable pub list_tasks_page : Credentials → ListQuery → Exec World TaskListResponse
  unfolding with_caller
  list_tasks_page c q = with_caller c (
      session env (do
        tasks ← list_tasks env q.status q.name q.sort_by q.sort_order q.limit q.offset
        total ← count_tasks env q.status q.name
        pure (record {
          tasks = map task_to_response tasks;
          total = total;
          limit = q.limit;
          offset = q.offset;
        })))

  unfoldable pub cancel_task : Credentials → String → Exec World TaskResponse
  unfolding with_role
  cancel_task c task_id = with_role ("admin" ∷ "user" ∷ []) c (do
    id ← lift (parse_task_id site task_id)
    task ← post_cancel env id
    pure (task_to_response task))

  unfoldable pub retry_task : Credentials → String → Exec World TaskResponse
  unfolding with_role
  retry_task c task_id = with_role ("admin" ∷ []) c (do
    id ← lift (parse_task_id site task_id)
    task ← post_retry env site.settings id
    pure (task_to_response task))

  unfoldable pub get_events : Credentials → String → Exec World (List TaskEventResponse)
  unfolding with_caller
  get_events c task_id = with_caller c (do
    id ← lift (parse_task_id site task_id)
    session env (do
      events ← get_task_events env site.settings id
      pure (map task_event_to_response events)))

  unfoldable pub register_worker : Credentials → RegisterWorkerRequest → Exec World WorkerResponse
  unfolding with_role
  register_worker c request = with_role ("admin" ∷ "worker" ∷ []) c (
      session env (do
        worker ←
            register env (worker_repository env) (queue_backend env site.settings) request.hostname
              request.metadata
        pure (worker_to_response worker)))

  unfoldable pub list_all_workers : Credentials → Exec World (List WorkerResponse)
  unfolding with_caller
  list_all_workers c =
      with_caller c
        (session env (do workers ← list_workers env 100; pure (map worker_to_response workers)))

  unfoldable pub admin_stats : Credentials → Exec World AdminStatsResponse
  unfolding with_role set_depths
  admin_stats c = with_role ("admin" ∷ []) c (
      session env (do
        stats ← admin_statistics env site.settings
        set_depths stats.queue_depths
        emit (workers_active stats.active_workers)
        workers ← list_workers env 100
        pure (record {
          tasks_by_status = stats.tasks_by_status;
          queue_depths = stats.queue_depths;
          active_workers = stats.active_workers;
          workers = map worker_to_response workers;
        })))

-- the requests of the routes that ask for credentials, and what they answer
pub data Request : Type 0 where
  post_tasks : SubmitTaskRequest → Request
  get_tasks_id : String → Request
  get_tasks : ListQuery → Request
  post_tasks_cancel post_tasks_retry : String → Request
  get_tasks_events : String → Request
  post_workers_register : RegisterWorkerRequest → Request
  get_workers get_admin_stats : Request

pub data Reply : Type 0 where
  task_reply : TaskResponse → Reply
  page_reply : TaskListResponse → Reply
  events_reply : List TaskEventResponse → Reply
  worker_reply : WorkerResponse → Reply
  workers_reply : List WorkerResponse → Reply
  stats_reply : AdminStatsResponse → Reply

-- the router
unfoldable pub answer : Site → Env → Credentials → Request → Exec World Reply
unfolding submit_task get_task list_tasks_page cancel_task retry_task get_events register_worker
    list_all_workers admin_stats
answer site env c (post_tasks body) = do r ← submit_task site env c body; pure (task_reply r)
answer site env c (get_tasks_id id) = do r ← get_task site env c id; pure (task_reply r)
answer site env c (get_tasks q) = do r ← list_tasks_page site env c q; pure (page_reply r)
answer site env c (post_tasks_cancel id) = do r ← cancel_task site env c id; pure (task_reply r)
answer site env c (post_tasks_retry id) = do r ← retry_task site env c id; pure (task_reply r)
answer site env c (get_tasks_events id) = do r ← get_events site env c id; pure (events_reply r)
answer site env c (post_workers_register b) = do
  r ← register_worker site env c b
  pure (worker_reply r)
answer site env c get_workers = do r ← list_all_workers site env c; pure (workers_reply r)
answer site env c get_admin_stats = do r ← admin_stats site env c; pure (stats_reply r)
