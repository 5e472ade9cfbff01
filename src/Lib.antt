-- ===== src/Lib.antt =====
-- AtlasQueue, a distributed task queue (src/atlasqueue). Clients submit tasks over HTTP; the API
-- keeps a row for each task in Postgres and its id in Redis; workers pop ids and execute the tasks;
-- the leading scheduler releases tasks that are due and repairs what was left behind.
--
-- Parts. Paths are from the repository's root.
-- - Domain: src/atlasqueue/domain, the entities, their states and exceptions. Task, Worker, Enums,
--   Backoff and Exceptions have the source's names, and Task.Lifecycle draws the state machine. Ports has the interfaces of ports/repositories.py, and
--   Ports.Lawful the laws that the registry of workers asks of them.
-- - Persistence: src/atlasqueue/infrastructure/persistence. Models has the tables as lists of rows,
--   Mapping `_to_domain_task` and `_to_model_task`, and Tasks, Events and Workers the repositories.
--   Tasks.Table is the abstract view of tasks, a map from their ids, and Workers.Table that of
--   workers. Schema has the columns of models.py and what they accept, Migrations the revisions of
--   alembic/versions.
-- - Redis: src/atlasqueue/infrastructure/redis/queue_backend.py. State has the keys and the commands
--   on them, Queue `RedisQueueBackend` and Leader `RedisLeaderLock`. Queue.Fifo is the abstract view
--   of the ready lists, the arrivals in their order.
-- - Runtime: what the code runs on. `Exec` is a state that survives an exception; `World` has the
--   database, Redis and the metrics; `Frame` puts beside it the `Task` object that a service
--   mutates; `session` is `Container.session` of
--   src/atlasqueue/infrastructure/di/container.py, and Container the classes that it puts behind the
--   ports. The registry of workers takes its ports, the other services call those classes.
-- - Services: src/atlasqueue/application/services. QueueManager, Cancellation, Scheduler,
--   WorkerRegistry and Inflight are the classes of queue_manager.py, FailureHandler is
--   task_failure_handler.py. Rows has the rules for what a service does to the table of tasks.
-- - Worker: src/atlasqueue/worker/executor/python_executor.py (Executor is `TaskExecutorService`,
--   Handlers the registry and the Python executor),
--   src/atlasqueue/infrastructure/http/webhook_client.py (Webhook), src/atlasqueue/worker/pool.py
--   (Pool, and the heartbeats in Process) and src/atlasqueue/worker/main.py (Process).
-- - Scheduler: src/atlasqueue/scheduler/main.py.
-- - Api: src/atlasqueue/api/middleware/auth.py (Auth), src/atlasqueue/api/routes/auth.py (Login),
--   src/atlasqueue/api/routes/v1.py (Routes), src/atlasqueue/application/dto (Responses, and
--   Requests for the bodies and their constraints),
--   src/atlasqueue/api/errors.py (Errors), and the middleware of
--   src/atlasqueue/api/middleware/request_id.py and
--   src/atlasqueue/infrastructure/observability/metrics.py (Middleware). App is `create_app` of
--   src/atlasqueue/api/main.py, with the routers as tables.
-- - System: the routes of src/atlasqueue/api/routes/v1.py that change tasks, workers and schedulers
--   together, as histories of actions.
-- - Sdk: src/atlasqueue/sdk/client.py. Sdk.Served puts it in front of the routes.
-- - Examples: concrete runs.
--
-- State and calls. A method becomes an action on `World`, or on `Frame` where it mutates a task; a
-- raise keeps what was written before it, as in the source. Redis is written at once, the database
-- when the session commits: other sessions see its tables as a session leaves them. An `Env`
-- answers the clock, `uuid4`, Redis and Postgres by the number of the call. Any call may be served,
-- or raise before or after the server has acted; an environment whose calls fail from some point on
-- is a crash there. Expired keys of Redis are dropped when a command is served.
--
-- Parameters: float arithmetic (`FloatOps`), the size of a payload's text, ILIKE and the collation
-- of Postgres (fields of `Env`), running a handler or a webhook under its timeout (`Executors`, which
-- Worker.Handlers fills), what a handler does (`Handler`), httpx (`HttpClient`), `urlparse` and the
-- functions on texts (`Texts`), PyJWT and bcrypt (`Crypto`), `UUID` of a text (a field of `Site`).
-- The middlewares of slowapi and CORS and the matching of paths are arguments of Api.App, `x >= 1.0`
-- of floats is one of Api.Requests, and `httpx.AsyncClient` (`AsyncClient`) one of Sdk. Only a
-- theorem on login and one on the SDK ask anything of them, in their hypotheses.
--
-- Numbers. A UUID is its 128-bit number, an instant its microseconds, and a priority that has been
-- validated a natural number; the raw priority of a request is an integer. `decimal` in Prelude.Text
-- runs on fuel `n + 1`, enough for the digits of `n`, and `rstrip_slash` in Sdk on as much as the
-- text has bytes, of which each step takes off one. The loops of the scheduler and of the
-- heartbeats take the number of rounds after which the process is stopped; the other loops are over
-- finite lists.
--
-- Not modelled: FastAPI, CORS and the rate limit (src/atlasqueue/api/rate_limit.py), the OpenAPI
-- document, the text of the metrics, pydantic's parsing of JSON and the list of its errors, the
-- constraints of a listing's query, logging and telemetry, the semaphore of the pool, the import of
-- handlers and the frontend: glue, or input and output. The SCAN loop of the Redis backend is one command. Actions run one after the
-- other: sessions that overlap in time are not interleaved. Only the lock of the scheduler may change
-- hands between two commands of one action (`meanwhile` of `Env`).
pub mod Prelude
pub mod Domain
pub mod Persistence
pub mod Redis
pub mod Runtime
pub mod Services
pub mod Worker
pub mod Scheduler
pub mod System
pub mod Api
pub mod Sdk
mod Examples
