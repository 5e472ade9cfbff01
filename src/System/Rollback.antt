-- ===== src/System/Rollback.antt =====
-- What a request for a later time leaves in the database.
use atlas_queue.Prelude.{ℕ, ◌<◌, ◌≡◌, ◌≢◌, refl, false, some}
use atlas_queue.Prelude.Text.{truthy}
use atlas_queue.Domain.Exceptions.{Result, ok, err}
use atlas_queue.Domain.Task.{Task, Instant, aware}
use atlas_queue.Persistence.Models.{Db}
use atlas_queue.Runtime.World.{Env, World, Settings}
use atlas_queue.Runtime.Session.{session, end_session}
use atlas_queue.Services.QueueManager.{SubmitTaskRequest, submit}
use atlas_queue.Services.QueueManager.Delayed.{submit_delayed}
use atlas_queue.System.{post_task}

rolled_back :
    {A : Type 0} (before : Db) (env : Env) (r : Result A × World)
    → ((a : A) → r.0 ≢ ok a)
    → ((a : A) → (end_session before env r).0 ≢ ok a) × ((end_session before env r).1.db ≡ before)
rolled_back before env (ok a, v) never = absurd (never a refl)
rolled_back before env (err e, v) never = (λ a. cc, refl)

-- A request for a later time, without an idempotency key, is never answered with a task, whatever
-- the calls to Redis and Postgres do, as long as the clock has not reached that time; and the
-- database is then as it was before the request: there is no row of the task, ENQUEUE_FAILED or
-- otherwise, and no event, although `submit` saves both.
pub post_task-Rollback :
    (env : Env) (s : Settings) (body : SubmitTaskRequest) (due : Instant) (w : World)
    → ((n : ℕ) → env.now n < due)
    → body.scheduled_at ≡ some (aware due)
    → truthy body.idempotency_key ≡ false
    → ((t : Task) → (post_task env s body w).0 ≢ ok t) × ((post_task env s body w).1.db ≡ w.db)
unfolding post_task session
post_task-Rollback env s body due w early later keyless =
    rolled_back w.db env (submit env s body w) (submit_delayed env s body due w early later keyless)
