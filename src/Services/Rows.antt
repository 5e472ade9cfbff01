-- ===== src/Services/Rows.antt =====
-- What the steps of a service do to its task object and to the table of tasks. `On X` says `X` of
-- the object of the frame and the table, and leaves the rest of the world open.
pub mod Quiet
pub mod Sessions
pub mod Calm
pub mod Kept
use atlas_queue.Prelude.{◌≡◌, refl, ℕ, arith, some, List, String, Option, ◌++◌, ◌∷◌, []}
use atlas_queue.Domain.Exceptions.{Exc, Result, ok, err}
use atlas_queue.Domain.Enums.{TaskStatus}
use atlas_queue.Domain.Task.{Task, Instant, transition_to}
use atlas_queue.Domain.Worker.{Metadata}
use atlas_queue.Persistence.Models.{TaskModel, Db}
use atlas_queue.Persistence.Tasks.{save}
use atlas_queue.Persistence.Tasks.Saved.{Saved, At, save-Saved}
use atlas_queue.Persistence.Events.{append}
use atlas_queue.Redis.State.{Redis}
use atlas_queue.Runtime.Exec.{Exec, pure, raise, lift, gets, ◌>>=◌}
use atlas_queue.Runtime.Exec.Ensures.{Post, Ensures, Ensures-bind}
use atlas_queue.Runtime.World.{
  Env, World, Metric, now, uuid4, emit, db_call, redis_call, redis_do, Fault, served, lost_request,
  lost_reply,
}
use atlas_queue.Runtime.World.Calls.{answered, Ensures-db_call, Ensures-redis_call}
use atlas_queue.Runtime.Frame.{Frame, on_world, with_task, update, transition}

abbrev pub View : Type 1
View = Task → List TaskModel → Type 0

abbrev pub On : View → Frame → Type 0
On X f = X f.task f.world.db.tasks

-- an action that leaves the table of tasks alone, however it ends
pub record KeepsTasks {A : Type 0} (m : Exec World A) : Type 0 where
  pub at : (rows : List TaskModel) → Ensures (At rows) m (λ _. At rows) (At rows)

module _ (env : Env) where
  pub KeepsTasks-now : KeepsTasks (now env)
  unfolding now
  KeepsTasks-now = record { at = λ rows. record { at = λ w h. h } }

  pub KeepsTasks-uuid4 : KeepsTasks (uuid4 env)
  unfolding uuid4
  KeepsTasks-uuid4 = record { at = λ rows. record { at = λ w h. h } }

  pub KeepsTasks-redis_call :
      {A : Type 0} (f : Instant → Redis → A × Redis) → KeepsTasks (redis_call env f)
  KeepsTasks-redis_call f = record {
    at = λ rows. Ensures-redis_call env f (λ w at h. (h, h)) (λ w h. h);
  }

  pub KeepsTasks-redis_do : (f : Instant → Redis → Redis) → KeepsTasks (redis_do env f)
  unfolding redis_do
  KeepsTasks-redis_do f = KeepsTasks-redis_call (λ at r. (tt, f at r))

pub KeepsTasks-emit : (m : Metric) → KeepsTasks (emit m)
unfolding emit
KeepsTasks-emit m = record { at = λ rows. record { at = λ w h. h } }

module _ {A B : Type 0} where
  pub KeepsTasks-bind :
      (m : Exec World A) (k : A → Exec World B)
      → KeepsTasks m
      → ((a : A) → KeepsTasks (k a))
      → KeepsTasks (m >>= k)
  KeepsTasks-bind m k hm hk = record {
    at = λ rows. Ensures-bind m k (hm.at rows) (λ a. (hk a).at rows);
  }

pub KeepsTasks-append :
    (env : Env) (id : ℕ) (event : String) (from to : Option TaskStatus) (message : Option String)
    (metadata : Metadata)
    → KeepsTasks (append env id event from to message metadata)
unfolding append
KeepsTasks-append env id event from to message metadata =
    KeepsTasks-bind _ _ (KeepsTasks-uuid4 env) λ _.
      KeepsTasks-bind _ _ (KeepsTasks-now env)
        λ _. record { at = λ rows. Ensures-db_call env _ (λ w h. h) (λ w h. h) }

module _ (X E : View) where
  -- a step that leaves the object and the table alone
  pub step_keep :
      {A : Type 0} (m : Exec World A)
      → KeepsTasks m
      → ((t : Task) (rows : List TaskModel) → X t rows → E t rows)
      → Ensures (On X) (on_world m) (λ _. On X) (On E)
  unfolding on_world
  step_keep m h e = record {
    at =
        λ f x. kept f.task f.world.db.tasks (m f.world) ((h.at f.world.db.tasks).at f.world refl) x;
  }
    where
      kept :
          {A : Type 0} (t : Task) (rows : List TaskModel) (r : Result A × World)
          → Post (λ _. At rows) (At rows) r
          → X t rows
          → Post (λ _. On X) (On E) (r.0, record { task = t; world = r.1 })
      kept t rows (ok a, w) p x = rw p x
      kept t rows (err _, w) p x = rw p (e t rows x)

module _ (X Y E : View) where
  pub step_update :
      (g : Task → Task)
      → ((t : Task) (rows : List TaskModel) → X t rows → Y (g t) rows)
      → Ensures (On X) (update g) (λ _. On Y) (On E)
  unfolding update
  step_update g h = record { at = λ f x. h f.task f.world.db.tasks x }

  pub step_transition :
      (env : Env) (s : TaskStatus)
      → ((t : Task) (rows : List TaskModel) (at : Instant)
          → X t rows
          → Y (record t { status = s; updated_at = some at }) rows)
      → ((t : Task) (rows : List TaskModel) → X t rows → E t rows)
      → Ensures (On X) (transition env s) (λ _. On Y) (On E)
  unfolding transition transition_to
  step_transition env s h e = record {
    at = λ f x.
        ground
          (arith, h f.task f.world.db.tasks (env.now f.world.calls) x, e f.task f.world.db.tasks x);
  }

  pub step_save :
      (env : Env) (u : Task)
      → ((t : Task) (rows rows' : List TaskModel) → X t rows → Saved u rows rows' → Y t rows')
      → ((t : Task) (rows : List TaskModel) → X t rows → E t rows)
      → Ensures (On X) (on_world (save env u)) (λ _. On Y) (On E)
  unfolding on_world
  step_save env u h e = record {
    at = λ f x.
        saved f.task f.world.db.tasks (save env u f.world)
          ((save-Saved env u f.world.db.tasks).at f.world refl) x;
  }
    where
      saved :
          (t : Task) (rows : List TaskModel) (r : Result (Unit {0}) × World)
          → Post (λ _ w. Saved u rows w.db.tasks) (At rows) r
          → X t rows
          → Post (λ _. On Y) (On E) (r.0, record { task = t; world = r.1 })
      saved t rows (ok _, w) p x = h t rows w.db.tasks x p
      saved t rows (err _, w) p x = rw p (e t rows x)

-- reads the object, which the rest of the block may rely on
pub step_read :
    (X E : View) {B : Type 0} {Q : B → Frame → Type 0} (k : Task → Exec Frame B)
    → ((u : Task) → Ensures (On (λ t rows. (t ≡ u) × X t rows)) (k u) Q (On E))
    → Ensures (On X) (gets (λ f. f.task) >>= k) Q (On E)
unfolding ◌>>=◌ gets
step_read X E k h = record { at = λ f x. (h f.task).at f (refl, x) }
