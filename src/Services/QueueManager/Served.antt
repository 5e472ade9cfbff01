-- ===== src/Services/QueueManager/Served.antt =====
-- The submission of a new task where every call is served.
pub mod Steps
use atlas_queue.Prelude.{
  ℕ, ◌≤◌, ◌≡◌, ◌≢◌, refl, false, ◌||◌, String, Option, none, some, List, [], ◌∷◌, any, keep, suc,
  arith, inl, inr, Bool-cases, le→ltb, ◌==◌,
}
use atlas_queue.Prelude.Text.{truthy}
use atlas_queue.Domain.Exceptions.{Result, ok, err}
use atlas_queue.Domain.Enums.{TaskStatus, ExecutorType, pending, queued, parse_executor}
use atlas_queue.Domain.Task.{
  Task, TaskId, Instant, Priority, comparable, created, create, transition_to, is_later,
  make_priority,
}
use atlas_queue.Persistence.Models.{TaskModel}
use atlas_queue.Persistence.Mapping.{to_model_task}
use atlas_queue.Persistence.Tasks.{
  row_of, same_key, save, save_row, insert_row, or_now, get_by_idempotency_key, optional_task,
}
use atlas_queue.Persistence.Tasks.Saved.{At}
use atlas_queue.Redis.Queue.{enqueue_ready}
use atlas_queue.Runtime.Exec.{Exec, ◌>>=◌, lift, pure, gets}
use atlas_queue.Runtime.Exec.Ensures.{
  Post, Ensures-bind, Ensures-if, Ensures-pure, Ensures-try_except, Ensures-weaken,
}
use atlas_queue.Runtime.World.{Env, World, Settings, served, tick, now, uuid4}
use atlas_queue.Runtime.World.Served.{
  Returns, Total, Returns-and, Returns-db_call, Total-emit, Total-append, Total-redis_do,
}
use atlas_queue.Runtime.Frame.{Frame, on_world, with_task, transition}
use atlas_queue.Runtime.Frame.Rules.{Ensures-read}
use atlas_queue.Services.Rows.{
  View, On, KeepsTasks, KeepsTasks-redis_do, KeepsTasks-append, step_keep, step_transition,
  step_save, step_read,
}
use atlas_queue.Services.QueueManager.{
  SubmitTaskRequest, new_task, enqueue, submit_new, submit_fresh, find_existing, submit,
  existing_or,
}
use atlas_queue.Services.QueueManager.Queued.{HasRow, Saved-HasRow}
use atlas_queue.Services.QueueManager.Placed.{Placed, submit_fresh-Placed}
use atlas_queue.Services.QueueManager.Served.Steps.{
  Free, Present, Savable, HasRow-Present, Total_on_world, step-Total, save-Returns, none_found,
}

module _ (env : Env) (all_served : (n : ℕ) → env.fault n ≡ served) where
  -- the object before and after its row is there
  abbrev Waiting : Task → Type 0
  Waiting t = (t.status ≡ pending) × ((n : ℕ) → is_later t.scheduled_at (env.now n) ≡ false)

  abbrev New : View
  New t rows = Waiting t × Free t.id t.idempotency_key rows

  abbrev Stored : View
  Stored t rows = Waiting t × Present t.id rows

  abbrev Listed : View
  Listed t rows = Present t.id rows

  first_save :
      (u : Task)
      → Returns (On (λ t rows. (t ≡ u) × New t rows)) (on_world (save env u)) (λ _. On Stored)
  first_save u =
      Returns-and _
        (step_save (λ t rows. (t ≡ u) × New t rows) Stored (λ _ _. Unit) env u
          (λ t rows rows' x saved.
            (x.1.0, rw x.0 (HasRow-Present u.id u.status rows' (Saved-HasRow u rows rows' saved))))
          (λ t rows x. tt))
        (Total_on_world _
          (λ f x. (save-Returns env all_served u).at f.world (λ _. rw x.0 at x.1.1)))

  second_save :
      (u : Task)
      → Returns (On (λ t rows. (t ≡ u) × Listed t rows)) (on_world (save env u)) (λ _ _. Unit)
  second_save u =
      Total_on_world _
        (λ f x. (save-Returns env all_served u).at f.world (λ e. absurd (x.1 (rw x.0 e))))

  read_clock :
      Returns
        (On Stored)
        (on_world (now env))
        (λ at. On (λ t rows. (is_later t.scheduled_at at ≡ false) × Stored t rows))
  unfolding on_world now
  read_clock = record { at = λ f x. (x.0.1 f.world.calls, x) }

  moves : Returns (On Stored) (transition env queued) (λ _ _. Unit)
  unfolding transition transition_to
  moves = record { at = λ f x. rw x.0.0 tt }

  to_queued : Returns (On Stored) (transition env queued) (λ _. On Listed)
  to_queued =
      Returns-and _
        (step_transition Stored Listed (λ _ _. Unit) env queued (λ t rows at x. x.1)
          (λ t rows x. tt))
        moves

  forget :
      {A : Type 0} (X : View) (u : Task) (m : Exec World A)
      → KeepsTasks m
      → Total m
      → Returns (On (λ t rows. (t ≡ u) × X t rows)) (on_world m) (λ _. On X)
  forget X u m keeps total =
      Ensures-weaken _ (step-Total X m keeps total) (λ f x. x.1) (λ _ f x. x) (λ f x. x)

  enqueue-Returns : (settings : Settings) → Returns (On Stored) (enqueue env settings) (λ _ _. Unit)
  unfolding enqueue enqueue_ready
  enqueue-Returns settings = Ensures-bind _ _ read_clock λ at. Ensures-read _ λ u.
      Ensures-bind {R = λ _. On Listed} _ _
        (Ensures-if (is_later u.scheduled_at at) _ _
          (λ later. record { at = λ f x. absurd (cc (rw x.0 at x.1.0)) })
          (λ _.
            Ensures-bind _ _
              (Ensures-weaken _
                (step-Total Stored _ (KeepsTasks-redis_do env _) (Total-redis_do env all_served _))
                (λ f x. x.1.1) (λ _ f x. x) (λ f x. x))
              λ _. to_queued))
        λ _.
          step_read Listed (λ _ _. ⊥) _
            λ v. Ensures-bind _ _ (second_save v) λ _.
              Total_on_world _ (λ f x. (Total-append env all_served v.id _ _ _ _ _).at f.world tt)

  submit_new-Returns :
      (settings : Settings) → Returns (On New) (submit_new env settings) (λ _ _. Unit)
  unfolding submit_new gets
  submit_new-Returns settings =
      step_read New (λ _ _. ⊥) _
        λ t. Ensures-bind _ _ (first_save t) λ _.
          Ensures-bind _ _
            (step-Total Stored _ (KeepsTasks-append env _ _ _ _ _ _)
              (Total-append env all_served t.id _ _ _ _ _))
            λ _.
              Ensures-bind {R = λ _ _. Unit} _ _
                (Ensures-try_except {E' = λ _. ⊥} _ _ (enqueue-Returns settings)
                  (λ exc. record { at = λ f x. absurd x }))
                λ _.
                  Ensures-bind {R = λ _ _. Unit} _ _
                    (Total_on_world _ (λ f x. (Total-emit _).at f.world tt))
                    λ _. record { at = λ f x. tt }

  module _ (settings : Settings) (request : SubmitTaskRequest) (x : ExecutorType) (p : Priority)
      (rows : List TaskModel) (fits : env.payload_size request.payload ≤ settings.max_payload_bytes)
      (parsed : parse_executor request.executor_type ≡ ok x)
      (checked : make_priority request.priority ≡ ok p) (later : Option Instant)
      (zoned : comparable request.scheduled_at ≡ ok later)
      (now_due : (n : ℕ) → is_later later (env.now n) ≡ false)
      (free : (n : ℕ) → Free (env.uuid4 n) request.idempotency_key rows) where
    create-Returns :
        (m n : ℕ)
        → Returns
            (At rows)
            (with_task
              (created (env.now m) (env.uuid4 n) (new_task request x p) later)
              (submit_new env settings))
            (λ _ _. Unit)
    unfolding with_task
    create-Returns m n = record {
      at = λ w h. left _ (
          (submit_new-Returns settings).at
            (record {
              task = created (env.now m) (env.uuid4 n) (new_task request x p) later;
              world = w;
            })
            ((rw (now_due m) refl, now_due), rw h (free n)));
    }
      where
        left :
            (r : Result Task × Frame)
            → Post (λ _ _. Unit) (λ _. ⊥) r
            → Post (λ _ _. Unit) (λ _. ⊥) (r.0, r.1.world)
        left (ok _, f) h = h
        left (err _, f) h = h

    fresh_task : Returns (At rows) (submit_fresh env settings request) (λ _ _. Unit)
    unfolding submit_fresh create ◌>>=◌ lift now uuid4
    fresh_task = record {
      at = λ w h.
          rw
            (
              le→ltb settings.max_payload_bytes (env.payload_size request.payload) fits,
              parsed,
              checked,
              zoned,
            )
            ((create-Returns w.calls (suc w.calls)).at (tick (tick w)) h);
    }

    submit_fresh-Returns :
        Returns (At rows) (submit_fresh env settings request) (Placed env settings)
    submit_fresh-Returns =
        Returns-and {P = At rows} {E = λ _. Unit} _
          (record { at = λ w h. submit_fresh-Placed env settings request w }) fresh_task

    submit-Gives : Returns (At rows) (submit env settings request) (Placed env settings)
    unfolding submit
    submit-Gives =
        Ensures-bind _ _
          (none_found env all_served settings rows (env.uuid4 0) request.idempotency_key (free 0))
          either
      where
        either :
            (o : Option Task)
            → Returns
                (λ w. (o ≡ none) × At rows w)
                (existing_or (submit_fresh env settings request) o)
                (Placed env settings)
        either none = Ensures-weaken _ submit_fresh-Returns (λ w h. h.1) (λ _ w h. h) (λ w h. h)
        either (some t) = record { at = λ w h. absurd (cc h.0) }

-- A submission of a task that is due returns with every call served, whatever is in the queues: for
-- a payload that fits, a known executor, a priority that is not negative, no time or one with a time
-- zone, and UUIDs and an idempotency key that no row has. The task is then QUEUED, in its ready list, and in the table.
pub submit-Returns :
    (env : Env) (settings : Settings) (request : SubmitTaskRequest) (x : ExecutorType)
    (p : Priority) (later : Option Instant) (w : World)
    → ((n : ℕ) → env.fault n ≡ served)
    → env.payload_size request.payload ≤ settings.max_payload_bytes
    → parse_executor request.executor_type ≡ ok x
    → make_priority request.priority ≡ ok p
    → comparable request.scheduled_at ≡ ok later
    → ((n : ℕ) → is_later later (env.now n) ≡ false)
    → ((n : ℕ) → Free (env.uuid4 n) request.idempotency_key w.db.tasks)
    → (t : Task) × (v : World) × (submit env settings request w ≡ (ok t, v))
      × Placed env settings t v
submit-Returns env settings request x p later w all_served fits parsed checked zoned due free =
    returned (submit env settings request w) (
      (submit-Gives env all_served settings request x p w.db.tasks fits parsed checked later zoned
          due free).at
        w refl)
  where
    returned :
        (r : Result Task × World)
        → Post (Placed env settings) (λ _. ⊥) r
        → (t : Task) × (v : World) × (r ≡ (ok t, v)) × Placed env settings t v
    returned (ok t, v) h = (t, v, refl, h)
    returned (err e, v) h = absurd h
