-- ===== src/Services/Rows/Kept.antt =====
-- Predicates on the table of tasks that every save keeps, and the steps of a service.
use atlas_queue.Prelude.{ℕ, ◌≡◌, refl, String, Option, none, some, List}
use atlas_queue.Domain.Exceptions.{Result, ok, err}
use atlas_queue.Domain.Enums.{TaskStatus}
use atlas_queue.Domain.Task.{Task, TaskId, Instant, transition_to}
use atlas_queue.Domain.Worker.{Metadata}
use atlas_queue.Persistence.Models.{TaskModel, Db}
use atlas_queue.Persistence.Tasks.{
  save, get_by_id, get_by_idempotency_key, optional_task, list_tasks,
}
use atlas_queue.Persistence.Tasks.Saved.{Saved, At, save-Saved}
use atlas_queue.Persistence.Events.{append}
use atlas_queue.Redis.State.{Redis}
use atlas_queue.Runtime.Exec.{Exec}
use atlas_queue.Runtime.Exec.Ensures.{Post}
use atlas_queue.Runtime.Exec.Invariant.{
  Preserves, Preserves-pure, Preserves-lift, Preserves-bind, preserves_rules,
}
use atlas_queue.Runtime.World.{
  Env, World, Metric, Fault, served, lost_request, lost_reply, tick, serve_db, db_call, redis_call,
  redis_do, now, uuid4, emit,
}
use atlas_queue.Runtime.Frame.{Frame, on_world, with_task, update, transition, moved}
use atlas_queue.Runtime.Session.{session, end_session, commit}
use atlas_queue.Services.Rows.{
  KeepsTasks, KeepsTasks-now, KeepsTasks-uuid4, KeepsTasks-emit, KeepsTasks-redis_call,
  KeepsTasks-redis_do, KeepsTasks-append,
}

abbrev pub Closed : (List TaskModel → Type 0) → Type 0
Closed P = (u : Task) (rows rows' : List TaskModel) → Saved u rows rows' → P rows → P rows'

module _ (P : List TaskModel → Type 0) where
  abbrev pub InDb : World → Type 0
  InDb w = P w.db.tasks

  abbrev pub InFrame : Frame → Type 0
  InFrame f = P f.world.db.tasks

  pub kept : {A : Type 0} {m : Exec World A} → KeepsTasks m → Preserves InDb m
  kept {A} {m} h = record { after = λ w p. go (m w) ((h.at w.db.tasks).at w refl) p }
    where
      go :
          {rows : List TaskModel} (r : Result A × World)
          → Post (λ _. At rows) (At rows) r
          → P rows
          → P r.1.db.tasks
      go (ok a, v) e p = rw e p
      go (err x, v) e p = rw e p

  pub kept-on_world :
      {A : Type 0} (m : Exec World A) → Preserves InDb m → Preserves InFrame (on_world m)
  unfolding on_world
  kept-on_world m h = record { after = λ f p. h.after f.world p }

  pub kept-with_task :
      {A : Type 0} (t : Task) (m : Exec Frame A)
      → Preserves InFrame m
      → Preserves InDb (with_task t m)
  unfolding with_task
  kept-with_task t m h = record { after = λ w p. h.after (record { task = t; world = w }) p }

  pub kept-update : (g : Task → Task) → Preserves InFrame (update g)
  unfolding update
  kept-update g = record { after = λ f p. p }

  pub kept-transition : (env : Env) (s : TaskStatus) → Preserves InFrame (transition env s)
  unfolding transition
  kept-transition env s = record {
    after = λ f p. go f p (transition_to s (env.now f.world.calls) f.task);
  }
    where
      go : (f : Frame) → InFrame f → (r : Result Task) → InFrame (moved f r).1
      go f p (ok t) = p
      go f p (err e) = p

  module _ (env : Env) where
    pub kept-now : Preserves InDb (now env)
    kept-now = kept (KeepsTasks-now env)

    pub kept-uuid4 : Preserves InDb (uuid4 env)
    kept-uuid4 = kept (KeepsTasks-uuid4 env)

    pub kept-redis_call :
        {A : Type 0} (f : Instant → Redis → A × Redis) → Preserves InDb (redis_call env f)
    kept-redis_call f = kept (KeepsTasks-redis_call env f)

    pub kept-redis_do : (f : Instant → Redis → Redis) → Preserves InDb (redis_do env f)
    kept-redis_do f = kept (KeepsTasks-redis_do env f)

    pub kept-append :
        (id : TaskId) (event : String) (from to : Option TaskStatus) (message : Option String)
        (metadata : Metadata)
        → Preserves InDb (append env id event from to message metadata)
    kept-append id event from to message metadata =
        kept (KeepsTasks-append env id event from to message metadata)

    pub kept-query :
        {A : Type 0} (f : Db → Result A) → Preserves InDb (db_call env (λ db. (f db, db)))
    unfolding db_call
    kept-query f = record { after = λ w p. go (env.fault w.calls) w p }
      where
        go : (x : Fault) (w : World) → InDb w → InDb (serve_db x (λ db. (f db, db)) (tick w)).1
        go served w p = p
        go (lost_request m) w p = p
        go (lost_reply m) w p = p

    -- a statement on another table
    pub kept-elsewhere :
        {A : Type 0} (r : Result A) (f : Db → Db)
        → ((db : Db) → (f db).tasks ≡ db.tasks)
        → Preserves InDb (db_call env (λ db. (r, f db)))
    unfolding db_call
    kept-elsewhere {A} r f same = record { after = λ w p. go (env.fault w.calls) w p }
      where
        go : (x : Fault) (w : World) → InDb w → InDb (serve_db x (λ db. (r, f db)) (tick w)).1
        go served w p = rw (same w.db) p
        go (lost_request m) w p = p
        go (lost_reply m) w p = p

    kept-optional_task : (o : Option TaskModel) → Preserves InDb (optional_task env o)
    unfolding optional_task
    kept-optional_task none = search preserves_rules
    kept-optional_task (some m) = search preserves_rules

    pub kept-get_by_id : (id : TaskId) → Preserves InDb (get_by_id env id)
    unfolding get_by_id
    kept-get_by_id id = Preserves-bind _ _ (kept-query _) kept-optional_task

    pub kept-get_by_idempotency_key :
        (key : String) → Preserves InDb (get_by_idempotency_key env key)
    unfolding get_by_idempotency_key
    kept-get_by_idempotency_key key = Preserves-bind _ _ (kept-query _) kept-optional_task

    pub kept-list_tasks :
        (status : Option TaskStatus) (name : Option String) (sort_by sort_order : String)
        (limit offset : ℕ)
        → Preserves InDb (list_tasks env status name sort_by sort_order limit offset)
    unfolding list_tasks
    kept-list_tasks status name sort_by sort_order limit offset =
        Preserves-bind _ _ (kept-query _) (λ rows. Preserves-lift _)

    pub kept-session :
        {A : Type 0} (m : Exec World A) → Preserves InDb m → Preserves InDb (session env m)
    unfolding session
    kept-session {A} m h = record { after = λ w p. ended w p (m w) (h.after w p) }
      where
        committed :
            (w : World)
            → InDb w
            → (x : Fault) (a : A) (v : World) → InDb v
            → InDb (commit w.db x a v).1
        committed w p served a v q = q
        committed w p (lost_request e) a v q = p
        committed w p (lost_reply e) a v q = q

        ended :
            (w : World)
            → InDb w
            → (r : Result A × World) → InDb r.1
            → InDb (end_session w.db env r).1
        ended w p (ok a, v) q = committed w p (env.fault v.calls) a (tick v) q
        ended w p (err e, v) q = p

  pub kept-emit : (m : Metric) → Preserves InDb (emit m)
  kept-emit m = kept (KeepsTasks-emit m)

module _ (P : List TaskModel → Type 0) (closed : Closed P) where
  pub kept-save : (env : Env) (u : Task) → Preserves (InDb P) (save env u)
  kept-save env u = record {
    after = λ w p. go (save env u w) ((save-Saved env u w.db.tasks).at w refl) p;
  }
    where
      go :
          {rows : List TaskModel} (r : Result (Unit {0}) × World)
          → Post (λ _ v. Saved u rows v.db.tasks) (At rows) r
          → P rows
          → P r.1.db.tasks
      go {rows} (ok a, v) s p = closed u rows v.db.tasks s p
      go (err x, v) e p = rw e p

pub ruleset kept_rules = (
  preserves_rules, kept-on_world, kept-with_task, kept-update, kept-transition, kept-now,
  kept-uuid4, kept-redis_call, kept-redis_do, kept-append, kept-get_by_id,
  kept-get_by_idempotency_key, kept-list_tasks, kept-session, kept-emit, kept-save,
)
