-- ===== src/Api/Requests/Fits.antt =====
-- The rows that a submission leaves, where its body has been accepted.
use Prim.Native.Nat.{◌^◌}
use atlas_queue.Prelude.{
  ℕ, ◌<◌, ◌≡◌, refl, subst, String, Bool, Option, none, some, All, arith, any, inl, inr, Bool-cases,
}
use atlas_queue.Domain.Backoff.{Float}
use atlas_queue.Domain.Enums.{same_status, TaskStatus, ExecutorType}
use atlas_queue.Domain.Exceptions.{Exc, Result, ok, err}
use atlas_queue.Domain.Task.{
  Task, Instant, Priority, created, create, create-holds, make_priority, transition_to, allowed,
}
use atlas_queue.Persistence.Schema.Cells.{TaskFits, Sized}
use atlas_queue.Persistence.Schema.Fits.{Saved-Fits}
use atlas_queue.Persistence.Tasks.{save}
use atlas_queue.Persistence.Tasks.Saved.{At, Saved, save-Saved}
use atlas_queue.Redis.Queue.{enqueue_ready, enqueue_scheduled}
use atlas_queue.Runtime.Exec.{Exec, lift, gets, ◌>>=◌}
use atlas_queue.Runtime.Exec.Ensures.{Post}
use atlas_queue.Runtime.Exec.Invariant.{Preserves, Preserves-bind, Preserves-lift-bind}
use atlas_queue.Runtime.Frame.{Frame, on_world, with_task, transition, moved}
use atlas_queue.Runtime.World.{Env, World, Settings}
use atlas_queue.Services.QueueManager.{
  SubmitTaskRequest, new_task, existing_or, enqueue, enqueue_failure, submit_new, find_existing,
  submit_fresh, submit,
}
use atlas_queue.Services.Rows.Kept.{InDb, kept-session, kept_rules}
use atlas_queue.System.{post_task}
use atlas_queue.Api.Requests.{SubmitTaskBody, validate_submit}
use atlas_queue.Api.Requests.Accepted.{Valid, length_between_le, between_le, validate_submit-Valid}
use atlas_queue.Api.Routes.{Site, Credentials, submit_task, with_role}

abbrev FittingDb : World → Type 0
FittingDb = InDb (All TaskFits)

-- the object fits too
abbrev FittingFrame : Frame → Type 0
FittingFrame f = Sized f.task × FittingDb f.world

-- a status and a time are no part of what is measured
transition_to-Sized :
    (s : TaskStatus) (at : Instant) (t u : Task) → transition_to s at t ≡ ok u → Sized t → Sized u
unfolding transition_to
transition_to-Sized s at t u e z = elim (Bool-cases (any (same_status s) (allowed t.status))) [
  | inl may ↦
      let same : record t { status = s; updated_at = some at } ≡ u = grind (arith, may, e) in
      subst Sized same moved_Sized
  | inr not_so ↦ grind (arith, not_so, e)
]
  where
    moved_Sized : Sized (record t { status = s; updated_at = some at })
    moved_Sized = record {
      name = z.name;
      priority = z.priority;
      attempts = z.attempts;
      max_retries = z.max_retries;
      timeout_seconds = z.timeout_seconds;
      worker_id = z.worker_id;
      idempotency_key = z.idempotency_key;
    }

fitting-save : (env : Env) (t : Task) → Sized t → Preserves FittingDb (save env t)
fitting-save env t z = record {
  after = λ w h. go w h (save env t w) ((save-Saved env t w.db.tasks).at w refl);
}
  where
    go :
        (w : World)
        → FittingDb w
        → (r : Result (Unit {0}) × World)
        → Post (λ _ v. Saved t w.db.tasks v.db.tasks) (At w.db.tasks) r
        → FittingDb r.1
    go w h (ok a, v) s = Saved-Fits t w.db.tasks v.db.tasks z h s
    go w h (err x, v) e = rw e h

fitting-on_world :
    {A : Type 0} (m : Exec World A) → Preserves FittingDb m → Preserves FittingFrame (on_world m)
unfolding on_world
fitting-on_world m h = record { after = λ f (z, x). (z, h.after f.world x) }

fitting-with_task :
    {A : Type 0} (t : Task) (m : Exec Frame A)
    → Sized t
    → Preserves FittingFrame m
    → Preserves FittingDb (with_task t m)
unfolding with_task
fitting-with_task t m z h = record {
  after = λ w x. (h.after (record { task = t; world = w }) (z, x)).1;
}

-- the object that is read fits
fitting-read :
    {B : Type 0} (k : Task → Exec Frame B)
    → ((u : Task) → Sized u → Preserves FittingFrame (k u))
    → Preserves FittingFrame (gets (λ f. f.task) >>= k)
unfolding ◌>>=◌ gets
fitting-read k h = record { after = λ f x. (h f.task x.0).after f x }

fitting-transition : (env : Env) (s : TaskStatus) → Preserves FittingFrame (transition env s)
unfolding transition
fitting-transition env s = record {
  after = λ f x. go f x (transition_to s (env.now f.world.calls) f.task) refl;
}
  where
    go :
        (f : Frame)
        → FittingFrame f
        → (r : Result Task) → transition_to s (env.now f.world.calls) f.task ≡ r
        → FittingFrame (moved f r).1
    go f x (ok t) e = (transition_to-Sized s (env.now f.world.calls) f.task t e x.0, x.1)
    go f x (err y) e = x

ruleset fitting_rules = (
  kept_rules, fitting-save, fitting-on_world, fitting-with_task, fitting-read, fitting-transition,
)

module _ (env : Env) (settings : Settings) where
  fitting-enqueue : Preserves FittingFrame (enqueue env settings)
  unfolding enqueue enqueue_ready enqueue_scheduled
  fitting-enqueue = search fitting_rules depth 30

  fitting-enqueue_failure : (exc : Exc) → Preserves FittingFrame (enqueue_failure env settings exc)
  unfolding enqueue_failure
  fitting-enqueue_failure exc = search fitting_rules depth 30

  fitting-submit_new : Preserves FittingFrame (submit_new env settings)
  unfolding submit_new
  fitting-submit_new = search (fitting_rules, fitting-enqueue, fitting-enqueue_failure) depth 30

  fitting-find_existing :
      (key : Option String) → Preserves FittingDb (find_existing env settings key)
  unfolding find_existing
  fitting-find_existing none = search kept_rules depth 24
  fitting-find_existing (some key) = search kept_rules depth 24

  module _ (is_at_least_one : Float → Bool) (request : SubmitTaskRequest)
      (v : Valid is_at_least_one request) where
    -- the task of the request
    created-Sized :
        (at : Instant) (uuid : ℕ) (x : ExecutorType) (p : Priority)
        → p.value < 2 ^ 31
        → (later : Option Instant) → Sized (created at uuid (new_task request x p) later)
    created-Sized at uuid x p small later = record {
      name = length_between_le 1 255 request.name v.name;
      priority = small;
      attempts = omega arith;
      max_retries = let few = between_le 0 20 request.max_retries v.max_retries in omega arith;
      timeout_seconds =
          let short = between_le 1 3600 request.timeout_seconds v.timeout_seconds in omega arith;
      worker_id = λ s e. cc;
      idempotency_key = λ s e. length_between_le 0 255 s (v.idempotency_key.at s e);
    }

    make_priority-small : (p : Priority) → make_priority request.priority ≡ ok p → p.value < 2 ^ 31
    unfolding make_priority
    make_priority-small p e =
        let most = between_le 0 10 v.priority.0 v.priority.2 in
        let same : v.priority.0 ≡ p.value = grind (arith, v.priority.1, e) in omega arith

    -- the priority of the task is that of the request
    fitting-priority :
        {A : Type 0} (k : Priority → Exec World A)
        → ((p : Priority) → p.value < 2 ^ 31 → Preserves FittingDb (k p))
        → Preserves FittingDb (lift (make_priority request.priority) >>= k)
    fitting-priority k h = Preserves-lift-bind _ k (λ p e. h p (make_priority-small p e))

    fitting-created :
        (at : Instant) (uuid : ℕ) (x : ExecutorType) (p : Priority)
        → p.value < 2 ^ 31
        → Preserves FittingDb (
            lift (create at uuid (new_task request x p)) >>= λ t.
            with_task t (submit_new env settings))
    fitting-created at uuid x p small = Preserves-lift-bind _ _ (λ t e.
        fitting-with_task t _
          (create-holds Sized at uuid (new_task request x p)
            (λ later c. created-Sized at uuid x p small later) t e)
          fitting-submit_new)

    fitting-submit_fresh : Preserves FittingDb (submit_fresh env settings request)
    unfolding submit_fresh
    fitting-submit_fresh = search (fitting_rules, fitting-priority, fitting-created) depth 30

    fitting-existing :
        (o : Option Task) → Preserves FittingDb (existing_or (submit_fresh env settings request) o)
    fitting-existing none = fitting-submit_fresh
    fitting-existing (some t) = search kept_rules

    pub fitting-post_task : Preserves FittingDb (post_task env settings request)
    unfolding post_task submit
    fitting-post_task =
        kept-session (All TaskFits) env _
          (search (kept_rules, fitting-find_existing, fitting-existing) depth 24)

-- A submission whose body has been accepted leaves rows that the columns of their table take, however
-- it ends and whatever its credentials, if there were only such rows before.
pub submit_task-Fits :
    (is_at_least_one : Float → Bool) (site : Site) (env : Env) (c : Credentials)
    (body : SubmitTaskBody) (request : SubmitTaskRequest) (w : World)
    → validate_submit is_at_least_one body ≡ some request
    → All TaskFits w.db.tasks
    → All TaskFits (submit_task site env c request w).1.db.tasks
unfolding submit_task with_role
submit_task-Fits is_at_least_one site env c body request w e h =
    (Preserves-bind _ _ (search kept_rules) (λ _.
        Preserves-bind _ _
          (fitting-post_task env site.settings is_at_least_one request
            ((validate_submit-Valid is_at_least_one body).at request e))
          (λ _. search kept_rules))).after
      w h
