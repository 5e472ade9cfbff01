-- ===== src/Services/QueueManager/Delayed.antt =====
-- What becomes of a request for a later time.
use atlas_queue.Prelude.{ℕ, ◌<◌, ◌≡◌, ◌≢◌, String, refl, false, Option, none, some, ltb, arith}
use atlas_queue.Prelude.Text.{truthy}
use atlas_queue.Domain.Exceptions.{Exc, Result, ok, err, payload_too_large_error}
use atlas_queue.Domain.Enums.{scheduled, parse_executor}
use atlas_queue.Domain.Task.{
  Task, Instant, NewTask, aware, create, create-holds, transition_to, is_later, make_priority,
}
use atlas_queue.Runtime.Exec.{Exec, lift}
use atlas_queue.Runtime.Exec.Ensures.{
  Post, Ensures, Ensures-bind, Ensures-if, Ensures-lift-bind, Ensures-raise, Ensures-weaken,
  Ensures-try_except, Ensures-pure,
}
use atlas_queue.Runtime.World.{Env, World, Settings, now, uuid4}
use atlas_queue.Runtime.Frame.{Frame, on_world, with_task, transition}
use atlas_queue.Runtime.Frame.Rules.{Ensures-any, Ensures-on_world, Ensures-read}
use atlas_queue.Services.QueueManager.{
  SubmitTaskRequest, enqueue, enqueue_failure, submit_new, submit_fresh, find_existing, existing_or,
  submit, new_task,
}

-- never returns
abbrev Raises : {S A : Type 0} → (S → Type 0) → Exec S A → Type 0
Raises P m = Ensures P m (λ _ _. ⊥) (λ _. Unit)

module _ (env : Env) (settings : Settings) (due : Instant) (early : (n : ℕ) → env.now n < due) where
  -- the object of a task that is to run at `due`
  abbrev Waits : Task → Type 0
  Waits t = (t.status ≡ scheduled) × (t.scheduled_at ≡ some due)

  transition-Raises : Raises (λ f. Waits f.task) (transition env scheduled)
  unfolding transition transition_to
  transition-Raises = record { at = λ f h. ground arith }

  now-early :
      Ensures
        (λ f. Waits f.task)
        (on_world (now env))
        (λ at f. (at < due) × Waits f.task)
        (λ _. Unit)
  unfolding on_world now
  now-early = record { at = λ f h. (early f.world.calls, h) }

  enqueue-Raises : Raises (λ f. Waits f.task) (enqueue env settings)
  unfolding enqueue
  enqueue-Raises = Ensures-bind _ _ now-early λ at. Ensures-read _ λ u.
      Ensures-bind {R = λ _ _. ⊥} _ _
        (Ensures-if (is_later u.scheduled_at at) _ _
          (λ _.
            Ensures-bind _ _
              (Ensures-weaken _ (Ensures-on_world Waits _) (λ f h. h.1.1) (λ _ f h. h) (λ f h. tt))
              (λ _. transition-Raises))
          (λ now_due. record { at = λ f h. absurd (ground (arith, early 0)) }))
        λ _. record { at = λ f h. absurd h }

  failure-Raises : (exc : Exc) → Raises (λ _. Unit) (enqueue_failure env settings exc)
  unfolding enqueue_failure
  failure-Raises exc = Ensures-read _ λ before. Ensures-bind _ _ (Ensures-any _) λ _.
      Ensures-read _ λ t.
        Ensures-bind _ _ (Ensures-any _)
          λ _. Ensures-bind _ _ (Ensures-any _) λ _. Ensures-raise _ (λ f h. tt)

  submit_new-Raises : Raises (λ f. Waits f.task) (submit_new env settings)
  unfolding submit_new
  submit_new-Raises = Ensures-read _ λ t. Ensures-bind _ _ (waits t _) λ _.
      Ensures-bind _ _ (waits t _) λ _.
        Ensures-bind {R = λ _ _. ⊥} _ _
          (Ensures-try_except _ _
            (Ensures-weaken _ enqueue-Raises (λ f h. h.1) (λ _ f h. h) (λ f h. tt)) failure-Raises)
          λ _. record { at = λ f h. absurd h }
    where
      waits :
          (t : Task) {A : Type 0} (m : Exec World A)
          → Ensures
              (λ f. (f.task ≡ t) × Waits f.task)
              (on_world m)
              (λ _ f. (f.task ≡ t) × Waits f.task)
              (λ _. Unit)
      waits t m =
          Ensures-weaken _ (Ensures-on_world (λ u. (u ≡ t) × Waits u) m) (λ f h. h) (λ _ f h. h)
            (λ f h. tt)

  created-Waits :
      (at : Instant) (uuid : ℕ) (n : NewTask)
      → at < due
      → n.scheduled_at ≡ some (aware due)
      → (t : Task) → create at uuid n ≡ ok t
      → Waits t
  created-Waits at uuid n h later =
      create-holds Waits at uuid n
        (λ s c. let same : s ≡ some due = cc (rw later at c) in ground (arith, same, h))

  with_new-Raises :
      (t : Task)
      → Ensures (λ _. Waits t) (with_task t (submit_new env settings)) (λ _ _. ⊥) (λ _. Unit)
  unfolding with_task
  with_new-Raises t = record {
    at = λ w h. ended _ (submit_new-Raises.at (record { task = t; world = w }) h);
  }
    where
      ended :
          (r : Result Task × Frame)
          → Post (λ _ _. ⊥) (λ _. Unit) r
          → Post (λ _ _. ⊥) (λ _. Unit) (r.0, r.1.world)
      ended (ok _, f) h = h
      ended (err _, f) h = h

  clock : Ensures (λ _. Unit) (now env) (λ at _. at < due) (λ _. Unit)
  unfolding now
  clock = record { at = λ w h. early w.calls }

  keep_early : (at : Instant) → Ensures (λ _. at < due) (uuid4 env) (λ _ _. at < due) (λ _. Unit)
  unfolding uuid4
  keep_early at = record { at = λ w h. h }

  submit_fresh-Raises :
      (request : SubmitTaskRequest)
      → request.scheduled_at ≡ some (aware due)
      → Raises (λ _. Unit) (submit_fresh env settings request)
  unfolding submit_fresh
  submit_fresh-Raises request later =
      Ensures-if (ltb settings.max_payload_bytes (env.payload_size request.payload)) _ _
        (λ _. Ensures-raise (payload_too_large_error settings.max_payload_bytes) (λ w h. tt))
        λ _.
          Ensures-bind (lift (parse_executor request.executor_type)) _ (Ensures-any _)
            λ executor_type.
              Ensures-bind (lift (make_priority request.priority)) _ (Ensures-any _) λ priority.
                Ensures-bind (now env) _ clock λ at.
                  Ensures-bind (uuid4 env) _ (keep_early at) λ uuid.
                    let n = new_task request executor_type priority in
                    Ensures-lift-bind (create at uuid n) _
                      (λ t e.
                        Ensures-weaken _ (with_new-Raises t)
                          (λ w h. created-Waits at uuid n h later t e) (λ _ w h. h) (λ w h. h))
                      (λ w h. tt)

  existing_or-Raises :
      (request : SubmitTaskRequest) (o : Option Task)
      → request.scheduled_at ≡ some (aware due)
      → Ensures
          (λ _. o ≡ none)
          (existing_or (submit_fresh env settings request) o)
          (λ _ _. ⊥)
          (λ _. Unit)
  existing_or-Raises request none later =
      Ensures-weaken _ (submit_fresh-Raises request later) (λ w h. tt) (λ _ w h. h) (λ w h. h)
  existing_or-Raises request (some t) later = record { at = λ w h. cc }

  no_key :
      (key : Option String)
      → truthy key ≡ false
      → Ensures (λ _. Unit) (find_existing env settings key) (λ o _. o ≡ none) (λ _. Unit)
  unfolding find_existing
  no_key none h = Ensures-pure none (λ w x. refl)
  no_key (some key) h = rw h (Ensures-pure none (λ w x. refl))

-- A request for a later time never succeeds: as long as the clock has not reached the time that the
-- request names, `submit` without an idempotency key returns no task, whatever the calls to Redis
-- and Postgres do. `Task.create` makes the task SCHEDULED, and `_enqueue` then asks for a transition
-- from SCHEDULED to SCHEDULED, which `transition_to` refuses.
pub submit_delayed :
    (env : Env) (settings : Settings) (request : SubmitTaskRequest) (due : Instant) (w : World)
    → ((n : ℕ) → env.now n < due)
    → request.scheduled_at ≡ some (aware due)
    → truthy request.idempotency_key ≡ false
    → (t : Task) → (submit env settings request w).0 ≢ ok t
unfolding submit
submit_delayed env settings request due w early later keyless t e =
    refuse _
      ((Ensures-bind _ _ (no_key env settings due early request.idempotency_key keyless)
          (λ o. existing_or-Raises env settings due early request o later)).at
        w tt)
      e
  where
    refuse : (r : Result Task × World) → Post (λ _ _. ⊥) (λ _. Unit) r → r.0 ≡ ok t → ⊥
    refuse (ok _, v) h e = h
    refuse (err _, v) h e = cc
