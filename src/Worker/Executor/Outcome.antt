-- ===== src/Worker/Executor/Outcome.antt =====
-- The object of a task across one execution by `TaskExecutorService`.
use atlas_queue.Prelude.{◌≡◌, refl, ◌⊎◌, inl, inr, String, arith, subst}
use atlas_queue.Domain.Exceptions.{Result, ok, err, message}
use atlas_queue.Domain.Enums.{TaskStatus, queued, running, completed, cancelled}
use atlas_queue.Domain.Task.{Task, Fields}
use atlas_queue.Domain.Task.Lifecycle.{◌⟶◌, queued_running}
use atlas_queue.Runtime.Exec.{Exec}
use atlas_queue.Runtime.Exec.Ensures.{
  Post, Ensures, Ensures-bind, Ensures-if, Ensures-weaken, Ensures-try_except, Ensures-try_finally,
}
use atlas_queue.Runtime.World.{Env, World, tick}
use atlas_queue.Runtime.Frame.{Frame, on_world}
use atlas_queue.Runtime.Frame.Rules.{Ensures-on_world, Ensures-any, Ensures-read}
use atlas_queue.Runtime.Frame.Objects.{
  Gives, Of, object, object_update, object_transition, object_moves,
}
use atlas_queue.Worker.Executor.{
  Executors, start_task, attempt, execute_cancelled, clean_up, execute_task, run_executor,
  executor_of,
}
use atlas_queue.Services.FailureHandler.Counts.{
  Counted, Running, Failed, Completed, Raised, handled,
}

module _ (t0 : Task) where
  abbrev pub Cancelled : Task → Type 0
  Cancelled t = (t.status ≡ cancelled) × Counted t0 0 t

  -- what one execution that returns leaves of the object
  abbrev pub Outcome : Task → Type 0
  Outcome t = Cancelled t ⊎ Completed t0 t ⊎ Failed t0 t

module _ (env : Env) (x : Executors) (t0 : Task) where
  from_queued : {s : TaskStatus} → s ⟶ running → s ≡ queued
  from_queued queued_running = refl

  started :
      (worker_id : String)
      → Gives (Of (λ t. t ≡ t0)) (start_task env x worker_id) (λ _. Of (Running t0 0))
  unfolding start_task
  started worker_id = Ensures-read _ λ before.
      Ensures-bind {R = λ _. Of (Running t0 0)} _ _
        (Ensures-weaken _
          (object_transition (λ t. t ≡ t0) (Running t0 0) env running
            (λ t at e edge. (
              from_queued (subst (λ u. u.status ⟶ running) e edge),
              refl,
              (rw e omega arith, rw e refl),
            )))
          (λ f h. h.1) (λ _ f h. h) (λ f h. tt))
        λ _. Ensures-bind _ _ (object_update (Running t0 0) (Running t0 0) _ (λ t h. h)) λ _.
          Ensures-bind _ _ (object (Running t0 0) _) λ at.
            Ensures-bind _ _ (object_update (Running t0 0) (Running t0 0) _ (λ t h. h)) λ _.
              Ensures-read _ λ u.
                Ensures-weaken _
                  (Ensures-bind _ _ (object (Running t0 0) _)
                    λ _. Ensures-bind _ _ (object (Running t0 0) _) λ _. object (Running t0 0) _)
                  (λ f h. h.1) (λ _ f h. h) (λ f h. tt)

  raised :
      {A : Type 0} (X : Task → Type 0) (m : Exec World A)
      → ((t : Task) → X t → (Raised t0) t)
      → Ensures (Of X) (on_world m) (λ _. Of X) (Of (Raised t0))
  raised X m weaker =
      Ensures-weaken _ (Ensures-on_world X m) (λ f h. h) (λ _ f h. h) (λ f h. weaker f.task h)

  ran_executor :
      Ensures (Of (Running t0 0)) (run_executor env x) (λ _. Of (Running t0 0)) (Of (Raised t0))
  unfolding run_executor
  ran_executor = record {
    at = λ f h. answer (executor_of x f.task.executor_type f.world.calls f.task) f h;
  }
    where
      answer :
          (r : Result Fields) (f : Frame)
          → Running t0 0 f.task
          → Post (λ _. Of (Running t0 0)) (Of (Raised t0)) (r, record f { world = tick f.world })
      answer (ok a) f h = h
      answer (err e) f h = inl h

  attempted : Ensures (Of (Running t0 0)) (attempt env x) (λ _. Of (Completed t0)) (Of (Raised t0))
  unfolding attempt
  attempted = Ensures-bind _ _ ran_executor λ result. Ensures-read _ λ before.
      Ensures-bind {R = λ _. Of (Completed t0)} _ _
        (Ensures-weaken _
          (object_moves (Running t0 0) (Completed t0) env completed
            (λ t at h edge. (h.0, refl, h.2)))
          (λ f h. h.1) (λ _ f h. h) (λ f h. inl h))
        λ _. Ensures-bind _ _ (raised (Completed t0) _ (λ t h. inr h)) λ at.
          Ensures-bind _ _ (object_update (Completed t0) (Completed t0) _ (λ t h. h)) λ _.
            Ensures-read _ λ u.
              Ensures-weaken _
                (Ensures-bind _ _ (raised (Completed t0) _ (λ t h. inr h)) λ _.
                  Ensures-bind _ _ (raised (Completed t0) _ (λ t h. inr h))
                    λ _. raised (Completed t0) _ (λ t h. inr h))
                (λ f h. h.1) (λ _ f h. h) (λ f h. h)

  execute_cancelled-Cancelled :
      Gives (Of (λ t. t ≡ t0)) (execute_cancelled env x) (λ _. Of (Cancelled t0))
  unfolding execute_cancelled
  execute_cancelled-Cancelled = Ensures-read _ λ before.
      Ensures-bind {R = λ _. Of (Cancelled t0)} _ _
        (Ensures-weaken _
          (object_transition (λ t. t ≡ t0) (Cancelled t0) env cancelled
            (λ t at e edge. (refl, (rw e omega arith, rw e refl))))
          (λ f h. h.1) (λ _ f h. h) (λ f h. tt))
        λ _. Ensures-bind _ _ (object (Cancelled t0) _) λ at.
          Ensures-bind _ _ (object_update (Cancelled t0) (Cancelled t0) _ (λ t h. h)) λ _.
            Ensures-read _ λ u.
              Ensures-weaken _
                (Ensures-bind _ _ (object (Cancelled t0) _)
                  λ _. Ensures-bind _ _ (object (Cancelled t0) _) λ _. object (Cancelled t0) _)
                (λ f h. h.1) (λ _ f h. h) (λ f h. tt)

  cleaned : Gives (Of (Outcome t0)) (clean_up env x) (λ _. Of (Outcome t0))
  unfolding clean_up
  cleaned = Ensures-read _ λ u.
      Ensures-bind {R = λ _. Of (Outcome t0)} _ _
        (Ensures-weaken _ (object (Outcome t0) _) (λ f h. h.1) (λ _ f h. h) (λ f h. tt))
        λ _. Ensures-bind _ _ (object (Outcome t0) _) λ _. object (Outcome t0) _

  pub executed :
      (worker_id : String)
      → Gives (Of (λ t. t ≡ t0)) (execute_task env x worker_id) (λ _. Of (Outcome t0))
  unfolding execute_task
  executed worker_id = Ensures-read _ λ t.
      Ensures-bind {R = λ _. Of (λ u. u ≡ t0)} _ _
        (Ensures-weaken _ (object (λ u. u ≡ t0) _) (λ f h. h.1) (λ _ f h. h) (λ f h. tt))
        λ marked.
          Ensures-if marked _ _
            (λ _.
              Ensures-weaken _ execute_cancelled-Cancelled (λ f h. h) (λ _ f h. inl h) (λ f h. tt))
            λ _. Ensures-bind _ _ (started worker_id) λ _.
              Ensures-bind _ _ (object (Running t0 0) _) λ _.
                Ensures-try_finally _ _
                  (Ensures-try_except _ _
                    (Ensures-weaken _ attempted (λ f h. h) (λ _ f h. inr (inl h)) (λ f h. h))
                    (λ exc.
                      Ensures-weaken _ (handled env t0 (message exc)) (λ f h. h)
                        (λ _ f h. inr (inr h)) (λ f h. tt)))
                  (λ _. cleaned) (Ensures-any _)
