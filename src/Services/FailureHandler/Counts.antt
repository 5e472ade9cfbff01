-- ===== src/Services/FailureHandler/Counts.antt =====
-- The object of a task across its failure handler, with its attempts counted.
use atlas_queue.Prelude.{
  ℕ, Option, ◌+◌, ◌≤◌, ◌<◌, ◌≡◌, refl, ◌⊎◌, inl, inr, String, Bool, true, false, none, ltb→lt,
  ltb→le, arith, subst,
}
use atlas_queue.Domain.Enums.{TaskStatus, queued, running, dead_letter, completed}
use atlas_queue.Domain.Task.{Task, can_retry, retry_delay_seconds}
use atlas_queue.Domain.Task.Lifecycle.{◌⟶◌}
use atlas_queue.Runtime.Exec.{Exec}
use atlas_queue.Runtime.Exec.Ensures.{Post, Ensures-bind, Ensures-if, Ensures-lift, Ensures-weaken}
use atlas_queue.Runtime.World.{Env}
use atlas_queue.Runtime.Frame.{Frame, transition}
use atlas_queue.Runtime.Frame.Rules.{Ensures-read}
use atlas_queue.Runtime.Frame.Objects.{Gives, Of, object, object_update, object_transition}
use atlas_queue.Services.FailureHandler.{
  handle_execution_failure, schedule_retry, move_to_dead_letter,
}

module _ (t0 : Task) where
  -- counted from the task before the execution
  abbrev pub Counted : ℕ → Task → Type 0
  Counted n t = (t.attempts ≡ t0.attempts + n) × (t.max_retries ≡ t0.max_retries)

  abbrev pub Running : ℕ → Task → Type 0
  Running n t = (t0.status ≡ queued) × (t.status ≡ running) × Counted n t

  -- what the handler leaves, by whether a retry is left
  abbrev pub Failed : Task → Type 0
  Failed t =
      (t0.status ≡ queued)
      × Counted 1 t
      × (((t.status ≡ queued) × (t.attempts < t.max_retries))
          ⊎ ((t.status ≡ dead_letter) × (t.max_retries ≤ t.attempts)))

  abbrev pub Tried : Task → Type 0
  Tried t = (t0.status ≡ queued) × Counted 1 t

  abbrev pub Left : Bool → Task → Type 0
  Left b t = (can_retry t ≡ b) × Tried t

  abbrev pub Completed : Task → Type 0
  Completed t = (t0.status ≡ queued) × (t.status ≡ completed) × Counted 0 t

  -- what an exception in the `try` leaves
  abbrev pub Raised : Task → Type 0
  Raised t = Running 0 t ⊎ Completed t

module _ (env : Env) (t0 : Task) where
  schedule_retry-Failed :
      (from : TaskStatus) (error event : String) (template : Option (ℕ → String))
      → Gives
          (Of (Left t0 true))
          (schedule_retry env from error event template)
          (λ _. Of (Failed t0))
  unfolding schedule_retry can_retry
  schedule_retry-Failed from error event template =
      Ensures-bind {R = λ _. Of (Failed t0)} _ _
        (object_transition (Left t0 true) (Failed t0) env queued
          (λ t at h edge. (h.1.0, h.1.1, inl (refl, ltb→lt t.attempts t.max_retries h.0))))
        λ _. Ensures-read _ λ u.
          Ensures-weaken _
            (Ensures-bind {R = λ _. Of (Failed t0)} _ _
              (Ensures-lift (retry_delay_seconds env.floats u) (λ _ _ _ h. h) (λ _ h. tt))
              λ delay. Ensures-bind _ _ (object (Failed t0) _) λ at.
                Ensures-bind _ _ (object (Failed t0) _)
                  λ _. Ensures-bind _ _ (object (Failed t0) _) λ _. object (Failed t0) _)
            (λ f h. h.1) (λ _ f h. h) (λ f h. tt)

  move_to_dead_letter-Failed :
      (from : TaskStatus) (error event : String)
      → Gives (Of (Left t0 false)) (move_to_dead_letter env from error event) (λ _. Of (Failed t0))
  unfolding move_to_dead_letter can_retry
  move_to_dead_letter-Failed from error event =
      Ensures-bind {R = λ _. Of (Failed t0)} _ _
        (object_transition (Left t0 false) (Failed t0) env dead_letter
          (λ t at h edge. (h.1.0, h.1.1, inr (refl, ltb→le t.attempts t.max_retries h.0))))
        λ _. Ensures-bind _ _ (object (Failed t0) _) λ at.
          Ensures-bind _ _ (object_update (Failed t0) (Failed t0) _ (λ t h. h)) λ _.
            Ensures-read _ λ u.
              Ensures-weaken _
                (Ensures-bind _ _ (object (Failed t0) _)
                  λ _. Ensures-bind _ _ (object (Failed t0) _) λ _. object (Failed t0) _)
                (λ f h. h.1) (λ _ f h. h) (λ f h. tt)

  failure :
      (error : String)
      → Gives (Of (Running t0 0)) (handle_execution_failure env error) (λ _. Of (Failed t0))
  unfolding handle_execution_failure
  failure error = Ensures-read _ λ before.
      Ensures-bind {R = λ _. Of (Tried t0)} _ _
        (Ensures-weaken _
          (object_update (Running t0 0) (Tried t0) {E = λ f. Unit} _
            (λ t h. (h.0, (rw h.2.0 omega arith, h.2.1))))
          (λ f h. h.1) (λ _ f h. h) (λ f h. tt))
        λ _. Ensures-read _ λ u.
          Ensures-if (can_retry u) _ _
            (λ e.
              Ensures-bind _ _
                (Ensures-weaken _ (schedule_retry-Failed before.status error _ none)
                  (λ f h. (rw h.0 e, h.1)) (λ _ f h. h) (λ f h. tt))
                λ _. object (Failed t0) _)
            (λ e.
              Ensures-bind _ _
                (Ensures-weaken _ (move_to_dead_letter-Failed before.status error _)
                  (λ f h. (rw h.0 e, h.1)) (λ _ f h. h) (λ f h. tt))
                λ _. object (Failed t0) _)

  -- the handler's first transition is refused for a task that is COMPLETED
  refused :
      (error : String)
      → Gives (Of (λ t. t.status ≡ completed)) (handle_execution_failure env error) (λ _ _. ⊥)
  unfolding handle_execution_failure schedule_retry move_to_dead_letter
  refused error = Ensures-read _ λ before.
      Ensures-bind {R = λ _. Of Final} _ _
        (Ensures-weaken _ (object_update Final Final {E = λ f. Unit} _ (λ t h. h)) (λ f h. h.1)
          (λ _ f h. h) (λ f h. tt))
        λ _. Ensures-read _ λ u.
          Ensures-if (can_retry u) _ _
            (λ e.
              Ensures-bind {R = λ _ _. ⊥} _ _ (Ensures-bind _ _ (stuck queued) λ a. from_nothing _)
                λ a. from_nothing _)
            (λ e.
              Ensures-bind {R = λ _ _. ⊥} _ _
                (Ensures-bind _ _ (stuck dead_letter) λ a. from_nothing _) λ a. from_nothing _)
    where
      Final : Task → Type 0
      Final t = t.status ≡ completed

      from_nothing : {A : Type 0} {Q : A → Frame → Type 0} (m : Exec Frame A) → Gives (λ f. ⊥) m Q
      from_nothing m = record { at = λ f h. absurd h }

      nowhere : {s : TaskStatus} → completed ⟶ s → ⊥
      nowhere e = elim e [ ]

      stuck :
          {u : Task} (s : TaskStatus)
          → Gives (λ f. (f.task ≡ u) × Final f.task) (transition env s) (λ _ _. ⊥)
      stuck s =
          Ensures-weaken _
            (object_transition Final (λ _. ⊥) env s
              (λ t at h edge. nowhere (subst (λ z. z ⟶ s) h edge)))
            (λ f h. h.1) (λ _ f h. h) (λ f h. tt)

  refused_Failed :
      (error : String)
      → Gives (Of (Completed t0)) (handle_execution_failure env error) (λ _. Of (Failed t0))
  refused_Failed error =
      Ensures-weaken _ (refused error) (λ f h. h.1) (λ _ f h. absurd h) (λ f h. tt)

  pub handled :
      (error : String)
      → Gives (Of (Raised t0)) (handle_execution_failure env error) (λ _. Of (Failed t0))
  handled error = record { at = λ f h. by_cause f h }
    where
      by_cause :
          (f : Frame)
          → (Raised t0) f.task
          → Post (λ _. Of (Failed t0)) (λ _. Unit) (handle_execution_failure env error f)
      by_cause f (inl h) = (failure error).at f h
      by_cause f (inr h) = (refused_Failed error).at f h
