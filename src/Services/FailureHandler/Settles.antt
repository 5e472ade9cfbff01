-- ===== src/Services/FailureHandler/Settles.antt =====
-- The row of a task across its failure handler.
use atlas_queue.Prelude.{ℕ, ◌≡◌, refl, false, String, str_eq, Option, none, List, []}
use atlas_queue.Domain.Enums.{TaskStatus, running, queued, dead_letter, status_value}
use atlas_queue.Domain.Task.{Task, TaskId, retry_delay_seconds, can_retry}
use atlas_queue.Persistence.Models.{TaskModel}
use atlas_queue.Persistence.Tasks.{save}
use atlas_queue.Persistence.Tasks.Saved.{Saved}
use atlas_queue.Persistence.Events.{append}
use atlas_queue.Redis.Queue.{enqueue_scheduled, enqueue_dlq}
use atlas_queue.Runtime.Exec.{Exec, ◌>>=◌}
use atlas_queue.Runtime.Exec.Ensures.{
  Ensures, Ensures-bind, Ensures-if, Ensures-lift, Ensures-weaken,
}
use atlas_queue.Runtime.World.{Env, World}
use atlas_queue.Runtime.Frame.{Frame, on_world, transition}
use atlas_queue.Services.FailureHandler.{
  schedule_retry, move_to_dead_letter, handle_execution_failure,
}
use atlas_queue.Services.Rows.{
  View, On, KeepsTasks, KeepsTasks-now, KeepsTasks-redis_do, KeepsTasks-append, KeepsTasks-emit,
  step_keep, step_update, step_transition, step_save, step_read,
}
use atlas_queue.Services.Rows.Quiet.{Quiet, rest_of, Quiet-rest_of-Saved, Quiet-Saved}

module _ (id : TaskId) where
  -- the object is that of the task, and no other row is RUNNING
  abbrev pub Others : View
  Others t rows = (t.id ≡ id) × Quiet (rest_of id rows)

  abbrev pub Holds : TaskStatus → View
  Holds s t rows = (t.status ≡ s) × Others t rows

  -- besides, its own row is not RUNNING
  abbrev pub Settled : View
  Settled t rows = Quiet rows × Others t rows

-- `X`, of an object that has just been read
abbrev pub Read : Task → View → View
Read u X t rows = (t ≡ u) × X t rows

module _ (id : TaskId) (u : Task) {rows rows' : List TaskModel} (its : u.id ≡ id) where
  others-Saved : Quiet (rest_of id rows) → Saved u rows rows' → Quiet (rest_of id rows')
  others-Saved others saved = rw (← its) (Quiet-rest_of-Saved u (rw (← its) at others) saved)

  settled_by_save :
      (s : TaskStatus)
      → u.status ≡ s
      → str_eq (status_value s) (status_value running) ≡ false
      → Quiet (rest_of id rows)
      → Saved u rows rows'
      → Quiet rows'
  settled_by_save s status idle others saved =
      Quiet-Saved u (rw (← its) at others) (rw status idle) saved

module _ (env : Env) (id : TaskId) where
  -- saving the object leaves the other rows alone
  pub save-Others :
      (u : Task)
      → Ensures
          (On (Read u (Others id)))
          (on_world (save env u))
          (λ _. On (Others id))
          (On (Others id))
  save-Others u =
      step_save (Read u (Others id)) (Others id) (Others id) env u
        (λ t rows rows' x saved. (x.1.0, others-Saved id u (rw x.0 at x.1.0) x.1.1 saved))
        (λ t rows x. x.1)

  -- and with a status that is not RUNNING it settles the task's own
  pub save-Settled :
      (s : TaskStatus) (u : Task)
      → str_eq (status_value s) (status_value running) ≡ false
      → Ensures
          (On (Read u (Holds id s)))
          (on_world (save env u))
          (λ _. On (Settled id))
          (On (Others id))
  save-Settled s u idle =
      step_save (Read u (Holds id s)) (Settled id) (Others id) env u
        (λ t rows rows' x saved.
          let its = (rw x.0 at x.1.1.0) in
          (
            settled_by_save id u its s (rw x.0 at x.1.0) idle x.1.1.1 saved,
            (x.1.1.0, others-Saved id u its x.1.1.1 saved),
          ))
        (λ t rows x. x.1.1)

  -- the steps that touch neither the object nor the table, before and after the save
  pub keep_Settled :
      {A : Type 0} (m : Exec World A)
      → KeepsTasks m
      → Ensures (On (Settled id)) (on_world m) (λ _. On (Settled id)) (On (Others id))
  keep_Settled m h = step_keep (Settled id) (Others id) m h (λ t rows x. x.1)

  pub keep_Holds :
      {A : Type 0} (s : TaskStatus) (u : Task) (m : Exec World A)
      → KeepsTasks m
      → Ensures
          (On (Read u (Holds id s)))
          (on_world m)
          (λ _. On (Read u (Holds id s)))
          (On (Others id))
  keep_Holds s u m h = step_keep (Read u (Holds id s)) (Others id) m h (λ t rows x. x.1.1)

  pub move_to :
      (s : TaskStatus)
      → Ensures (On (Others id)) (transition env s) (λ _. On (Holds id s)) (On (Others id))
  move_to s =
      step_transition (Others id) (Holds id s) (Others id) env s (λ t rows at x. (refl, x))
        (λ t rows x. x)

  -- the end of each of the operations below: the row is saved, and its event recorded
  pub save_and_record :
      (s : TaskStatus) (u : Task) (event : String) (from to : Option TaskStatus)
      (message : Option String)
      → str_eq (status_value s) (status_value running) ≡ false
      → Ensures
          (On (Read u (Holds id s)))
          (on_world (save env u) >>= λ _. on_world (append env u.id event from to message []))
          (λ _. On (Settled id))
          (On (Others id))
  save_and_record s u event from to message idle =
      Ensures-bind _ _ (save-Settled s u idle)
        λ _. keep_Settled _ (KeepsTasks-append env u.id event from to message [])

  schedule_retry-Settled :
      (from : TaskStatus) (error event : String) (template : Option (ℕ → String))
      → Ensures
          (On (Others id))
          (schedule_retry env from error event template)
          (λ _. On (Settled id))
          (On (Others id))
  unfolding schedule_retry enqueue_scheduled
  schedule_retry-Settled from error event template = Ensures-bind _ _ (move_to queued) λ _.
      step_read (Holds id queued) (Others id) _ λ u.
        Ensures-bind {R = λ _. On (Read u (Holds id queued))} _ _
          (Ensures-lift (retry_delay_seconds env.floats u) (λ _ _ _ x. x) (λ _ x. x.1.1))
          λ delay. Ensures-bind _ _ (keep_Holds queued u _ (KeepsTasks-now env)) λ at.
            Ensures-bind _ _ (keep_Holds queued u _ (KeepsTasks-redis_do env _))
              λ _. save_and_record queued u event _ _ _ refl

  move_to_dead_letter-Settled :
      (from : TaskStatus) (error event : String)
      → Ensures
          (On (Others id))
          (move_to_dead_letter env from error event)
          (λ _. On (Settled id))
          (On (Others id))
  unfolding move_to_dead_letter enqueue_dlq
  move_to_dead_letter-Settled from error event = Ensures-bind _ _ (move_to dead_letter) λ _.
      Ensures-bind _ _
        (step_keep (Holds id dead_letter) (Others id) _ (KeepsTasks-now env) (λ t rows x. x.1))
        λ at.
          Ensures-bind _ _
            (step_update (Holds id dead_letter) (Holds id dead_letter) (Others id) _
              (λ t rows x. x))
            λ _. step_read (Holds id dead_letter) (Others id) _ λ u.
              Ensures-bind _ _ (keep_Holds dead_letter u _ (KeepsTasks-redis_do env _))
                λ _. save_and_record dead_letter u event _ _ _ refl

  -- Whatever the task's state and however the calls end: when the handler returns, no row is
  -- RUNNING if no other row was.
  pub handle_execution_failure-Settled :
      (error : String)
      → Ensures
          (On (Others id))
          (handle_execution_failure env error)
          (λ _. On (Settled id))
          (On (Others id))
  unfolding handle_execution_failure
  handle_execution_failure-Settled error = step_read (Others id) (Others id) _ λ before.
      Ensures-bind _ _
        (step_update (Read before (Others id)) (Others id) (Others id) _ (λ t rows x. x.1))
        λ _. step_read (Others id) (Others id) _ λ u.
          Ensures-if (can_retry u) _ _
            (λ _.
              Ensures-bind _ _ (forget u (schedule_retry-Settled before.status error _ none))
                λ _. keep_Settled _ (KeepsTasks-emit _))
            (λ _.
              Ensures-bind _ _ (forget u (move_to_dead_letter-Settled before.status error _))
                λ _. keep_Settled _ (KeepsTasks-emit _))
    where
      forget :
          (u : Task) {m : Exec Frame Unit}
          → Ensures (On (Others id)) m (λ _. On (Settled id)) (On (Others id))
          → Ensures (On (Read u (Others id))) m (λ _. On (Settled id)) (On (Others id))
      forget u h = Ensures-weaken _ h (λ f x. x.1) (λ _ f x. x) (λ f x. x)
