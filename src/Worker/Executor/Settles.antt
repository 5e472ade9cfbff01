-- ===== src/Worker/Executor/Settles.antt =====
-- The row of a task across one execution by `TaskExecutorService`.
use atlas_queue.Prelude.{ℕ, refl, String, List}
use atlas_queue.Domain.Exceptions.{Result, ok, err, message}
use atlas_queue.Domain.Enums.{running, completed, cancelled}
use atlas_queue.Domain.Task.{Task, TaskId, Fields}
use atlas_queue.Persistence.Models.{TaskModel}
use atlas_queue.Redis.Queue.{is_cancelled, clear_cancelled, mark_inflight, clear_inflight}
use atlas_queue.Runtime.Exec.{Exec}
use atlas_queue.Runtime.Exec.Ensures.{
  Post, Ensures, Ensures-bind, Ensures-if, Ensures-weaken, Ensures-try_except, Ensures-try_finally,
}
use atlas_queue.Runtime.World.{Env, World, tick}
use atlas_queue.Runtime.Frame.{Frame, on_world}
use atlas_queue.Services.FailureHandler.Settles.{
  Others, Holds, Settled, Read, save-Others, save-Settled, keep_Settled, move_to,
  handle_execution_failure-Settled,
}
use atlas_queue.Services.Rows.{
  View, On, KeepsTasks, KeepsTasks-now, KeepsTasks-redis_call, KeepsTasks-redis_do,
  KeepsTasks-append, KeepsTasks-bind, KeepsTasks-emit, step_keep, step_update, step_read,
}
use atlas_queue.Worker.Executor.{
  Executors, executor_of, run_executor, execute_cancelled, start_task, attempt, clean_up,
  execute_task,
}

module _ (env : Env) (x : Executors) (id : TaskId) where
  keep_Others :
      {A : Type 0} (m : Exec World A)
      → KeepsTasks m
      → Ensures (On (Others id)) (on_world m) (λ _. On (Others id)) (On (Others id))
  keep_Others m h = step_keep (Others id) (Others id) m h (λ t rows y. y)

  keep_Read :
      {A : Type 0} (u : Task) (m : Exec World A)
      → KeepsTasks m
      → Ensures (On (Read u (Others id))) (on_world m) (λ _. On (Others id)) (On (Others id))
  keep_Read u m h = Ensures-weaken _ (keep_Others m h) (λ f y. y.1) (λ _ f y. y) (λ f y. y)

  execute_cancelled-Settled :
      Ensures (On (Others id)) (execute_cancelled env x) (λ _. On (Settled id)) (On (Others id))
  unfolding execute_cancelled clear_cancelled
  execute_cancelled-Settled = step_read (Others id) (Others id) _ λ before.
      Ensures-bind _ _
        (Ensures-weaken _ (move_to env id cancelled) (λ f y. y.1) (λ _ f y. y) (λ f y. y))
        λ _.
          Ensures-bind _ _
            (step_keep (Holds id cancelled) (Others id) _ (KeepsTasks-now env) (λ t rows y. y.1))
            λ at.
              Ensures-bind _ _
                (step_update (Holds id cancelled) (Holds id cancelled) (Others id) _
                  (λ t rows y. y))
                λ _. step_read (Holds id cancelled) (Others id) _ λ u.
                  Ensures-bind _ _ (save-Settled env id cancelled u refl) λ _.
                    Ensures-bind _ _ (keep_Settled env id _ (KeepsTasks-append env u.id _ _ _ _ _))
                      λ _. keep_Settled env id _ (KeepsTasks-redis_do env _)

  mark_inflight-KeepsTasks :
      (t : TaskId) (worker : String) (ttl : ℕ) → KeepsTasks (mark_inflight env t worker ttl)
  unfolding mark_inflight
  mark_inflight-KeepsTasks t worker ttl =
      KeepsTasks-bind _ _ (KeepsTasks-now env)
        λ _. KeepsTasks-bind _ _ (KeepsTasks-redis_do env _) λ _. KeepsTasks-redis_do env _

  start_task-Others :
      (worker : String)
      → Ensures (On (Others id)) (start_task env x worker) (λ _. On (Others id)) (On (Others id))
  unfolding start_task
  start_task-Others worker = step_read (Others id) (Others id) _ λ before.
      Ensures-bind _ _
        (Ensures-weaken _ (move_to env id running) (λ f y. y.1) (λ _ f y. y.1) (λ f y. y))
        λ _.
          Ensures-bind _ _ (step_update (Others id) (Others id) (Others id) _ (λ t rows y. y)) λ _.
            Ensures-bind _ _ (keep_Others _ (KeepsTasks-now env)) λ at.
              Ensures-bind _ _ (step_update (Others id) (Others id) (Others id) _ (λ t rows y. y))
                λ _. step_read (Others id) (Others id) _ λ u.
                  Ensures-bind _ _ (save-Others env id u) λ _.
                    Ensures-bind _ _ (keep_Others _ (KeepsTasks-append env u.id _ _ _ _ _))
                      λ _. keep_Others _ (mark_inflight-KeepsTasks u.id worker _)

  run_executor-Others :
      Ensures (On (Others id)) (run_executor env x) (λ _. On (Others id)) (On (Others id))
  unfolding run_executor
  run_executor-Others = record {
    at = λ f y. answer (executor_of x f.task.executor_type f.world.calls f.task) f y;
  }
    where
      answer :
          (r : Result Fields) (f : Frame)
          → On (Others id) f
          → Post (λ _. On (Others id)) (On (Others id)) (r, record f { world = tick f.world })
      answer (ok a) f y = y
      answer (err e) f y = y

  attempt-Settled : Ensures (On (Others id)) (attempt env x) (λ _. On (Settled id)) (On (Others id))
  unfolding attempt
  attempt-Settled = Ensures-bind _ _ run_executor-Others λ result.
      step_read (Others id) (Others id) _ λ before.
        Ensures-bind _ _
          (Ensures-weaken _ (move_to env id completed) (λ f y. y.1) (λ _ f y. y) (λ f y. y))
          λ _.
            Ensures-bind _ _
              (step_keep (Holds id completed) (Others id) _ (KeepsTasks-now env) (λ t rows y. y.1))
              λ at.
                Ensures-bind _ _
                  (step_update (Holds id completed) (Holds id completed) (Others id) _
                    (λ t rows y. y))
                  λ _. step_read (Holds id completed) (Others id) _ λ u.
                    Ensures-bind _ _ (save-Settled env id completed u refl) λ _.
                      Ensures-bind _ _
                        (keep_Settled env id _ (KeepsTasks-append env u.id _ _ _ _ _))
                        λ _. keep_Settled env id _ (KeepsTasks-emit _)

  -- the `finally` keeps whatever is known of the object and the table
  clean_up-keeps :
      (X : View)
      → ((t : Task) (rows : List TaskModel) → X t rows → Others id t rows)
      → Ensures (On X) (clean_up env x) (λ _. On X) (On (Others id))
  unfolding clean_up clear_inflight
  clean_up-keeps X weaker = step_read X (Others id) _ λ u.
      Ensures-bind {R = λ _. On X} _ _
        (Ensures-weaken _ (step_keep X (Others id) _ (KeepsTasks-redis_do env _) weaker)
          (λ f y. y.1) (λ _ f y. y) (λ f y. y))
        λ _.
          Ensures-bind _ _ (step_keep X (Others id) _ (KeepsTasks-now env) weaker)
            λ _. step_keep X (Others id) _ (KeepsTasks-emit _) weaker

  -- When `execute_task` returns, no row is RUNNING if no other row was.
  pub execute_task-Settled :
      (worker : String)
      → Ensures (On (Others id)) (execute_task env x worker) (λ _. On (Settled id)) (On (Others id))
  unfolding execute_task is_cancelled
  execute_task-Settled worker = step_read (Others id) (Others id) _ λ t.
      Ensures-bind _ _ (keep_Read t _ (KeepsTasks-redis_call env _)) λ marked.
        Ensures-if marked _ _ (λ _. execute_cancelled-Settled)
          λ _. Ensures-bind _ _ (start_task-Others worker) λ _.
            Ensures-bind _ _ (keep_Others _ (KeepsTasks-now env)) λ _.
              Ensures-try_finally _ _
                (Ensures-try_except _ _ attempt-Settled
                  (λ exc. handle_execution_failure-Settled env id (message exc)))
                (λ _. clean_up-keeps (Settled id) (λ t rows y. y.1))
                (clean_up-keeps (Others id) (λ t rows y. y))
