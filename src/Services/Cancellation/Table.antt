-- ===== src/Services/Cancellation/Table.antt =====
-- A cancellation over a table with no RUNNING row.
use atlas_queue.Prelude.{refl, [], ◌∷◌, any}
use atlas_queue.Domain.Enums.{completed, cancelled, dead_letter, scheduled, same_status}
use atlas_queue.Domain.Task.{TaskId}
use atlas_queue.Redis.Queue.{mark_cancelled, remove_scheduled}
use atlas_queue.Runtime.Exec.Ensures.{Ensures-bind, Ensures-if, Ensures-pure, Ensures-raise}
use atlas_queue.Runtime.World.{Env}
use atlas_queue.Runtime.Frame.{on_world}
use atlas_queue.Services.Cancellation.{cancel_found, cancel}
use atlas_queue.Services.QueueManager.Table.{require-Quiet}
use atlas_queue.Services.Rows.{KeepsTasks-now, KeepsTasks-redis_do, KeepsTasks-emit}
use atlas_queue.Services.Rows.Calm.{
  KeepsQuiet, KeepsTable, table_keep, calm_keep, calm-transition, calm-update, calm_read,
  table_read, table-save, table-append, Ensures-with_task, read_task-Quiet,
}

module _ (env : Env) where
  mark-Table : (id : TaskId) → KeepsTable (on_world (mark_cancelled env id))
  unfolding mark_cancelled
  mark-Table id = table_keep _ (KeepsTasks-redis_do env _)

  unschedule-Table : (id : TaskId) → KeepsTable (on_world (remove_scheduled env id))
  unfolding remove_scheduled
  unschedule-Table id = table_keep _ (KeepsTasks-redis_do env _)

  cancel_found-Table : KeepsTable (cancel_found env)
  unfolding cancel_found
  cancel_found-Table = table_read _ λ before.
      Ensures-bind _ _
        (Ensures-if (any (same_status before.status) (completed ∷ cancelled ∷ dead_letter ∷ [])) _ _
          (λ _. Ensures-raise _ (λ f h. h)) (λ _. Ensures-pure tt (λ f h. h)))
        λ _. Ensures-bind _ _ (mark-Table before.id) λ _.
          Ensures-bind _ _
            (Ensures-if (same_status before.status scheduled) _ _ (λ _. unschedule-Table before.id)
              (λ _. Ensures-pure tt (λ f h. h)))
            λ _. Ensures-bind _ _ (calm-transition env cancelled refl) λ _.
              Ensures-bind _ _ (calm_keep _ (KeepsTasks-now env)) λ at.
                Ensures-bind _ _ (calm-update _ (λ t. refl)) λ _. calm_read _ λ t calm.
                  Ensures-bind _ _ (table-save env t calm) λ _.
                    Ensures-bind _ _ (table-append env _ _ _ _ _ _) λ _.
                      Ensures-bind _ _ (table_keep _ (KeepsTasks-emit _))
                        λ _. Ensures-pure t (λ f h. h)

  pub cancel-Quiet : (id : TaskId) → KeepsQuiet (cancel env id)
  unfolding cancel
  cancel-Quiet id = Ensures-bind _ _ (read_task-Quiet env id) λ found.
      Ensures-bind _ _ (require-Quiet id found) λ t. Ensures-with_task t _ cancel_found-Table
