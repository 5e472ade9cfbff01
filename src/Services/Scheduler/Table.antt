-- ===== src/Services/Scheduler/Table.antt =====
-- The release of due tasks over a table with no RUNNING row.
use atlas_queue.Prelude.{ℕ, suc, refl, Option, none, some, List, [], ◌∷◌}
use atlas_queue.Domain.Enums.{queued, scheduled, same_status}
use atlas_queue.Domain.Task.{Task, TaskId}
use atlas_queue.Redis.Queue.{claim_due_scheduled, enqueue_ready}
use atlas_queue.Runtime.Exec.Ensures.{Ensures-bind, Ensures-if, Ensures-pure}
use atlas_queue.Runtime.World.{Env, Settings}
use atlas_queue.Runtime.World.Calls.{Ensures-redis_call}
use atlas_queue.Services.Scheduler.{release, process_due, process_each, process_due_tasks}
use atlas_queue.Services.Rows.{KeepsTasks-redis_do}
use atlas_queue.Services.Rows.Calm.{
  KeepsQuiet, KeepsTable, table_keep, calm-transition, calm_read, table_read, table-save,
  table-append, Ensures-with_task, read_task-Quiet, now-Quiet,
}

module _ (env : Env) (settings : Settings) where
  release-Table : KeepsTable (release env settings)
  unfolding release enqueue_ready
  release-Table = table_read _ λ before.
      Ensures-bind _ _ (table_keep _ (KeepsTasks-redis_do env _)) λ _.
        Ensures-bind _ _ (calm-transition env queued refl) λ _.
          calm_read _
            λ t calm. Ensures-bind _ _ (table-save env t calm) λ _. table-append env _ _ _ _ _ _

  process_due-Quiet : (n : ℕ) (o : Option Task) → KeepsQuiet (process_due env settings n o)
  unfolding process_due
  process_due-Quiet n none = Ensures-pure n (λ w h. h)
  process_due-Quiet n (some t) =
      Ensures-if (same_status t.status scheduled) _ _
        (λ _.
          Ensures-bind _ _ (Ensures-with_task t _ release-Table)
            λ _. Ensures-pure (suc n) (λ w h. h))
        (λ _. Ensures-pure n (λ w h. h))

  process_each-Quiet : (n : ℕ) (ids : List TaskId) → KeepsQuiet (process_each env settings n ids)
  unfolding process_each
  process_each-Quiet n [] = Ensures-pure n (λ w h. h)
  process_each-Quiet n (id ∷ ids) =
      Ensures-bind _ _ (read_task-Quiet env id)
        λ o. Ensures-bind _ _ (process_due-Quiet n o) λ k. process_each-Quiet k ids

  pub process_due_tasks-Quiet : KeepsQuiet (process_due_tasks env settings)
  unfolding process_due_tasks claim_due_scheduled
  process_due_tasks-Quiet =
      Ensures-bind _ _
        (Ensures-bind _ _ (now-Quiet env)
          λ at. Ensures-redis_call env _ (λ w at h. (h, h)) (λ w h. h))
        (process_each-Quiet 0)
