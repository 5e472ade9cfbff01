-- ===== src/Worker/Kept.antt =====
-- The worker keeps what every save of a task keeps of the table.
use atlas_queue.Prelude.{String, Option, none, some, List}
use atlas_queue.Domain.Task.{Task, TaskId}
use atlas_queue.Persistence.Models.{TaskModel}
use atlas_queue.Redis.Queue.{
  is_cancelled, clear_cancelled, mark_inflight, clear_inflight, dequeue_ready,
}
use atlas_queue.Runtime.Exec.Invariant.{Preserves}
use atlas_queue.Runtime.World.{Env, Settings}
use atlas_queue.Services.Kept.{kept-handle_execution_failure}
use atlas_queue.Services.Rows.Kept.{Closed, InDb, InFrame, kept_rules}
use atlas_queue.Worker.Executor.{
  Executors, run_executor, execute_cancelled, start_task, attempt, clean_up, execute_task,
}
use atlas_queue.Worker.Pool.{process_found, process_task, process_popped, consume}

module _ (P : List TaskModel → Type 0) (closed : Closed P) (env : Env) (x : Executors)
    (worker_id : String) where
  kept-run_executor : Preserves (InFrame P) (run_executor env x)
  unfolding run_executor
  kept-run_executor = record { after = λ f p. p }

  kept-execute_cancelled : Preserves (InFrame P) (execute_cancelled env x)
  unfolding execute_cancelled clear_cancelled
  kept-execute_cancelled = search kept_rules depth 24

  kept-start_task : Preserves (InFrame P) (start_task env x worker_id)
  unfolding start_task mark_inflight
  kept-start_task = search kept_rules depth 30

  kept-attempt : Preserves (InFrame P) (attempt env x)
  unfolding attempt
  kept-attempt = search (kept_rules, kept-run_executor) depth 30

  kept-clean_up : Preserves (InFrame P) (clean_up env x)
  unfolding clean_up clear_inflight
  kept-clean_up = search kept_rules depth 24

  kept-execute_task : Preserves (InFrame P) (execute_task env x worker_id)
  unfolding execute_task is_cancelled
  kept-execute_task =
      search
        (
          kept_rules, kept-execute_cancelled, kept-start_task, kept-attempt, kept-clean_up,
          kept-handle_execution_failure,
        )
        depth 24

  kept-process_found : (o : Option Task) → Preserves (InDb P) (process_found env x worker_id o)
  unfolding process_found
  kept-process_found none = search kept_rules
  kept-process_found (some t) = search (kept_rules, kept-execute_task) depth 24

  kept-process_popped : (o : Option TaskId) → Preserves (InDb P) (process_popped env x worker_id o)
  unfolding process_popped process_task
  kept-process_popped none = search kept_rules
  kept-process_popped (some id) = search (kept_rules, kept-process_found) depth 24

  pub kept-consume : (settings : Settings) → Preserves (InDb P) (consume env x worker_id settings)
  unfolding consume dequeue_ready
  kept-consume settings = search (kept_rules, kept-process_popped) depth 24
