-- ===== src/Services/Kept.antt =====
-- The services keep what every save of a task keeps of the table.
use atlas_queue.Prelude.{ℕ, String, Option, none, some, List, [], ◌∷◌}
use atlas_queue.Domain.Exceptions.{Exc}
use atlas_queue.Domain.Enums.{TaskStatus}
use atlas_queue.Domain.Task.{Task, TaskId, Instant}
use atlas_queue.Persistence.Models.{TaskModel}
use atlas_queue.Redis.Queue.{
  enqueue_ready, enqueue_scheduled, enqueue_dlq, clear_inflight, mark_cancelled, remove_scheduled,
  get_inflight_task_ids, claim_due_scheduled,
}
use atlas_queue.Runtime.Exec.{Exec}
use atlas_queue.Runtime.Exec.Invariant.{Preserves}
use atlas_queue.Runtime.World.{Env, World, Settings}
use atlas_queue.Services.QueueManager.{
  SubmitTaskRequest, existing_or, require, enqueue, enqueue_failure, submit_new, find_existing,
  submit_fresh, submit, get_task_or_raise, retry_found, retry_task, reconcile_each,
  reconcile_enqueue_failed,
}
use atlas_queue.Services.Cancellation.{cancel_found, cancel}
use atlas_queue.Services.FailureHandler.{
  schedule_retry, move_to_dead_letter, handle_execution_failure, handle_timeout,
}
use atlas_queue.Services.Scheduler.{release, process_due, process_each, process_due_tasks}
use atlas_queue.Services.Inflight.{check_running, reconcile_one, reconcile_ids, reconcile}
use atlas_queue.Services.Rows.Kept.{Closed, InDb, InFrame, kept_rules}

module _ (P : List TaskModel → Type 0) (closed : Closed P) (env : Env) where
  abbrev Db : {A : Type 0} → Exec World A → Type 0
  Db m = Preserves (InDb P) m

  module _ (settings : Settings) where
    kept-enqueue : Preserves (InFrame P) (enqueue env settings)
    unfolding enqueue enqueue_ready enqueue_scheduled
    kept-enqueue = search kept_rules depth 24

    kept-enqueue_failure : (exc : Exc) → Preserves (InFrame P) (enqueue_failure env settings exc)
    unfolding enqueue_failure
    kept-enqueue_failure exc = search kept_rules depth 24

    kept-submit_new : Preserves (InFrame P) (submit_new env settings)
    unfolding submit_new
    kept-submit_new = search (kept_rules, kept-enqueue, kept-enqueue_failure) depth 24

    kept-find_existing : (key : Option String) → Db (find_existing env settings key)
    unfolding find_existing
    kept-find_existing none = search kept_rules depth 24
    kept-find_existing (some key) = search kept_rules depth 24

    kept-submit_fresh : (request : SubmitTaskRequest) → Db (submit_fresh env settings request)
    unfolding submit_fresh
    kept-submit_fresh request = search (kept_rules, kept-submit_new) depth 24

    pub kept-submit : (request : SubmitTaskRequest) → Db (submit env settings request)
    unfolding submit
    kept-submit request = search (kept_rules, kept-find_existing, kept-existing) depth 24
      where
        kept-existing : (o : Option Task) → Db (existing_or (submit_fresh env settings request) o)
        kept-existing none = kept-submit_fresh request
        kept-existing (some t) = search kept_rules

    kept-require : (id : TaskId) (o : Option Task) → Db (require id o)
    kept-require id none = search kept_rules
    kept-require id (some t) = search kept_rules

    kept-retry_found : Preserves (InFrame P) (retry_found env settings)
    unfolding retry_found enqueue_ready
    kept-retry_found = search kept_rules depth 30

    pub kept-retry_task : (id : TaskId) → Db (retry_task env settings id)
    unfolding retry_task get_task_or_raise
    kept-retry_task id = search (kept_rules, kept-require, kept-retry_found) depth 24

    kept-reconcile_each : (count : ℕ) (ts : List Task) → Db (reconcile_each env settings count ts)
    unfolding reconcile_each
    kept-reconcile_each count [] = search kept_rules
    kept-reconcile_each count (t ∷ ts) =
        search (kept_rules, kept-enqueue, λ (count' : ℕ). kept-reconcile_each count' ts) depth 24

    pub kept-reconcile_enqueue_failed : (n : ℕ) → Db (reconcile_enqueue_failed env settings n)
    unfolding reconcile_enqueue_failed
    kept-reconcile_enqueue_failed n = search (kept_rules, kept-reconcile_each) depth 24

    kept-release : Preserves (InFrame P) (release env settings)
    unfolding release enqueue_ready
    kept-release = search kept_rules depth 24

    kept-process_due : (n : ℕ) (o : Option Task) → Db (process_due env settings n o)
    unfolding process_due
    kept-process_due n none = search kept_rules
    kept-process_due n (some t) = search (kept_rules, kept-release) depth 24

    kept-process_each : (n : ℕ) (ids : List TaskId) → Db (process_each env settings n ids)
    unfolding process_each
    kept-process_each n [] = search kept_rules
    kept-process_each n (id ∷ ids) =
        search (kept_rules, kept-process_due, λ (n' : ℕ). kept-process_each n' ids) depth 24

    pub kept-process_due_tasks : Db (process_due_tasks env settings)
    unfolding process_due_tasks claim_due_scheduled
    kept-process_due_tasks = search (kept_rules, kept-process_each) depth 24

  kept-cancel_found : Preserves (InFrame P) (cancel_found env)
  unfolding cancel_found mark_cancelled remove_scheduled
  kept-cancel_found = search kept_rules depth 30

  pub kept-cancel : (id : TaskId) → Db (cancel env id)
  unfolding cancel
  kept-cancel id = search (kept_rules, kept-cancel_found, kept-required) depth 24
    where
      kept-required : (o : Option Task) → Db (require id o)
      kept-required none = search kept_rules
      kept-required (some t) = search kept_rules

  kept-schedule_retry :
      (from : TaskStatus) (error event : String) (template : Option (ℕ → String))
      → Preserves (InFrame P) (schedule_retry env from error event template)
  unfolding schedule_retry enqueue_scheduled
  kept-schedule_retry from error event template = search kept_rules depth 24

  kept-move_to_dead_letter :
      (from : TaskStatus) (error event : String)
      → Preserves (InFrame P) (move_to_dead_letter env from error event)
  unfolding move_to_dead_letter enqueue_dlq
  kept-move_to_dead_letter from error event = search kept_rules depth 24

  pub kept-handle_execution_failure :
      (error : String) → Preserves (InFrame P) (handle_execution_failure env error)
  unfolding handle_execution_failure
  kept-handle_execution_failure error =
      search (kept_rules, kept-schedule_retry, kept-move_to_dead_letter) depth 24

  kept-handle_timeout : Preserves (InFrame P) (handle_timeout env)
  unfolding handle_timeout clear_inflight
  kept-handle_timeout = search (kept_rules, kept-schedule_retry, kept-move_to_dead_letter) depth 24

  kept-check_running : (n : ℕ) (t : Task) (o : Option Instant) → Db (check_running env n t o)
  unfolding check_running
  kept-check_running n t none = search kept_rules
  kept-check_running n t (some at) = search (kept_rules, kept-handle_timeout) depth 24

  kept-reconcile_one : (n : ℕ) (id : TaskId) (o : Option Task) → Db (reconcile_one env n id o)
  unfolding reconcile_one clear_inflight
  kept-reconcile_one n id none = search kept_rules depth 24
  kept-reconcile_one n id (some t) = search (kept_rules, kept-check_running) depth 24

  kept-reconcile_ids : (n : ℕ) (ids : List TaskId) → Db (reconcile_ids env n ids)
  unfolding reconcile_ids
  kept-reconcile_ids n [] = search kept_rules
  kept-reconcile_ids n (id ∷ ids) =
      search (kept_rules, kept-reconcile_one, λ (n' : ℕ). kept-reconcile_ids n' ids) depth 24

  pub kept-reconcile : Db (reconcile env)
  unfolding reconcile get_inflight_task_ids
  kept-reconcile = search (kept_rules, kept-reconcile_ids) depth 24
