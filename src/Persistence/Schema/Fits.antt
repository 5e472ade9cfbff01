-- ===== src/Persistence/Schema/Fits.antt =====
-- The rows that the repositories write, against the columns of their tables.
use Prim.Native.String.{count}
use atlas_queue.Prelude.{
  ℕ, ◌≤◌, ◌≡◌, refl, map, String, true, Option, none, some, List, [], ◌∷◌, ◌++◌, All, arith, inl,
  inr, ◌==◌, Bool-cases,
}
use atlas_queue.Domain.Enums.{
  TaskStatus, ExecutorType, WorkerStatus, pending, scheduled, queued, running, completed, failed,
  cancelled, dead_letter, enqueue_failed, python, webhook, active, idle, offline, status_value,
  executor_value, worker_status_value,
}
use atlas_queue.Domain.Task.{Task, Instant}
use atlas_queue.Domain.Worker.{Worker}
use atlas_queue.Persistence.Models.{TaskModel, WorkerModel}
use atlas_queue.Persistence.Mapping.{to_model_task}
use atlas_queue.Persistence.Schema.{Column, optional, text, date_time, string, task_columns}
use atlas_queue.Persistence.Tasks.{save, assign, update_row}
use atlas_queue.Persistence.Tasks.Saved.{Saved, inserted, assigned, save-Saved}
use atlas_queue.Persistence.Workers.{save_worker, upsert_worker}
use atlas_queue.Persistence.Workers.Table as Workers
use atlas_queue.Runtime.Exec.Ensures.{Post, Ensures-weaken}
use atlas_queue.Runtime.World.{Env, World}
use atlas_queue.Persistence.Schema.Cells.{
  Cell, time_cell, text_cell, or_null, Accepts, AllAccept, nil, ◌&◌, task_cells, TaskFits,
  WorkerFits, Sized,
}

count-status_value : (s : TaskStatus) → count (status_value s) ≤ 32
count-status_value pending = omega arith
count-status_value scheduled = omega arith
count-status_value queued = omega arith
count-status_value running = omega arith
count-status_value completed = omega arith
count-status_value failed = omega arith
count-status_value cancelled = omega arith
count-status_value dead_letter = omega arith
count-status_value enqueue_failed = omega arith

count-executor_value : (e : ExecutorType) → count (executor_value e) ≤ 32
count-executor_value python = omega arith
count-executor_value webhook = omega arith

count-worker_status_value : (s : WorkerStatus) → count (worker_status_value s) ≤ 32
count-worker_status_value active = omega arith
count-worker_status_value idle = omega arith
count-worker_status_value offline = omega arith

-- an optional value in a column that may be NULL
or_null-Accepts :
    {A : Type 0} (c : Column) (f : A → Cell)
    → c.nullable ≡ true
    → (o : Option A) → ((a : A) → o ≡ some a → Accepts c (f a))
    → Accepts c (or_null f o)
or_null-Accepts c f may none h = may
or_null-Accepts c f may (some a) h = h a refl

module _ (t : Task) (z : Sized t) (c d : Instant) where
  open z use {name, priority, attempts, max_retries, timeout_seconds, worker_id, idempotency_key}

  -- an optional instant
  time-Accepts : (o : Option Instant) → Accepts (optional "" date_time) (or_null (λ t. time_cell) o)
  time-Accepts o = or_null-Accepts (optional "" date_time) _ refl o (λ _ _. tt)

  -- the row of the task, under any idempotency key that fits
  keyed-Fits :
      (k : Option String)
      → Accepts (optional "idempotency_key" (string 255)) (or_null text_cell k)
      → TaskFits (record (to_model_task c d t) { idempotency_key = k })
  unfolding to_model_task
  keyed-Fits k h = (
    refl,
    tt
        & name
        & count-executor_value t.executor_type
        & tt
        & count-status_value t.status
        & priority
        & time-Accepts t.scheduled_at
        & attempts
        & max_retries
        & timeout_seconds
        & tt
        & or_null-Accepts (optional "worker_id" (string 128)) _ refl t.worker_id worker_id
        & tt
        & or_null-Accepts (optional "error" text) _ refl t.error (λ _ _. tt)
        & h
        & tt
        & tt
        & time-Accepts t.started_at
        & time-Accepts t.finished_at
        & nil,
  )

  pub to_model_task-Fits : TaskFits (to_model_task c d t)
  unfolding to_model_task
  to_model_task-Fits = keyed-Fits t.idempotency_key (
      or_null-Accepts (optional "idempotency_key" (string 255)) _ refl t.idempotency_key
        idempotency_key)

  assign-Fits : (m : TaskModel) → TaskFits m → TaskFits (assign d t m)
  unfolding assign to_model_task
  assign-Fits m (_, h) = keyed-Fits m.idempotency_key (key h)
    where
      key :
          AllAccept task_columns (map (λ x. x.1) (task_cells m))
          → Accepts (optional "idempotency_key" (string 255)) (or_null text_cell m.idempotency_key)
      key (_ & _ & _ & _ & _ & _ & _ & _ & _ & _ & _ & _ & _ & _ & h & _) = h

All-append :
    {A : Type 0} (P : A → Type 0) (xs : List A) (x : A) → All P xs → P x → All P (xs ++ x ∷ [])
All-append P [] x h p = (p, tt)
All-append P (y ∷ xs) x h p = (h.0, All-append P xs x h.1 p)

All-update_row :
    (P : TaskModel → Type 0) (id : ℕ) (f : TaskModel → TaskModel) (rows : List TaskModel)
    → ((m : TaskModel) → P m → P (f m))
    → All P rows
    → All P (update_row id f rows)
unfolding update_row
All-update_row P id f [] keeps h = tt
All-update_row P id f (m ∷ ms) keeps h = elim (Bool-cases (m.id == id)) [
  | inl e ↦ rw e (keeps m h.0, h.1)
  | inr e ↦ rw e (h.0, All-update_row P id f ms keeps h.1)
]

pub Saved-Fits :
    (t : Task) (rows rows' : List TaskModel)
    → Sized t
    → All TaskFits rows
    → Saved t rows rows'
    → All TaskFits rows'
Saved-Fits t rows rows' z h (inserted c d fresh e) =
    rw e (All-append TaskFits rows _ h (to_model_task-Fits t z c d))
Saved-Fits t rows rows' z h (assigned at m found e) =
    rw e (All-update_row TaskFits t.id _ rows (assign-Fits t z at at) h)

worker-Fits :
    (u : Worker) (id : ℕ) (at : Instant)
    → count u.hostname ≤ 255
    → WorkerFits (record {
      id = id;
      hostname = u.hostname;
      status = worker_status_value u.status;
      registered_at = at;
      last_seen_at = u.last_seen_at;
      worker_metadata = u.metadata;
    })
worker-Fits u id at z = (refl, tt & z & count-worker_status_value u.status & tt & tt & tt & nil)

All-upsert_worker :
    (u : Worker) (rows : List WorkerModel)
    → count u.hostname ≤ 255
    → All WorkerFits rows
    → All WorkerFits (upsert_worker u rows)
unfolding upsert_worker
All-upsert_worker u [] z h = (worker-Fits u u.id u.registered_at z, tt)
All-upsert_worker u (m ∷ ms) z h = elim (Bool-cases (m.id == u.id)) [
  | inl e ↦ rw e (worker-Fits u m.id m.registered_at z, h.1)
  | inr e ↦ rw e (h.0, All-upsert_worker u ms z h.1)
]

-- The repositories write what the columns take: where the rows of the tasks and of the workers fit
-- their tables, column by column, they still do after a save, however it ends, of a task whose
-- texts are no longer than their columns and whose numbers have 32 bits, and of a worker whose
-- host's name has at most 255 characters.
pub saves-Fit :
    (env : Env) (t : Task) (u : Worker) (w : World)
    → Sized t
    → count u.hostname ≤ 255
    → All TaskFits w.db.tasks
    → All WorkerFits w.db.workers
    → Post (λ _ v. All TaskFits v.db.tasks) (λ v. All TaskFits v.db.tasks) (save env t w)
      × Post
          (λ _ v. All WorkerFits v.db.workers)
          (λ v. All WorkerFits v.db.workers)
          (save_worker env u w)
saves-Fit env t u w z short tasks workers = (
  (Ensures-weaken _ (save-Saved env t w.db.tasks) (λ v h. h)
        (λ _ v s. Saved-Fits t w.db.tasks v.db.tasks z tasks s) (λ v h. rw h tasks)).at
      w refl,
  (Ensures-weaken _ (Workers.save_worker-At env u w.db.workers) (λ v h. h)
        (λ _ v h. rw h (All-upsert_worker u w.db.workers short workers)) (λ v h. rw h workers)).at
      w refl,
)
