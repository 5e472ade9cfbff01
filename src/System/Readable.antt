-- ===== src/System/Readable.antt =====
-- The table of tasks after any history of the system.
use atlas_queue.Prelude.{
  ℕ, ◌≡◌, refl, none, some, List, [], ◌∷◌, ◌++◌, All, ◌==◌, ==_iff, arith, inl, inr, Bool-cases,
}
use atlas_queue.Domain.Exceptions.{ok}
use atlas_queue.Domain.Task.{Task}
use atlas_queue.Persistence.Models.{TaskModel}
use atlas_queue.Persistence.Mapping.{
  to_domain_task, to_model_task, filled, to_domain_task-to_model_task,
}
use atlas_queue.Persistence.Tasks.{row_of, assign, update_row}
use atlas_queue.Persistence.Tasks.Saved.{inserted, assigned}
use atlas_queue.Persistence.Tasks.Table.{stored, row_of-append, id-assign, assign-to_domain_task}
use atlas_queue.Runtime.World.{Env, World, Settings}
use atlas_queue.Scheduler.Kept.{kept-campaign}
use atlas_queue.Services.Kept.{kept-submit, kept-cancel, kept-retry_task}
use atlas_queue.Services.Rows.Kept.{Closed, kept-session}
use atlas_queue.Services.WorkerRegistry.Kept.{kept-start_worker, kept-heartbeat_loop}
use atlas_queue.System.{
  Action, request_task, request_cancel, request_retry, work, schedule, join, beats, perform,
  history, post_task, post_cancel, post_retry,
}
use atlas_queue.Worker.Kept.{kept-consume}

-- the row reads back as a task
abbrev pub Readable : TaskModel → Type 0
Readable m = (t : Task) × (to_domain_task m ≡ ok t)

-- no two rows have the same id
abbrev pub Distinct : List TaskModel → Type 0
Distinct [] = Unit
Distinct (m ∷ ms) = (row_of m.id ms ≡ none) × Distinct ms

abbrev pub Sound : List TaskModel → Type 0
Sound rows = All Readable rows × Distinct rows

All-append :
    (rows : List TaskModel) (m : TaskModel)
    → All Readable rows
    → Readable m
    → All Readable (rows ++ m ∷ [])
All-append [] m h r = (r, tt)
All-append (x ∷ xs) m h r = (h.0, All-append xs m h.1 r)

Distinct-append :
    (rows : List TaskModel) (m : TaskModel)
    → row_of m.id rows ≡ none
    → Distinct rows
    → Distinct (rows ++ m ∷ [])
Distinct-append [] m fresh h = (refl, tt)
Distinct-append (x ∷ xs) m fresh (alone, rest) =
    let later : row_of m.id xs ≡ none = ground arith in
    (ground (arith, later, row_of-append x.id xs m later), Distinct-append xs m later rest)

All-update_row :
    (id : ℕ) (f : TaskModel → TaskModel) (rows : List TaskModel)
    → ((m : TaskModel) → m.id ≡ id → Readable (f m))
    → All Readable rows
    → All Readable (update_row id f rows)
unfolding update_row
All-update_row id f [] r h = tt
All-update_row id f (x ∷ xs) r h = elim (Bool-cases (x.id == id)) [
  | inl e ↦ rw e (r x ((==_iff x.id id).0 e), h.1)
  | inr e ↦ rw e (h.0, All-update_row id f xs r h.1)
]

-- a row that is not there is not there after an update
row_of-update_row-none :
    (id j : ℕ) (f : TaskModel → TaskModel) (rows : List TaskModel)
    → ((m : TaskModel) → (f m).id ≡ m.id)
    → row_of j rows ≡ none
    → row_of j (update_row id f rows) ≡ none
unfolding update_row
row_of-update_row-none id j f [] same h = refl
row_of-update_row-none id j f (x ∷ xs) same h =
    ground (arith, same x, row_of-update_row-none id j f xs same)

Distinct-update_row :
    (id : ℕ) (f : TaskModel → TaskModel) (rows : List TaskModel)
    → ((m : TaskModel) → (f m).id ≡ m.id)
    → Distinct rows
    → Distinct (update_row id f rows)
unfolding update_row
Distinct-update_row id f [] same h = tt
Distinct-update_row id f (x ∷ xs) same h = elim (Bool-cases (x.id == id)) [
  | inl e ↦ rw (e, same x) h
  | inr e ↦
      rw e (row_of-update_row-none id x.id f xs same h.0, Distinct-update_row id f xs same h.1)
]

Sound-Saved : Closed Sound
unfolding to_model_task
Sound-Saved u rows rows' (inserted c d fresh e) (readable, distinct) =
    let m : TaskModel = to_model_task c d u in
    rw e (
      All-append rows m readable (filled c d u, to_domain_task-to_model_task c d u),
      Distinct-append rows m fresh distinct,
    )
Sound-Saved u rows rows' (assigned at m found e) (readable, distinct) = rw e (
  All-update_row u.id (assign at u) rows
      (λ x mine. (stored (some x) at at u, assign-to_domain_task at at u x mine)) readable,
  Distinct-update_row u.id (assign at u) rows (id-assign at u) distinct,
)

module _ (s : Settings) where
  perform-Sound : (a : Env × Action) (w : World) → Sound w.db.tasks → Sound (perform s a w).db.tasks
  unfolding perform post_task post_cancel post_retry
  perform-Sound (env, request_task body) w =
      (kept-session Sound env _ (kept-submit Sound Sound-Saved env s body)).after w
  perform-Sound (env, request_cancel id) w =
      (kept-session Sound env _ (kept-cancel Sound Sound-Saved env id)).after w
  perform-Sound (env, request_retry id) w =
      (kept-session Sound env _ (kept-retry_task Sound Sound-Saved env s id)).after w
  perform-Sound (env, work x worker_id) w =
      (kept-consume Sound Sound-Saved env x worker_id s).after w
  perform-Sound (env, schedule owner_id ticks) w =
      (kept-campaign Sound Sound-Saved env s owner_id ticks).after w
  perform-Sound (env, join worker_id hostname) w =
      (kept-start_worker Sound env s worker_id hostname).after w
  perform-Sound (env, beats rounds id hostname) w =
      (kept-heartbeat_loop Sound env s rounds id hostname).after w

  history-kept :
      (actions : List (Env × Action)) (w : World)
      → Sound w.db.tasks
      → Sound (history s actions w).db.tasks
  unfolding history
  history-kept [] w h = h
  history-kept (a ∷ actions) w h = history-kept actions (perform s a w) (perform-Sound a w h)

-- After any history of requests, workers and schedulers that starts with a table of tasks in which
-- every row reads back as a task and no two rows have the same id, so it is in the table of tasks.
-- Each action of the history may have calls that fail.
pub history-Sound :
    (s : Settings) (actions : List (Env × Action)) (start : World)
    → Sound start.db.tasks
    → Sound (history s actions start).db.tasks
history-Sound s actions start h = history-kept s actions start h
