-- ===== src/Worker/Executor/Retries.antt =====
-- How often a task can fail.
use atlas_queue.Prelude.{
  ℕ, suc, ◌+◌, ◌≤◌, ◌<◌, ◌≡◌, refl, ◌≢◌, ◌∙◌, ◌⊎◌, inl, inr, String, arith, subst,
}
use atlas_queue.Domain.Exceptions.{ok}
use atlas_queue.Domain.Enums.{queued, dead_letter, completed, cancelled}
use atlas_queue.Domain.Task.{Task}
use atlas_queue.Runtime.Exec.Ensures.{Post}
use atlas_queue.Runtime.World.{Env, World}
use atlas_queue.Worker.Executor.{Executors, execute_task}
use atlas_queue.Services.FailureHandler.Counts.{Failed}
use atlas_queue.Worker.Executor.Outcome.{Outcome, executed}

-- `Failures n t u`: the executions of the task `t` have returned `n` times in a row and neither
-- completed nor cancelled it, and `u` is what the last of them left.
pub data Failures (t : Task) : ℕ → Task → Type 0 where
  fresh : Failures t 0 t
  again :
      {n : ℕ} {u v : Task}
      → Failures t n u
      → (env : Env) (x : Executors) (worker_id : String) (w w' : World)
      → execute_task env x worker_id (record { task = u; world = w })
        ≡ (ok tt, record { task = v; world = w' })
      → v.status ≢ completed
      → v.status ≢ cancelled
      → Failures t (suc n) v

-- waiting for another execution, or at the end
abbrev pub Ended : Task → Type 0
Ended u =
    ((u.status ≡ queued) × (u.attempts < u.max_retries))
    ⊎ ((u.status ≡ dead_letter) × (u.max_retries ≤ u.attempts))

execute_task-Failed :
    (env : Env) (x : Executors) (worker_id : String) (u v : Task) (w w' : World)
    → execute_task env x worker_id (record { task = u; world = w })
      ≡ (ok tt, record { task = v; world = w' })
    → v.status ≢ completed
    → v.status ≢ cancelled
    → Failed u v
execute_task-Failed env x worker_id u v w w' returned not_completed not_cancelled = by_outcome (
    subst (Post (λ _ f. Outcome u f.task) (λ _. Unit)) returned
      ((executed env x u worker_id).at (record { task = u; world = w }) refl))
  where
    by_outcome : Outcome u v → Failed u v
    by_outcome (inl h) = absurd (not_cancelled h.0)
    by_outcome (inr (inl h)) = absurd (not_completed h.1)
    by_outcome (inr (inr h)) = h

abbrev Counts : Task → ℕ → Task → Type 0
Counts t n u = (u.attempts ≡ t.attempts + n) × (u.max_retries ≡ t.max_retries)

bounded :
    (t u v : Task) (n : ℕ)
    → Counts t n u
    → Counts u 1 v
    → (n ≡ 0) ⊎ (u.attempts < u.max_retries)
    → (suc n ≤ 1) ⊎ (t.attempts + suc n ≤ t.max_retries)
bounded t u v n a b (inl h) = inl (omega arith)
bounded t u v n (a, m) b (inr h) = inr (omega arith)

abbrev pub Bounds : Task → ℕ → Task → Type 0
Bounds t n u = Counts t n u × ((n ≡ 0) ⊎ Ended u) × ((n ≤ 1) ⊎ (t.attempts + n ≤ t.max_retries))

next :
    (env : Env) (x : Executors) (t u v : Task) (n : ℕ)
    → Bounds t n u
    → Failed u v
    → Bounds t (suc n) v
next env x t u v n (counts, waiting, le) (was_queued, once, ends) =
    ((omega arith, once.1 ∙ counts.1), inr ends, bounded t u v n counts once (left waiting))
  where
    left : (n ≡ 0) ⊎ Ended u → (n ≡ 0) ⊎ (u.attempts < u.max_retries)
    left (inl h) = inl h
    left (inr (inl h)) = inr h.1
    left (inr (inr h)) = cc

-- Executions that fail come to an end: after `n` of them in a row the task has `n` attempts more
-- and the same maximum; it is DEAD_LETTER if its attempts have reached the maximum, and QUEUED
-- again if they have not; and `n` is at most one, or within the attempts that were left.
pub Failures-Bounds : {t u : Task} {n : ℕ} → Failures t n u → Bounds t n u
Failures-Bounds fresh = ((omega arith, refl), inl refl, inl (omega arith))
Failures-Bounds {t} (again {n} {u} {v} before env x worker_id w w' returned nc nx) =
    next env x t u v n (Failures-Bounds before)
      (execute_task-Failed env x worker_id u v w w' returned nc nx)
