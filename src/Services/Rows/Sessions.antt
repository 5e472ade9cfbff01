-- ===== src/Services/Rows/Sessions.antt =====
-- Sessions over tables with no RUNNING row.
use atlas_queue.Prelude.{Option, none, some}
use atlas_queue.Domain.Exceptions.{Result, ok, err}
use atlas_queue.Domain.Task.{TaskId}
use atlas_queue.Persistence.Models.{TaskModel}
use atlas_queue.Persistence.Mapping.{to_domain_task}
use atlas_queue.Persistence.Tasks.{get_by_id, optional_task}
use atlas_queue.Runtime.Exec.{Exec}
use atlas_queue.Runtime.Exec.Ensures.{Post, Ensures, Ensures-bind, Ensures-lift, Ensures-pure}
use atlas_queue.Runtime.World.{Env, World, Fault, served, lost_request, lost_reply, tick}
use atlas_queue.Runtime.World.Calls.{Ensures-db_call}
use atlas_queue.Runtime.Session.{session, commit, end_session}
use atlas_queue.Services.Rows.Quiet.{Quiet}

abbrev pub QuietDb : World → Type 0
QuietDb w = Quiet w.db.tasks

-- a session commits what its body ensures when it returns, and rolls back to a quiet table if not
pub session-Quiet :
    {A : Type 0} (env : Env) (m : Exec World A)
    → Ensures QuietDb m (λ _. QuietDb) (λ _. Unit)
    → Ensures QuietDb (session env m) (λ _. QuietDb) QuietDb
unfolding session
session-Quiet env m h = record { at = λ w q. ended w q (m w) (h.at w q) }
  where
    committed :
        (w : World) (f : Fault) (q : QuietDb w) {A : Type 0} (a : A) (v : World)
        → QuietDb v
        → Post (λ _. QuietDb) QuietDb (commit w.db f a v)
    committed w served q a v p = p
    committed w (lost_request m) q a v p = q
    committed w (lost_reply m) q a v p = p

    ended :
        (w : World)
        → QuietDb w
        → {A : Type 0} (r : Result A × World) → Post (λ _. QuietDb) (λ _. Unit) r
        → Post (λ _. QuietDb) QuietDb (end_session w.db env r)
    ended w q (ok a, v) p = committed w (env.fault v.calls) q a (tick v) p
    ended w q (err e, v) p = q

module _ (env : Env) where
  pub get_by_id-Quiet :
      (id : TaskId) → Ensures QuietDb (get_by_id env id) (λ _. QuietDb) (λ _. Unit)
  unfolding get_by_id
  get_by_id-Quiet id =
      Ensures-bind {R = λ _. QuietDb} _ _ (Ensures-db_call env _ (λ w h. h) (λ w h. tt)) found
    where
      found :
          (o : Option TaskModel) → Ensures QuietDb (optional_task env o) (λ _. QuietDb) (λ _. Unit)
      found none = Ensures-pure none (λ w h. h)
      found (some m) =
          Ensures-bind {R = λ _. QuietDb} _ _
            (Ensures-lift (to_domain_task m) (λ _ w _ h. h) (λ w h. tt))
            λ t. Ensures-pure (some t) (λ w h. h)
