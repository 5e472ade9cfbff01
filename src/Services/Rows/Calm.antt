-- ===== src/Services/Rows/Calm.antt =====
-- Rules for services that save no RUNNING task: `Table` says that no row is RUNNING, and `Calm`
-- that the object is not RUNNING either.
use atlas_queue.Prelude.{◌≡◌, false, none, some, str_eq, String, Option}
use atlas_queue.Domain.Enums.{TaskStatus, running, status_value}
use atlas_queue.Domain.Task.{Task, TaskId}
use atlas_queue.Domain.Worker.{Metadata}
use atlas_queue.Persistence.Models.{TaskModel, Db}
use atlas_queue.Persistence.Mapping.{to_domain_task}
use atlas_queue.Persistence.Tasks.{save, get_by_id, optional_task}
use atlas_queue.Persistence.Events.{append}
use atlas_queue.Runtime.Exec.{Exec, gets, lift, ◌>>=◌}
use atlas_queue.Runtime.Exec.Ensures.{
  Post, Ensures, Ensures-bind, Ensures-pure, Ensures-lift, Ensures-weaken,
}
use atlas_queue.Runtime.World.{Env, World, now, uuid4, db_call, tick}
use atlas_queue.Runtime.World.Calls.{Ensures-db_call}
use atlas_queue.Runtime.Frame.{Frame, on_world, with_task, update, transition}
use atlas_queue.Runtime.Frame.Rules.{Ensures-read}
use atlas_queue.Domain.Exceptions.{Result, ok, err}
use atlas_queue.Services.Rows.{
  View, On, KeepsTasks, KeepsTasks-append, step_keep, step_update, step_transition, step_save,
}
use atlas_queue.Services.Rows.Quiet.{Quiet, Quiet-rest_of, Quiet-Saved}
use atlas_queue.Services.Rows.Sessions.{QuietDb, session-Quiet}
use atlas_queue.Runtime.Session.{session}

abbrev pub NotRunning : TaskStatus → Type 0
NotRunning s = str_eq (status_value s) (status_value running) ≡ false

abbrev pub Table : View
Table t rows = Quiet rows

abbrev pub Calm : View
Calm t rows = Quiet rows × NotRunning t.status

-- an action that leaves no RUNNING row where there was none, however it ends
abbrev pub KeepsQuiet : {A : Type 0} → Exec World A → Type 0
KeepsQuiet m = Ensures QuietDb m (λ _. QuietDb) QuietDb

pub after-Quiet : {A : Type 0} (r : Result A × World) → Post (λ _. QuietDb) QuietDb r → QuietDb r.1
after-Quiet (ok _, v) p = p
after-Quiet (err _, v) p = p

pub Ensures-session :
    {A : Type 0} (env : Env) (m : Exec World A) → KeepsQuiet m → KeepsQuiet (session env m)
Ensures-session env m h =
    session-Quiet env m (Ensures-weaken m h (λ w q. q) (λ _ w q. q) (λ w q. tt))

abbrev pub KeepsTable : {A : Type 0} → Exec Frame A → Type 0
KeepsTable m = Ensures (On Table) m (λ _. On Table) (On Table)

module _ {A : Type 0} (m : Exec World A) (keeps : KeepsTasks m) where
  pub table_keep : Ensures (On Table) (on_world m) (λ _. On Table) (On Table)
  table_keep = step_keep Table Table m keeps (λ t rows h. h)

  pub calm_keep : Ensures (On Calm) (on_world m) (λ _. On Calm) (On Table)
  calm_keep = step_keep Calm Table m keeps (λ t rows h. h.0)

module _ (env : Env) where
  pub calm-transition :
      (s : TaskStatus)
      → NotRunning s
      → Ensures (On Table) (transition env s) (λ _. On Calm) (On Table)
  calm-transition s calm =
      step_transition Table Calm Table env s (λ t rows at h. (h, calm)) (λ t rows h. h)

  pub table-save :
      (u : Task)
      → NotRunning u.status
      → Ensures (On Table) (on_world (save env u)) (λ _. On Table) (On Table)
  table-save u calm =
      step_save Table Table Table env u
        (λ t rows rows' h saved. Quiet-Saved u (Quiet-rest_of u.id rows h) calm saved)
        (λ t rows h. h)

  pub table-append :
      (id : TaskId) (event : String) (from to : Option TaskStatus) (message : Option String)
      (metadata : Metadata)
      → Ensures
          (On Table)
          (on_world (append env id event from to message metadata))
          (λ _. On Table)
          (On Table)
  table-append id event from to message metadata =
      table_keep _ (KeepsTasks-append env id event from to message metadata)

pub calm-update :
    (g : Task → Task)
    → ((t : Task) → (g t).status ≡ t.status)
    → Ensures (On Calm) (update g) (λ _. On Calm) (On Table)
calm-update g same = step_update Calm Calm Table g (λ t rows h. (h.0, rw same h.1))

-- a read of an object that is not RUNNING
pub calm_read :
    {B : Type 0} {Q : B → Frame → Type 0} (k : Task → Exec Frame B)
    → ((u : Task) → NotRunning u.status → Ensures (On Table) (k u) Q (On Table))
    → Ensures (On Calm) (gets (λ f. f.task) >>= k) Q (On Table)
calm_read k h = Ensures-read k λ u. record { at = λ f x. (h u (rw x.0 at x.1.1)).at f x.1.0 }

pub table_read :
    {B : Type 0} {Q : B → Frame → Type 0} (k : Task → Exec Frame B)
    → ((u : Task) → Ensures (On Table) (k u) Q (On Table))
    → Ensures (On Table) (gets (λ f. f.task) >>= k) Q (On Table)
table_read k h = Ensures-read k λ u. record { at = λ f x. (h u).at f x.1 }

pub table_update : (g : Task → Task) → KeepsTable (update g)
table_update g = step_update Table Table Table g (λ t rows h. h)

-- a body that keeps the rule on its own object keeps it on the table
pub with_calm_task :
    {A : Type 0} (t : Task) (m : Exec Frame A)
    → NotRunning t.status
    → Ensures (On Calm) m (λ _. On Table) (On Table)
    → KeepsQuiet (with_task t m)
unfolding with_task
with_calm_task t m calm h = record {
  at = λ w q. left _ (h.at (record { task = t; world = w }) (q, calm));
}
  where
    left :
        {A : Type 0} (r : Result A × Frame)
        → Post (λ _. On Table) (On Table) r
        → Post (λ _. QuietDb) QuietDb (r.0, r.1.world)
    left (ok _, f) p = p
    left (err _, f) p = p

pub Ensures-with_task :
    {A : Type 0} (t : Task) (m : Exec Frame A) → KeepsTable m → KeepsQuiet (with_task t m)
unfolding with_task
Ensures-with_task t m h = record { at = λ w q. left _ (h.at (record { task = t; world = w }) q) }
  where
    left :
        {A : Type 0} (r : Result A × Frame)
        → Post (λ _. On Table) (On Table) r
        → Post (λ _. QuietDb) QuietDb (r.0, r.1.world)
    left (ok _, f) p = p
    left (err _, f) p = p

pub lift-Quiet : {A : Type 0} (r : Result A) → KeepsQuiet (lift r)
lift-Quiet r = Ensures-lift r (λ a w _ h. h) (λ w h. h)

module _ (env : Env) where
  -- a statement that only reads
  pub query-Quiet : {A : Type 0} (f : Db → Result A) → KeepsQuiet (db_call env (λ db. (f db, db)))
  query-Quiet f = Ensures-db_call env _ (λ w h. answer (f w.db) w h) (λ w h. h)
    where
      answer :
          {A : Type 0} (r : Result A) (w : World)
          → QuietDb w
          → Post (λ _. QuietDb) QuietDb (r, record (tick w) { db = w.db })
      answer (ok _) w h = h
      answer (err _) w h = h

  pub now-Quiet : KeepsQuiet (now env)
  unfolding now
  now-Quiet = record { at = λ w h. h }

  pub uuid4-Quiet : KeepsQuiet (uuid4 env)
  unfolding uuid4
  uuid4-Quiet = record { at = λ w h. h }

  pub optional_task-Quiet : (o : Option TaskModel) → KeepsQuiet (optional_task env o)
  unfolding optional_task
  optional_task-Quiet none = Ensures-pure none (λ w h. h)
  optional_task-Quiet (some m) =
      Ensures-bind _ _ (lift-Quiet (to_domain_task m)) λ t. Ensures-pure (some t) (λ w h. h)

  pub read_task-Quiet : (id : TaskId) → KeepsQuiet (get_by_id env id)
  unfolding get_by_id
  read_task-Quiet id = Ensures-bind _ _ (query-Quiet _) optional_task-Quiet
