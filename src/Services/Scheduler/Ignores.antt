-- ===== src/Services/Scheduler/Ignores.antt =====
-- What the release of due tasks does when no task is SCHEDULED.
use atlas_queue.Prelude.{
  ℕ, ◌≡◌, refl, sym, ap, subst, Bool, true, false, Option, none, some, List, [], ◌∷◌, any, str_eq,
  arith,
}
use atlas_queue.Domain.Enums.{TaskStatus, scheduled, status_value, same_status}
use atlas_queue.Domain.Task.{Task, TaskId}
use atlas_queue.Persistence.Models.{TaskModel, Db}
use atlas_queue.Persistence.Tasks.{row_of}
use atlas_queue.Persistence.Tasks.Loaded.{Loaded, get_by_id-Loaded, status-to_domain_task}
use atlas_queue.Redis.State.{expire_keys}
use atlas_queue.Redis.Queue.{claim_due_scheduled}
use atlas_queue.Runtime.Exec.Ensures.{Post, Ensures, Ensures-bind, Ensures-pure, Ensures-if}
use atlas_queue.Runtime.World.{Env, World, Settings, tick, now}
use atlas_queue.Runtime.World.Calls.{Ensures-redis_call}
use atlas_queue.Services.Scheduler.{process_due, process_each, process_due_tasks}

abbrev pub is_scheduled : TaskModel → Bool
is_scheduled m = str_eq m.status (status_value scheduled)

-- no row is SCHEDULED
abbrev pub NoneScheduled : List TaskModel → Type 0
NoneScheduled rows = any is_scheduled rows ≡ false

none-row_of :
    (id : TaskId) (rows : List TaskModel) (m : TaskModel)
    → NoneScheduled rows
    → row_of id rows ≡ some m
    → is_scheduled m ≡ false
none-row_of id [] m q h = cc
none-row_of id (x ∷ xs) m q h = ground (arith, none-row_of id xs m)

not_scheduled :
    (s : TaskStatus)
    → str_eq (status_value s) (status_value scheduled) ≡ false
    → same_status s scheduled ≡ false
not_scheduled scheduled h = cc
not_scheduled _ h = refl

none-Loaded :
    (id : TaskId) (rows : List TaskModel) (t : Task)
    → NoneScheduled rows
    → Loaded id rows (some t)
    → same_status t.status scheduled ≡ false
none-Loaded id rows t q (m, found, read) =
    not_scheduled t.status (rw (status-to_domain_task m t read) at (none-row_of id rows m q found))

-- the tables and the ready lists are as in `w`
pub record SameReady (w v : World) : Type 0 where
  pub db : v.db ≡ w.db
  pub ready : v.redis.ready ≡ w.redis.ready

module _ (env : Env) (settings : Settings) (w : World)
    (none_scheduled : NoneScheduled w.db.tasks) where
  abbrev Same : World → Type 0
  Same = SameReady w

  later : (v : World) → Same v → Same (tick v)
  later v h = record { db = h.db; ready = h.ready }

  abbrev Counts : ℕ → ℕ → World → Type 0
  Counts n k v = (k ≡ n) × Same v

  claim-Same : Ensures Same (claim_due_scheduled env settings.scheduler_batch_size) (λ _. Same) Same
  unfolding claim_due_scheduled now expire_keys
  claim-Same =
      Ensures-bind {R = λ _. Same} _ _ (record { at = λ v h. later v h })
        λ at.
          Ensures-redis_call env _
            (λ v _ h.
              (record { db = h.db; ready = h.ready }, record { db = h.db; ready = h.ready }))
            later

  process_due-Same :
      (n : ℕ) (id : TaskId) (o : Option Task)
      → Ensures
          (λ v. Loaded id w.db.tasks o × Same v)
          (process_due env settings n o)
          (Counts n)
          Same
  unfolding process_due
  process_due-Same n id none = Ensures-pure n (λ v h. (refl, h.1))
  process_due-Same n id (some t) =
      Ensures-if (same_status t.status scheduled) _ _
        (λ runs. record { at = λ v h. absurd (refused runs h.0) })
        (λ _. Ensures-pure n (λ v h. (refl, h.1)))
    where
      refused : same_status t.status scheduled ≡ true → Loaded id w.db.tasks (some t) → ⊥
      refused runs loaded = cc (none-Loaded id w.db.tasks t none_scheduled loaded)

  process_each-Same :
      (n : ℕ) (ids : List TaskId) → Ensures Same (process_each env settings n ids) (Counts n) Same
  unfolding process_each
  process_each-Same n [] = Ensures-pure n (λ v h. (refl, h))
  process_each-Same n (id ∷ ids) =
      Ensures-bind _ _
        (get_by_id-Loaded env w.db.tasks Same (λ v h. ap (λ (d : Db). d.tasks) h.db) later id)
        λ o. Ensures-bind _ _ (process_due-Same n id o) λ k. record {
          at = λ v h.
              subst (λ j. Post (Counts n) Same (process_each env settings j ids v)) (sym h.0)
                ((process_each-Same n ids).at v h.1);
        }

  process_due_tasks-Same : Ensures Same (process_due_tasks env settings) (Counts 0) Same
  unfolding process_due_tasks
  process_due_tasks-Same = Ensures-bind _ _ claim-Same (process_each-Same 0)

-- A due task is released only if its row is SCHEDULED: where no row is, the scheduler processes
-- none of the tasks that it claims and leaves the database and the ready lists as they were.
pub process_due_tasks-NoneScheduled :
    (env : Env) (settings : Settings) (w : World)
    → NoneScheduled w.db.tasks
    → Post (λ n v. (n ≡ 0) × SameReady w v) (SameReady w) (process_due_tasks env settings w)
process_due_tasks-NoneScheduled env settings w h =
    (process_due_tasks-Same env settings w h).at w (record { db = refl; ready = refl })
