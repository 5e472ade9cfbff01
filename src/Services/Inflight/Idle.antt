-- ===== src/Services/Inflight/Idle.antt =====
-- What the reconciler does to a table without RUNNING rows.
use atlas_queue.Prelude.{
  ℕ, ◌≡◌, refl, sym, ap, subst, true, false, Option, none, some, List, [], ◌∷◌, str_eq, arith,
}
use atlas_queue.Domain.Enums.{TaskStatus, running, status_value, same_status}
use atlas_queue.Domain.Task.{Task, TaskId}
use atlas_queue.Persistence.Models.{TaskModel, Db}
use atlas_queue.Persistence.Tasks.{row_of}
use atlas_queue.Persistence.Tasks.Loaded.{Loaded, get_by_id-Loaded, status-to_domain_task}
use atlas_queue.Redis.State.{expire_keys}
use atlas_queue.Redis.Queue.{clear_inflight, get_inflight_task_ids}
use atlas_queue.Runtime.Exec.Ensures.{
  Post, Ensures, Ensures-bind, Ensures-pure, Ensures-if, Ensures-weaken,
}
use atlas_queue.Runtime.World.{Env, World, tick}
use atlas_queue.Runtime.ReadOnly.{SameQueues, SameQueues-refl, SameQueues-trans}
use atlas_queue.Runtime.World.Calls.{Ensures-redis_call, Ensures-redis_do}
use atlas_queue.Services.Inflight.{reconcile_one, reconcile_ids, reconcile}
use atlas_queue.Services.Rows.Quiet.{Quiet, is_running}

Quiet-row_of :
    (id : TaskId) (rows : List TaskModel) (m : TaskModel)
    → Quiet rows
    → row_of id rows ≡ some m
    → is_running m ≡ false
Quiet-row_of id [] m q h = cc
Quiet-row_of id (x ∷ xs) m q h = ground (arith, Quiet-row_of id xs m)

not_running :
    (s : TaskStatus)
    → str_eq (status_value s) (status_value running) ≡ false
    → same_status s running ≡ false
not_running running h = cc
not_running _ h = refl

Quiet-Loaded :
    (id : TaskId) (rows : List TaskModel) (t : Task)
    → Quiet rows
    → Loaded id rows (some t)
    → same_status t.status running ≡ false
Quiet-Loaded id rows t q (m, found, read) =
    not_running t.status (rw (status-to_domain_task m t read) at (Quiet-row_of id rows m q found))

module _ (env : Env) (w : World) (quiet : Quiet w.db.tasks) where
  abbrev Same : World → Type 0
  Same = SameQueues w

  carry : (v v' : World) → SameQueues v v' → Same v → Same v'
  carry = SameQueues-trans w

  later : (v : World) → Same v → Same (tick v)
  later v h = record { db = h.db; ready = h.ready; scheduled = h.scheduled; dlq = h.dlq }

  clear-Same : (id : TaskId) → Ensures Same (clear_inflight env id) (λ _. Same) Same
  unfolding clear_inflight expire_keys
  clear-Same id =
      Ensures-redis_do env _
        (λ v at h.
          let h' = carry v _ (record { db = refl; ready = refl; scheduled = refl; dlq = refl }) h in
          (h', h'))
        later

  ids-Same : Ensures Same (get_inflight_task_ids env) (λ _. Same) Same
  unfolding get_inflight_task_ids expire_keys
  ids-Same =
      Ensures-redis_call env _
        (λ v at h.
          let h' = carry v _ (record { db = refl; ready = refl; scheduled = refl; dlq = refl }) h in
          (h', h'))
        later

  -- the count stays as it is
  abbrev Counts : ℕ → ℕ → World → Type 0
  Counts n k v = (k ≡ n) × Same v

  reconcile_one-Same :
      (n : ℕ) (id : TaskId) (o : Option Task)
      → Ensures (λ v. Loaded id w.db.tasks o × Same v) (reconcile_one env n id o) (Counts n) Same
  unfolding reconcile_one
  reconcile_one-Same n id none =
      Ensures-weaken _ (Ensures-bind _ _ (clear-Same id) λ _. Ensures-pure n (λ v h. (refl, h)))
        (λ v h. h.1) (λ k v h. h) (λ v h. h)
  reconcile_one-Same n id (some t) =
      Ensures-if (same_status t.status running) _ _
        (λ runs. record { at = λ v h. absurd (running_absurd runs h.0) })
        (λ _.
          Ensures-weaken _ (Ensures-bind _ _ (clear-Same id) λ _. Ensures-pure n (λ v h. (refl, h)))
            (λ v h. h.1) (λ k v h. h) (λ v h. h))
    where
      running_absurd : same_status t.status running ≡ true → Loaded id w.db.tasks (some t) → ⊥
      running_absurd runs loaded = cc (Quiet-Loaded id w.db.tasks t quiet loaded)

  reconcile_ids-Same :
      (n : ℕ) (ids : List TaskId) → Ensures Same (reconcile_ids env n ids) (Counts n) Same
  unfolding reconcile_ids
  reconcile_ids-Same n [] = Ensures-pure n (λ v h. (refl, h))
  reconcile_ids-Same n (id ∷ ids) =
      Ensures-bind _ _
        (get_by_id-Loaded env w.db.tasks Same (λ v h. ap (λ (d : Db). d.tasks) h.db) later id)
        λ o. Ensures-bind _ _ (reconcile_one-Same n id o) λ k. record {
          at = λ v h.
              subst (λ j. Post (Counts n) Same (reconcile_ids env j ids v)) (sym h.0)
                ((reconcile_ids-Same n ids).at v h.1);
        }

  reconcile-Same : Ensures Same (reconcile env) (Counts 0) Same
  unfolding reconcile
  reconcile-Same = Ensures-bind _ _ ids-Same (reconcile_ids-Same 0)

-- On a table with no RUNNING row the reconciler requeues nothing: if it returns, it returns 0, and
-- in any case it leaves the database, the ready lists, the scheduled set and the dead-letter list
-- as they were.
pub reconcile-Quiet :
    (env : Env) (w : World)
    → Quiet w.db.tasks
    → Post (λ n v. (n ≡ 0) × SameQueues w v) (SameQueues w) (reconcile env w)
reconcile-Quiet env w quiet = (reconcile-Same env w quiet).at w (SameQueues-refl w)
