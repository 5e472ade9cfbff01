-- ===== src/Services/QueueManager/Queued.antt =====
-- What the calls of a submission keep: Redis, and the row that a `save` has written.
use atlas_queue.Prelude.{
  ℕ, ◌≡◌, refl, String, str_eq, eq_iff, Bool, true, ◌&&◌, Option, none, some, List, [], ◌∷◌, ◌++◌,
  any, ◌==◌, ==_refl, arith,
}
use atlas_queue.Prelude.Int.{ℤ}
use atlas_queue.Domain.Exceptions.{Result, ok, err}
use atlas_queue.Domain.Enums.{TaskStatus, status_value}
use atlas_queue.Domain.Task.{Task, TaskId, Instant}
use atlas_queue.Persistence.Models.{TaskModel, Db}
use atlas_queue.Persistence.Mapping.{to_model_task}
use atlas_queue.Persistence.Tasks.{row_of, save, save_row, assign, update_row, or_now}
use atlas_queue.Persistence.Tasks.Saved.{Saved, inserted, assigned}
use atlas_queue.Persistence.Events.{append}
use atlas_queue.Redis.State.{Redis}
use atlas_queue.Runtime.Exec.{Exec}
use atlas_queue.Runtime.Exec.Ensures.{Post, Ensures-bind, Ensures-pure}
use atlas_queue.Runtime.Frame.Objects.{Gives}
use atlas_queue.Runtime.World.{Env, World, Metric, now, uuid4, db_call, emit, tick}
use atlas_queue.Runtime.World.Calls.{Ensures-db_call}

pub Gives-and :
    {S A : Type 0} {P P' : S → Type 0} {Q Q' : A → S → Type 0} (m : Exec S A)
    → Gives P m Q
    → Gives P' m Q'
    → Gives (λ s. P s × P' s) m (λ a s. Q a s × Q' a s)
Gives-and {S} {A} {Q} {Q'} m h h' = record { at = λ s x. both (m s) (h.at s x.0) (h'.at s x.1) }
  where
    both :
        (r : Result A × S)
        → Post Q (λ _. Unit) r
        → Post Q' (λ _. Unit) r
        → Post (λ a s. Q a s × Q' a s) (λ _. Unit) r
    both (ok a, s) x y = (x, y)
    both (err e, s) x y = tt

-- a row of the task with the status
abbrev pub HasRow : TaskId → TaskStatus → List TaskModel → Type 0
HasRow id s rows = any (λ m. m.id == id && str_eq m.status (status_value s)) rows ≡ true

-- the task is in the ready list of the priority
abbrev pub InList : TaskId → ℤ → Redis → Type 0
InList id p r = any (λ u. u == id) (r.ready p) ≡ true

pub any-last :
    {A : Type 0} (p : A → Bool) (xs : List A) (x : A) → p x ≡ true → any p (xs ++ x ∷ []) ≡ true
any-last p [] x h = ground arith
any-last p (y ∷ ys) x h = ground (arith, any-last p ys x)

str_refl : (s : String) → str_eq s s ≡ true
str_refl s = (eq_iff s s).1 refl

module _ (u : Task) where
  updated-HasRow :
      (at : Instant) (rows : List TaskModel) (m : TaskModel)
      → row_of u.id rows ≡ some m
      → HasRow u.id u.status (update_row u.id (assign at u) rows)
  unfolding update_row assign to_model_task
  updated-HasRow at [] m h = cc
  updated-HasRow at (x ∷ xs) m h =
      ground (arith, updated-HasRow at xs m, str_refl (status_value u.status))

  pub Saved-HasRow : (rows rows' : List TaskModel) → Saved u rows rows' → HasRow u.id u.status rows'
  unfolding to_model_task
  Saved-HasRow rows rows' (inserted c d fresh e) = rw e (
      any-last _ rows (to_model_task c d u)
        (rw (==_refl u.id, str_refl (status_value u.status)) refl))
  Saved-HasRow rows rows' (assigned at m found e) = rw e (updated-HasRow at rows m found)

-- an action that leaves Redis alone
abbrev pub KeepsRedis : {A : Type 0} → Exec World A → Type 0
KeepsRedis m = (r : Redis) → Gives (λ w. w.redis ≡ r) m (λ _ w. w.redis ≡ r)

module _ (env : Env) where
  pub now-KeepsRedis : KeepsRedis (now env)
  unfolding now
  now-KeepsRedis r = record { at = λ w h. h }

  uuid4-KeepsRedis : KeepsRedis (uuid4 env)
  unfolding uuid4
  uuid4-KeepsRedis r = record { at = λ w h. h }

  db_call-KeepsRedis : {A : Type 0} (f : Db → Result A × Db) → KeepsRedis (db_call env f)
  db_call-KeepsRedis f r = Ensures-db_call env f (λ w h. any_answer (f w.db) w h) (λ w h. tt)
    where
      any_answer :
          {A : Type 0} (x : Result A × Db) (w : World)
          → w.redis ≡ r
          → Post (λ _ w. w.redis ≡ r) (λ _. Unit) (x.0, record (tick w) { db = x.1 })
      any_answer (ok _, d) w h = h
      any_answer (err _, d) w h = tt

  or_now-KeepsRedis : (o : Option Instant) → KeepsRedis (or_now env o)
  unfolding or_now
  or_now-KeepsRedis none r = now-KeepsRedis r
  or_now-KeepsRedis (some at) r = Ensures-pure at (λ w h. h)

  save_row-KeepsRedis : (u : Task) (o : Option TaskModel) → KeepsRedis (save_row env u o)
  unfolding save_row
  save_row-KeepsRedis u none r =
      Ensures-bind _ _ (or_now-KeepsRedis u.created_at r)
        λ c. Ensures-bind _ _ (or_now-KeepsRedis u.updated_at r) λ d. db_call-KeepsRedis _ r
  save_row-KeepsRedis u (some m) r =
      Ensures-bind _ _ (or_now-KeepsRedis u.updated_at r) λ d. db_call-KeepsRedis _ r

  pub save-KeepsRedis : (u : Task) → KeepsRedis (save env u)
  unfolding save
  save-KeepsRedis u r = Ensures-bind _ _ (db_call-KeepsRedis _ r) λ o. save_row-KeepsRedis u o r

  pub append-KeepsRedis :
      (id : ℕ) (event : String) (from to : Option TaskStatus) (message : Option String)
      (metadata : List (String × String))
      → KeepsRedis (append env id event from to message metadata)
  unfolding append
  append-KeepsRedis id event from to message metadata r =
      Ensures-bind _ _ (uuid4-KeepsRedis r)
        λ _. Ensures-bind _ _ (now-KeepsRedis r) λ _. db_call-KeepsRedis _ r

pub emit-KeepsRedis : (m : Metric) → KeepsRedis (emit m)
unfolding emit
emit-KeepsRedis m r = record { at = λ w h. h }
