-- ===== src/Services/Cancellation/Allowed.antt =====
-- What a cancellation does, and which tasks it refuses.
use atlas_queue.Prelude.{
  ◌≡◌, refl, sym, subst, ap, ◌∙◌, Bool, if◌then◌else◌, true, false, some, List, [], ◌∷◌, any, ◌==◌,
  ==_refl, ◌⊎◌, inl, inr, Bool-cases,
}
use atlas_queue.Domain.Exceptions.{Exc, Result, ok, err}
use atlas_queue.Domain.Enums.{TaskStatus, completed, cancelled, dead_letter, scheduled, same_status}
use atlas_queue.Domain.Task.{Task, TaskId, Instant, transition_to}
use atlas_queue.Domain.Task.Lifecycle.{◌⟶◌}
use atlas_queue.Redis.Queue.{mark_cancelled, remove_scheduled}
use atlas_queue.Redis.State.{Redis, sadd, expire_keys}
use atlas_queue.Runtime.Exec.{Exec, ◌>>=◌, gets, raise, pure}
use atlas_queue.Runtime.Exec.Ensures.{
  Post, Ensures-bind, Ensures-if, Ensures-pure, Ensures-raise, Ensures-weaken,
}
use atlas_queue.Runtime.Exec.Invariant.{Preserves-Ensures}
use atlas_queue.Runtime.World.{Env, World}
use atlas_queue.Runtime.World.Calls.{Ensures-redis_do}
use atlas_queue.Runtime.Frame.{Frame, on_world, update, transition, moved}
use atlas_queue.Runtime.Frame.Rules.{Ensures-any, Ensures-read}
use atlas_queue.Runtime.Frame.Objects.{Gives, Of, object, object_update, object_transition}
use atlas_queue.Services.Cancellation.{cancel_found}
use atlas_queue.Services.QueueManager.Queued.{
  Gives-and, HasRow, KeepsRedis, any-last, now-KeepsRedis, save-KeepsRedis, append-KeepsRedis,
  emit-KeepsRedis,
}
use atlas_queue.Services.QueueManager.Placed.Steps.{in_frame, save-HasRow}
use atlas_queue.Services.Rows.{KeepsTasks, KeepsTasks-append, KeepsTasks-emit}
use atlas_queue.Services.Rows.Kept.{InFrame, kept, kept-on_world}

-- the states that the guard turns away
abbrev pub Final : TaskStatus → Type 0
Final s = any (same_status s) (completed ∷ cancelled ∷ dead_letter ∷ []) ≡ true

-- the mark that a worker looks for
abbrev pub Marked : TaskId → Redis → Type 0
Marked id r = any (λ u. u == id) r.cancelled ≡ true

-- `u` is `t`, CANCELLED and finished, and nothing else of it differs
abbrev pub Finished : Task → Task → Type 0
Finished t u =
    (at later : Instant) × (u
      ≡ record t { status = cancelled; updated_at = some at; finished_at = some later })

sadd-Marked : (id : TaskId) (s : List TaskId) → any (λ u. u == id) (sadd id s) ≡ true
unfolding sadd
sadd-Marked id s = elim (Bool-cases (any (λ u. u == id) s)) [
  | inl e ↦ rw e e
  | inr e ↦ rw e (any-last (λ u. u == id) s id (==_refl id))
]

module _ (env : Env) (t0 : Task) where
  abbrev Before : Frame → Type 0
  Before = Of (λ t. t ≡ t0)

  abbrev MarkedIn : Frame → Type 0
  MarkedIn f = Marked t0.id f.world.redis

  -- the object, step by step
  abbrev Moved : Task → Type 0
  Moved t =
      (t0.status ⟶ cancelled)
      × (at : Instant) × (t ≡ record t0 { status = cancelled; updated_at = some at })

  abbrev Ended : Task → Type 0
  Ended t = (t0.status ⟶ cancelled) × Finished t0 t

  object_is :
      (u : Task) {A : Type 0} (m : Exec World A)
      → Gives (Of (λ t. (t ≡ u) × Ended t)) (on_world m) (λ _. Of (λ t. (t ≡ u) × Ended t))
  object_is u m = object (λ t. (t ≡ u) × Ended t) m

  cancel_found-Ended : Gives Before (cancel_found env) (λ t _. Ended t)
  unfolding cancel_found
  cancel_found-Ended = Ensures-read _ λ before.
      Ensures-bind {R = λ _. Before} _ _
        (Ensures-if (any (same_status before.status) (completed ∷ cancelled ∷ dead_letter ∷ [])) _ _
          (λ _. Ensures-raise _ (λ f h. tt)) (λ _. Ensures-pure tt (λ f h. h.1)))
        λ _. Ensures-bind _ _ (object (λ t. t ≡ t0) _) λ _.
          Ensures-bind {R = λ _. Before} _ _
            (Ensures-if (same_status before.status scheduled) _ _ (λ _. object (λ t. t ≡ t0) _)
              (λ _. Ensures-pure tt (λ f h. h)))
            λ _.
              Ensures-bind _ _
                (object_transition (λ t. t ≡ t0) Moved env cancelled
                  (λ t at h edge. (
                    subst (λ u. u.status ⟶ cancelled) h edge,
                    at,
                    ap {A = Task} (λ u. record u { status = cancelled; updated_at = some at }) h,
                  )))
                λ _. Ensures-bind _ _ (object Moved _) λ later.
                  Ensures-bind _ _
                    (object_update Moved Ended _ (λ t h. (
                      h.0,
                      (h.1, later, ap {A = Task} (λ u. record u { finished_at = some later }) h.2),
                    )))
                    λ _. Ensures-read _ λ u. Ensures-bind _ _ (object_is u _) λ _.
                      Ensures-bind _ _ (object_is u _) λ _.
                        Ensures-bind _ _ (object_is u _)
                          λ _. Ensures-pure u (λ f h. subst Ended h.0 h.1)

  -- the mark in Redis
  marks :
      (before : Task)
      → Gives (λ _. before ≡ t0) (on_world (mark_cancelled env before.id)) (λ _. MarkedIn)
  unfolding mark_cancelled
  marks before = record {
    at = λ f same.
        subst
          (λ (t : Task). Post (λ _. MarkedIn) (λ _. Unit) (on_world (mark_cancelled env t.id) f))
          (sym same) ((in_frame (λ w. Marked t0.id w.redis) _ (λ w. marked.at w tt)).at f tt);
  }
    where
      marked : Gives (λ _. Unit) (mark_cancelled env t0.id) (λ _ w. Marked t0.id w.redis)
      marked = Ensures-redis_do env _ (λ w at h. (sadd-Marked t0.id _, tt)) (λ w h. tt)

  -- a step that leaves Redis alone
  still :
      {A : Type 0} (m : Exec World A) → KeepsRedis m → Gives MarkedIn (on_world m) (λ _. MarkedIn)
  unfolding on_world
  still {A} m keeps = record {
    at = λ f h. go f f.task (m f.world) ((keeps f.world.redis).at f.world refl) h;
  }
    where
      go :
          (f : Frame) (t : Task) (r : Result A × World)
          → Post (λ _ w. w.redis ≡ f.world.redis) (λ _. Unit) r
          → MarkedIn f
          → Post (λ _. MarkedIn) (λ _. Unit) (r.0, record { task = t; world = r.1 })
      go f t (ok a, w) e h = subst (Marked t0.id) (sym e) h
      go f t (err x, w) e h = tt

  moves : Gives MarkedIn (transition env cancelled) (λ _. MarkedIn)
  unfolding transition
  moves = record { at = λ f h. go f h (transition_to cancelled (env.now f.world.calls) f.task) }
    where
      go :
          (f : Frame)
          → MarkedIn f
          → (r : Result Task) → Post (λ _. MarkedIn) (λ _. Unit) (moved f r)
      go f h (ok t) = h
      go f h (err e) = tt

  unscheduled : (id : TaskId) → Gives MarkedIn (on_world (remove_scheduled env id)) (λ _. MarkedIn)
  unfolding on_world remove_scheduled expire_keys
  unscheduled id = record { at = λ f h. go f.task _ ((removed f).at f.world h) }
    where
      removed :
          (f : Frame)
          → Gives
              (λ w. Marked t0.id w.redis)
              (remove_scheduled env id)
              (λ _ w. Marked t0.id w.redis)
      removed f = Ensures-redis_do env _ (λ w at h. (h, tt)) (λ w h. tt)

      go :
          (t : Task) (r : Result (Unit {0}) × World)
          → Post (λ _ w. Marked t0.id w.redis) (λ _. Unit) r
          → Post (λ _. MarkedIn) (λ _. Unit) (r.0, record { task = t; world = r.1 })
      go t (ok a, w) h = h
      go t (err e, w) h = tt

  updated :
      (at : Instant)
      → Gives MarkedIn (update (λ t. record t { finished_at = some at })) (λ _. MarkedIn)
  unfolding update
  updated at = record { at = λ f h. h }

  cancel_found-Marked : Gives Before (cancel_found env) (λ _. MarkedIn)
  unfolding cancel_found
  cancel_found-Marked = Ensures-read _ λ before.
      Ensures-bind {R = λ _ _. before ≡ t0} _ _
        (Ensures-if (any (same_status before.status) (completed ∷ cancelled ∷ dead_letter ∷ [])) _ _
          (λ _. Ensures-raise _ (λ f h. tt)) (λ _. Ensures-pure tt (λ f h. sym h.0 ∙ h.1)))
        λ _. Ensures-bind _ _ (marks before) λ _.
          Ensures-bind {R = λ _. MarkedIn} _ _
            (Ensures-if (same_status before.status scheduled) _ _ (λ _. unscheduled before.id)
              (λ _. Ensures-pure tt (λ f h. h)))
            λ _. Ensures-bind _ _ moves λ _. Ensures-bind _ _ (still _ (now-KeepsRedis env)) λ at.
              Ensures-bind {R = λ _. MarkedIn} _ _ (updated at) λ _. Ensures-read _ λ u.
                Ensures-bind _ _
                  (Ensures-weaken _ (still _ (save-KeepsRedis env u)) (λ f h. h.1) (λ _ f h. h)
                    (λ f h. h))
                  λ _. Ensures-bind _ _ (still _ (append-KeepsRedis env _ _ _ _ _ _)) λ _.
                    Ensures-bind _ _ (still _ (emit-KeepsRedis _)) λ _. Ensures-pure u (λ f h. h)

  -- the row
  cancel_found-HasRow :
      Gives Before (cancel_found env) (λ t f. HasRow t.id t.status f.world.db.tasks)
  unfolding cancel_found
  cancel_found-HasRow = Ensures-read _ λ before. Ensures-bind _ _ (Ensures-any _) λ _.
      Ensures-bind _ _ (Ensures-any _) λ _. Ensures-bind _ _ (Ensures-any _) λ _.
        Ensures-bind _ _ (Ensures-any _) λ _. Ensures-bind _ _ (Ensures-any _) λ at.
          Ensures-bind _ _ (Ensures-any _) λ _. Ensures-read _ λ u.
            Ensures-bind _ _
              (Ensures-weaken _
                (in_frame (λ w. HasRow u.id u.status w.db.tasks) _ (save-HasRow env u)) (λ f h. tt)
                (λ _ f h. h) (λ f h. h))
              λ _.
                Ensures-bind _ _ (row u _ (KeepsTasks-append env _ _ _ _ _ _))
                  λ _. Ensures-bind _ _ (row u _ (KeepsTasks-emit _)) λ _. Ensures-pure u (λ f h. h)
    where
      row :
          (u : Task) {A : Type 0} (m : Exec World A)
          → KeepsTasks m
          → Gives
              (InFrame (HasRow u.id u.status))
              (on_world m)
              (λ _. InFrame (HasRow u.id u.status))
      row u m keeps =
          Preserves-Ensures
            (kept-on_world (HasRow u.id u.status) m (kept (HasRow u.id u.status) keeps))

-- what follows a guard that raises is not run
refused :
    {A : Type 0} (f : Frame) (b : Bool) (x : Exc) (k : Unit {0} → Exec Frame A)
    → b ≡ true
    → (e : Exc) × (((if b then raise x else pure tt) >>= k) f ≡ (err e, f))
unfolding ◌>>=◌ raise
refused f true x k h = (x, refl)
refused f false x k h = cc

-- how a cancellation comes out
abbrev pub Cancelled : Frame → Task → Frame → Type 0
Cancelled before u after =
    ((before.task.status ⟶ cancelled) × Finished before.task u)
    × (Marked before.task.id after.world.redis × HasRow u.id u.status after.world.db.tasks)

-- A cancellation of a task that is COMPLETED, CANCELLED or DEAD_LETTER raises and changes nothing.
-- Of any other task, if it returns, the status has an edge to CANCELLED in the diagram; the task is
-- marked in Redis as cancelled; the answer is the task with the status CANCELLED, with new times of
-- its update and its end, and nothing else of it has changed; and its row says that it is CANCELLED.
pub cancel_found-Cancelled :
    (env : Env) (f : Frame)
    → (Final f.task.status × (e : Exc) × (cancel_found env f ≡ (err e, f)))
      ⊎ (¬ Final f.task.status × Post (Cancelled f) (λ _. Unit) (cancel_found env f))
unfolding cancel_found ◌>>=◌ gets raise
cancel_found-Cancelled env f =
    elim (Bool-cases (any (same_status f.task.status) (completed ∷ cancelled ∷ dead_letter ∷ []))) [
      | inl e ↦
          let (x, raised) =
            refused f (any (same_status f.task.status) (completed ∷ cancelled ∷ dead_letter ∷ [])) _
              _ e in
          inl (e, x, raised)
      | inr e ↦ inr (λ h. cc, done)
    ]
  where
    done : Post (Cancelled f) (λ _. Unit) (cancel_found env f)
    done =
        (Ensures-weaken _
            (Gives-and _ (cancel_found-Ended env f.task)
              (Gives-and _ (cancel_found-Marked env f.task) (cancel_found-HasRow env f.task)))
            (λ g h. (h, (h, h))) (λ _ g h. h) (λ g h. tt)).at
          f refl
