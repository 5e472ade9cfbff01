-- ===== src/Redis/Queue/Fifo.antt =====
-- The ready lists against one queue of arrivals.
use atlas_queue.Prelude.{
  ℕ, ◌≡◌, refl, sym, ap, ◌∙◌, true, false, Option, none, some, List, [], ◌∷◌, arith, subst, ==_iff,
  if◌then◌else◌, Option-cases, inl, inr, Bool-cases,
}
use atlas_queue.Prelude.Int.{ℤ, pos, negsuc, eqb_ℤ}
use atlas_queue.Domain.Exceptions.{Result, ok, err}
use atlas_queue.Domain.Task.{TaskId}
use atlas_queue.Redis.State.{Redis, push_ready, init_list, last_elem, expire_keys}
use atlas_queue.Redis.Queue.{brpop, clamp_priority, ready_keys, enqueue_ready, dequeue_ready}
use atlas_queue.Runtime.Exec.{Exec, ◌>>=◌, ◌>>◌, continue, pure}
use atlas_queue.Runtime.World.{Env, World, Settings, served, tick, redis_call, redis_do}

-- The specification: what arrived and was not yet handed out, the newest first, each with its list.
abbrev pub Arrivals : Type 0
Arrivals = List (ℤ × TaskId)

-- the oldest arrival of a list, and what stays
pub take_oldest : ℤ → Arrivals → Option (TaskId × Arrivals)
take_oldest k [] = none
take_oldest k ((p, t) ∷ es) = elim (take_oldest k es) [
  | none ↦ if eqb_ℤ k p then some (t, es) else none
  | some (u, rest) ↦ some (u, (p, t) ∷ rest)
]

-- the oldest arrival of the first list that has one
pub serve : List ℤ → Arrivals → Option TaskId × Arrivals
serve [] es = (none, es)
serve (k ∷ ks) es =
    let later = serve ks es in
    elim (take_oldest k es) [ none ↦ later | some (t, rest) ↦ (some t, rest) ]

-- the contents of one list
abbrev pub list_of : ℤ → Arrivals → List TaskId
list_of k [] = []
list_of k ((p, t) ∷ es) = if eqb_ℤ k p then t ∷ list_of k es else list_of k es

-- Redis holds these arrivals
abbrev pub Holds : Arrivals → Redis → Type 0
Holds es r = (k : ℤ) → r.ready k ≡ list_of k es

oldest_none : (k : ℤ) (es : Arrivals) → take_oldest k es ≡ none → list_of k es ≡ []
unfolding take_oldest
oldest_none k [] h = refl
oldest_none k ((p, t) ∷ es) h = ground (arith, oldest_none k es)

last_cons :
    (x : TaskId) (xs : List TaskId) (t : TaskId)
    → last_elem xs ≡ some t
    → (last_elem (x ∷ xs) ≡ some t) × (init_list (x ∷ xs) ≡ x ∷ init_list xs)
last_cons x [] t h = cc
last_cons x (y ∷ ys) t h = (h, refl)

apart : (k j p : ℤ) → eqb_ℤ k j ≡ false → eqb_ℤ k p ≡ true → eqb_ℤ j p ≡ false
apart (pos a) (pos b) (pos c) h e = ground arith
apart (negsuc a) (negsuc b) (negsuc c) h e = ground arith
apart (pos a) (negsuc b) (pos c) h e = refl
apart (negsuc a) (pos b) (negsuc c) h e = refl
apart (pos a) j (negsuc c) h e = cc
apart (negsuc a) j (pos c) h e = cc

-- what is known of the list when its oldest arrival is taken
abbrev Taken : ℤ → Arrivals → TaskId → Arrivals → Type 0
Taken k es t rest =
    (last_elem (list_of k es) ≡ some t) × (init_list (list_of k es) ≡ list_of k rest)

oldest_some :
    (k : ℤ) (es rest : Arrivals) (t : TaskId)
    → take_oldest k es ≡ some (t, rest)
    → Taken k es t rest
unfolding take_oldest
oldest_some k [] rest t h = cc
oldest_some k ((p, u) ∷ es) rest t h = elim (Option-cases (take_oldest k es)) [
  | inl empty ↦ ground (arith, oldest_none k es)
  | inr ((v, r), found) ↦ ground (arith, oldest_some k es r v, last_cons u (list_of k es) v)
]

others_same :
    (k j : ℤ) (es rest : Arrivals) (t : TaskId)
    → take_oldest k es ≡ some (t, rest)
    → eqb_ℤ k j ≡ false
    → list_of j rest ≡ list_of j es
unfolding take_oldest
others_same k j [] rest t h ne = cc
others_same k j ((p, u) ∷ es) rest t h ne = elim (Option-cases (take_oldest k es)) [
  | inl empty ↦ ground (arith, apart k j p)
  | inr ((v, r), found) ↦ ground (arith, others_same k j es r v)
]

same_list : (k j : ℤ) → eqb_ℤ k j ≡ true → k ≡ j
same_list (pos a) (pos b) h = ap pos ((==_iff a b).0 h)
same_list (negsuc a) (negsuc b) h = ap negsuc ((==_iff a b).0 h)
same_list (pos a) (negsuc b) h = cc
same_list (negsuc a) (pos b) h = cc

popped_list :
    (k : ℤ) (es rest : Arrivals) (r : Redis) (t : TaskId)
    → Holds es r
    → take_oldest k es ≡ some (t, rest)
    → (j : ℤ) → (if eqb_ℤ k j then init_list (r.ready j) else r.ready j) ≡ list_of j rest
popped_list k es rest r t h found j = elim (Bool-cases (eqb_ℤ k j)) [
  | inl same ↦
      rw (same, h j)
        (subst (λ i. init_list (list_of i es) ≡ list_of i rest) (same_list k j same)
          (oldest_some k es rest t found).1)
  | inr other ↦ rw (other, h j) (sym (others_same k j es rest t found other))
]

-- a pop of Redis and of the specification
abbrev Agrees : List ℤ → Arrivals → Redis → Type 0
Agrees ks es r = ((brpop ks r).0 ≡ (serve ks es).0) × Holds (serve ks es).1 (brpop ks r).1

brpop-serve : (ks : List ℤ) (es : Arrivals) (r : Redis) → Holds es r → Agrees ks es r
unfolding brpop serve
brpop-serve [] es r h = (refl, h)
brpop-serve (k ∷ ks) es r h = elim (Option-cases (take_oldest k es)) [
  | inl empty ↦
      let gone : last_elem (r.ready k) ≡ none = ap last_elem (h k ∙ oldest_none k es empty) in
      rw (gone, brpop, empty, serve) (brpop-serve ks es r h)
  | inr ((v, rest), found) ↦
      let last : last_elem (r.ready k) ≡ some v =
        ap last_elem (h k) ∙ (oldest_some k es rest v found).0 in
      rw (last, brpop, found, serve) (refl, popped_list k es rest r v h found)
]

-- the calls of clients and workers
pub data Call : Type 0 where
  put : TaskId → (priority : ℕ) → Call
  get : Call

module _ (settings : Settings) where
  -- what the specification answers to the pops
  pub ideal : List Call → Arrivals → List (Option TaskId)
  ideal [] es = []
  ideal (put t priority ∷ cs) es =
      ideal cs ((clamp_priority settings.priority_levels priority, t) ∷ es)
  ideal (get ∷ cs) es =
      let (answer, rest) = serve (ready_keys settings) es in answer ∷ ideal cs rest

  -- the same calls on the backend
  pub play : Env → List Call → Exec World (List (Option TaskId))
  play env [] = pure []
  play env (put t priority ∷ cs) = do enqueue_ready env settings t priority; play env cs
  play env (get ∷ cs) = do
    answer ← dequeue_ready env settings
    answers ← play env cs
    pure (answer ∷ answers)

eqb_ℤ_sym : (a b : ℤ) → eqb_ℤ b a ≡ eqb_ℤ a b
eqb_ℤ_sym (pos a) (pos b) = ground arith
eqb_ℤ_sym (negsuc a) (negsuc b) = ground arith
eqb_ℤ_sym (pos a) (negsuc b) = refl
eqb_ℤ_sym (negsuc a) (pos b) = refl

module _ (settings : Settings) (env : Env) (calm : (n : ℕ) → env.fault n ≡ served) where
  expired :
      (es : Arrivals) (w : World)
      → Holds es w.redis
      → Holds es (expire_keys (env.now w.calls) w.redis)
  unfolding expire_keys
  expired es w h = h

  abbrev list_for : ℕ → ℤ
  list_for priority = clamp_priority settings.priority_levels priority

  abbrev after_put : TaskId → ℕ → World → World
  after_put t priority w =
      let r = expire_keys (env.now w.calls) w.redis in
      record (tick w) { redis = record r { ready = push_ready (list_for priority) t r.ready } }

  put_step :
      (t : TaskId) (priority : ℕ) (es : Arrivals) (w : World)
      → Holds es w.redis
      → (enqueue_ready env settings t priority w ≡ (ok tt, after_put t priority w))
        × Holds ((list_for priority, t) ∷ es) (after_put t priority w).redis
  unfolding enqueue_ready redis_do redis_call expire_keys
  put_step t priority es w h = (
    rw (calm w.calls) refl,
    λ k.
        rw (h k) (
          ap (λ b. if b then t ∷ list_of k es else list_of k es) (eqb_ℤ_sym k (list_for priority))),
  )

  abbrev after_get : World → World
  after_get w = record (tick w) {
    redis = (brpop (ready_keys settings) (expire_keys (env.now w.calls) w.redis)).1;
  }

  get_step :
      (es : Arrivals) (w : World)
      → Holds es w.redis
      → (dequeue_ready env settings w ≡ (ok (serve (ready_keys settings) es).0, after_get w))
        × Holds (serve (ready_keys settings) es).1 (after_get w).redis
  unfolding dequeue_ready redis_call
  get_step es w h =
      let (same, after) =
        brpop-serve (ready_keys settings) es (expire_keys (env.now w.calls) w.redis)
          (expired es w h) in
      (rw (calm w.calls, same) refl, after)

  play_all :
      (cs : List Call) (es : Arrivals) (w : World)
      → Holds es w.redis
      → (play settings env cs w).0 ≡ ok (ideal settings cs es)
  unfolding play ideal ◌>>=◌ pure
  play_all [] es w h = refl
  play_all (put t priority ∷ cs) es w h =
      let (step, after) = put_step t priority es w h in
      rw step (play_all cs _ (after_put t priority w) after)
  play_all (get ∷ cs) es w h =
      let (step, after) = get_step es w h in
      rw step
        (answered _ _ (play settings env cs (after_get w)) (play_all cs _ (after_get w) after))
    where
      answered :
          (a : Option TaskId) (as' : List (Option TaskId))
          (r : Result (List (Option TaskId)) × World)
          → r.0 ≡ ok as'
          → (continue (λ answers w. (ok (a ∷ answers), w)) r).0 ≡ ok (a ∷ as')
      answered a as' (ok x, w) e = cc
      answered a as' (err x, w) e = cc

-- The ready lists are one queue for each priority, and the queues are served in order: for any
-- sequence of enqueues and dequeues that Redis serves, started on lists that hold the arrivals
-- `es`, every call returns, and each dequeue answers the oldest arrival of the first list that has
-- one, or that there is none.
pub play-ideal :
    (settings : Settings) (env : Env) (cs : List Call) (es : Arrivals) (w : World)
    → ((n : ℕ) → env.fault n ≡ served)
    → Holds es w.redis
    → (play settings env cs w).0 ≡ ok (ideal settings cs es)
play-ideal settings env cs es w calm h = play_all settings env calm cs es w h
