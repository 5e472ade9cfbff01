-- ===== src/Redis/Leader/Owned.antt =====
-- What the answers of the lock of the scheduler say of the key in Redis.
use atlas_queue.Prelude.{
  ℕ, ◌+◌, ◌≡◌, refl, sym, subst, ap, ◌∙◌, String, str_eq, Bool, ◌&&◌, true, false, Option, none,
  some, if◌then◌else◌,
}
use atlas_queue.Prelude.Text.{truthy}
use atlas_queue.Domain.Task.{Instant, seconds}
use atlas_queue.Redis.State.{Redis, Leader, expire_keys, empty_redis}
use atlas_queue.Redis.Leader.{
  acquire, renew, renew_owned, release, release_owned, set_nx, owner_text, expire_leader,
}
use atlas_queue.Redis.Leader.Exclusive.{lock_of}
use atlas_queue.Runtime.Exec.{Exec, ◌>>=◌}
use atlas_queue.Runtime.Exec.Ensures.{Post, Ensures, Ensures-bind, Ensures-pure, Ensures-if}
use atlas_queue.Runtime.World.{Env, World, redis_call, elapse, tick}
use atlas_queue.Runtime.World.Calls.{Ensures-redis_at, Ensures-redis_do}

-- the lock as Redis has it at the instant
abbrev pub lock_at : Instant → Redis → Option Leader
lock_at t r = (expire_keys t r).leader

abbrev pub owns : String → Option Leader → Bool
owns me none = false
owns me (some l) = str_eq l.owner me

-- an owner with an empty name releases nothing
abbrev pub releases : String → Option Leader → Bool
releases me none = false
releases me (some l) = truthy (some l.owner) && str_eq l.owner me

-- what `acquire` answers, for the lock that it finds, and the lock that it leaves
abbrev pub Acquired : (me : String) (ttl : ℕ) (before : Redis) → Bool → World → Type 0
Acquired me ttl before true v =
    (t : Instant) × (lock_at t before ≡ none)
    × (v.redis.leader ≡ some (lock_of me (t + seconds ttl)))
Acquired me ttl before false v =
    (t : Instant) × (l : Leader) × (lock_at t before ≡ some l) × (v.redis.leader ≡ some l)

-- the lock that a second command finds, after others have had the first one's for a while
abbrev pub found_then : Env → (n : ℕ) → Instant → Option Leader → Option Leader
found_then env n t l = lock_at t (record empty_redis { leader = env.meanwhile n l })

-- `renew`: between its two commands its own lock may run out, or become another's
abbrev pub Renewed : Env → (me : String) (ttl : ℕ) (before : Redis) → Bool → World → Type 0
Renewed env me ttl before true v =
    (t u : Instant) × (n : ℕ) × (owns me (lock_at t before) ≡ true)
    × (v.redis.leader ≡ expire_leader (u + seconds ttl) (found_then env n u (lock_at t before)))
Renewed env me ttl before false v =
    (t : Instant) × (owns me (lock_at t before) ≡ false) × (v.redis.leader ≡ lock_at t before)

abbrev pub Released : (me : String) (before : Redis) → World → Type 0
Released me before v =
    (t : Instant) × (v.redis.leader
      ≡ (if releases me (lock_at t before) then none else lock_at t before))

-- only the lock matters to what is found of it
lock_at-alone :
    (t : Instant) (r : Redis) (o : Option Leader)
    → r.leader ≡ o
    → lock_at t r ≡ lock_at t (record empty_redis { leader = o })
unfolding expire_keys
lock_at-alone t r o h = rw h refl

module _ (env : Env) (me : String) (before : Redis) where
  abbrev Started : World → Type 0
  Started w = w.redis ≡ before

  set_nx-Acquired :
      (ttl : ℕ) (t : Instant) (w : World) (r : Redis) (o : Option Leader)
      → r.leader ≡ o
      → lock_at t before ≡ o
      → let (a, r') = set_nx me (t + seconds ttl) r o in
        Acquired me ttl before a (record w { redis = r' })
  set_nx-Acquired ttl t w r none h e = (t, e, refl)
  set_nx-Acquired ttl t w r (some l) h e = (t, l, e, h)

  acquire-Acquired :
      (ttl : ℕ) → Ensures Started (acquire env me ttl) (Acquired me ttl before) (λ _. Unit)
  unfolding acquire
  acquire-Acquired ttl =
      Ensures-redis_at env _
        (λ w h.
          let t = env.now w.calls in
          (
            set_nx-Acquired ttl t (tick w) (expire_keys t w.redis) (lock_at t w.redis) refl
                (ap (lock_at t) (sym h)),
            tt,
          ))
        (λ w h. tt)

  -- what the two commands do that start with a GET
  Ensures-get :
      {A : Type 0} {Q : A → World → Type 0} (k : Option String → Exec World A)
      → ((t : Instant) (l : Option Leader)
          → lock_at t before ≡ l
          → Ensures (λ v. v.redis.leader ≡ l) (k (owner_text l)) Q (λ _. Unit))
      → Ensures Started (redis_call env (λ at r. (owner_text r.leader, r)) >>= k) Q (λ _. Unit)
  Ensures-get {Q} k h =
      Ensures-bind
        {R = λ o v.
          (t : Instant) × (o ≡ owner_text (lock_at t before)) × (v.redis.leader ≡ lock_at t before)}
        _ _
        (Ensures-redis_at env _
          (λ w e.
            let same = ap (lock_at (env.now w.calls)) e in
            ((env.now w.calls, ap owner_text same, same), tt))
          (λ w e. tt))
        λ o. record {
          at = λ v (t, e, same).
              subst (λ x. Post Q (λ _. Unit) (k x v)) (sym e)
                ((h t (lock_at t before) refl).at v same);
        }

  renew-Renewed :
      (ttl : ℕ) → Ensures Started (renew env me ttl) (Renewed env me ttl before) (λ _. Unit)
  unfolding renew elapse
  renew-Renewed ttl = Ensures-get _ owned
    where
      owned :
          (t : Instant) (l : Option Leader)
          → lock_at t before ≡ l
          → Ensures
              (λ v. v.redis.leader ≡ l)
              (renew_owned env me ttl (owner_text l))
              (Renewed env me ttl before)
              (λ _. Unit)
      owned t none e = Ensures-pure false (λ v h. (t, ap (owns me) e, h ∙ sym e))
      owned t (some l) e =
          Ensures-if (str_eq l.owner me) _ _
            (λ mine.
              Ensures-bind {R = λ _ v. (n : ℕ) × (v.redis.leader ≡ env.meanwhile n (some l))} _ _
                (record { at = λ v h. (v.calls, ap (env.meanwhile v.calls) h) })
                λ _.
                  Ensures-bind
                    {R = λ _ v.
                      (u : Instant) × (n : ℕ) × (v.redis.leader
                        ≡ expire_leader (u + seconds ttl) (found_then env n u (some l)))}
                    _ _
                    (Ensures-redis_do env _
                      (λ v at h. (
                        (
                          at,
                          h.0,
                          ap (expire_leader (at + seconds ttl)) (lock_at-alone at v.redis _ h.1),
                        ),
                        tt,
                      ))
                      (λ v h. tt))
                    λ _. Ensures-pure true (λ v h. (t, h.0, h.1, ap (owns me) e ∙ mine, rw e h.2)))
            (λ other. Ensures-pure false (λ v h. (t, ap (owns me) e ∙ other, h ∙ sym e)))

  release-Released : Ensures Started (release env me) (λ _. Released me before) (λ _. Unit)
  unfolding release elapse
  release-Released = Ensures-get _ owned
    where
      owned :
          (t : Instant) (l : Option Leader)
          → lock_at t before ≡ l
          → Ensures
              (λ v. v.redis.leader ≡ l)
              (release_owned env me (owner_text l))
              (λ _. Released me before)
              (λ _. Unit)
      owned t none e = Ensures-pure tt (λ v h. (t, rw e h))
      owned t (some l) e =
          Ensures-if (truthy (some l.owner)) _ _
            (λ named.
              Ensures-if (str_eq l.owner me) _ _
                (λ mine.
                  Ensures-bind {R = λ _ _. Unit} _ _ (record { at = λ v h. tt })
                    λ _.
                      Ensures-redis_do env _ (λ v at h. ((t, rw (e, named, mine) refl), tt))
                        (λ v h. tt))
                (λ other. Ensures-pure tt (λ v h. (t, rw (e, named, other) h))))
            (λ unnamed. Ensures-pure tt (λ v h. (t, rw (e, unnamed) h)))

-- The lock of the scheduler, as its commands find it in Redis. `acquire`, if it returns, answers
-- that it won where there was no lock, and the lock is then the caller's for the time given; it
-- answers that it did not where there was one, which stays. `renew`, if it returns, answers whether
-- the lock is the caller's when it reads it. Where it is, EXPIRE gives the time, from an instant on,
-- to the lock that it then finds, which may be gone or another's; otherwise the lock is as it was.
-- `release`, if it returns, has found a lock of the caller, whose name is not empty, and the lock is
-- gone, whosever it was by then; or it has left the lock.
pub owner_lem :
    (env : Env) (me : String) (ttl : ℕ) (w : World)
    → Post (Acquired me ttl w.redis) (λ _. Unit) (acquire env me ttl w)
      × Post (Renewed env me ttl w.redis) (λ _. Unit) (renew env me ttl w)
      × Post (λ _. Released me w.redis) (λ _. Unit) (release env me w)
owner_lem env me ttl w = (
  (acquire-Acquired env me w.redis ttl).at w refl,
  (renew-Renewed env me w.redis ttl).at w refl,
  (release-Released env me w.redis).at w refl,
)
