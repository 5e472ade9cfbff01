-- ===== src/Redis/Leader/Exclusive.antt =====
-- Who may touch the lock of the scheduler.
use atlas_queue.Prelude.{
  ℕ, ◌<◌, ◌≡◌, refl, subst, sym, String, str_eq, Bool, true, false, Option, some, lt→ltb,
  if◌then◌else◌,
}
use atlas_queue.Prelude.Text.{truthy}
use atlas_queue.Domain.Task.{Instant}
use atlas_queue.Redis.State.{Redis, Leader, expire_keys}
use atlas_queue.Redis.Leader.{acquire, renew, release, owner_text}
use atlas_queue.Runtime.Exec.{Exec}
use atlas_queue.Runtime.Exec.Ensures.{Post, Ensures, Ensures-bind, Ensures-pure, Ensures-if}
use atlas_queue.Runtime.World.{Env, World, redis_call}
use atlas_queue.Runtime.World.Calls.{Ensures-redis_at}

abbrev pub lock_of : String → Instant → Leader
lock_of owner until = record { owner = owner; expires_at = some until }

-- the lock is held by `owner` until the instant
abbrev pub HeldBy : String → Instant → World → Type 0
HeldBy owner until w = w.redis.leader ≡ some (lock_of owner until)

module _ (env : Env) (me owner : String) (until : Instant) (other : str_eq owner me ≡ false)
    (live : (n : ℕ) → env.now n < until) where
  abbrev Held : World → Type 0
  Held = HeldBy owner until

  kept :
      (n : ℕ) (r : Redis)
      → r.leader ≡ some (lock_of owner until)
      → (expire_keys (env.now n) r).leader ≡ some (lock_of owner until)
  unfolding expire_keys
  kept n r h = rw (h, lt→ltb (env.now n) until (live n)) refl

  acquire-Held :
      (ttl : ℕ) → Ensures Held (acquire env me ttl) (λ won v. (won ≡ false) × Held v) Held
  unfolding acquire
  acquire-Held ttl =
      Ensures-redis_at env _ (λ w h. rw (kept w.calls w.redis h) ((refl, refl), refl)) (λ w h. h)

  read-Held :
      Ensures Held
        (redis_call env (λ at r. (owner_text r.leader, r)))
        (λ o v. (o ≡ some owner) × Held v)
        Held
  read-Held =
      Ensures-redis_at env _ (λ w h. rw (kept w.calls w.redis h) ((refl, refl), refl)) (λ w h. h)

  -- the branch of a lock that is somebody else's
  pass :
      {A : Type 0} {Q : A → World → Type 0} (b : Bool) (m n : Exec World A)
      → b ≡ false
      → Ensures Held n Q Held
      → Ensures Held (if b then m else n) Q Held
  pass false m n h e = e
  pass true m n h e = cc

  -- both go on with the owner that they read
  with_owner :
      {A : Type 0} {Q : A → World → Type 0} (k : Option String → Exec World A)
      → Ensures Held (k (some owner)) Q Held
      → (o : Option String) → Ensures (λ v. (o ≡ some owner) × Held v) (k o) Q Held
  with_owner {Q} k e o = record {
    at = λ v h. subst (λ x. Post Q Held (k x v)) (sym h.0) (e.at v h.1);
  }

  renew-Held :
      (ttl : ℕ) → Ensures Held (renew env me ttl) (λ still v. (still ≡ false) × Held v) Held
  unfolding renew
  renew-Held ttl =
      Ensures-bind _ _ read-Held
        (with_owner _ (pass (str_eq owner me) _ _ other (Ensures-pure false (λ v h. (refl, h)))))

  release-Held : Ensures Held (release env me) (λ _. Held) Held
  unfolding release
  release-Held = Ensures-bind _ _ read-Held (
      with_owner _ (
        Ensures-if (truthy (some owner)) _ _
          (λ _. pass (str_eq owner me) _ _ other (Ensures-pure tt (λ v h. h)))
          (λ _. Ensures-pure tt (λ v h. h))))

-- As long as another owner's lock has not run out, nobody else leads: `acquire` and `renew` do not
-- answer that they hold the lock, and neither they nor `release` change it, however their calls end.
pub follower_lem :
    (env : Env) (me owner : String) (until : Instant) (w : World) (ttl : ℕ)
    → str_eq owner me ≡ false
    → ((n : ℕ) → env.now n < until)
    → HeldBy owner until w
    → Post
        (λ won v. (won ≡ false) × HeldBy owner until v)
        (HeldBy owner until)
        (acquire env me ttl w)
      × Post
          (λ still v. (still ≡ false) × HeldBy owner until v)
          (HeldBy owner until)
          (renew env me ttl w)
      × Post (λ _. HeldBy owner until) (HeldBy owner until) (release env me w)
follower_lem env me owner until w ttl other live h = (
  (acquire-Held env me owner until other live ttl).at w h,
  (renew-Held env me owner until other live ttl).at w h,
  (release-Held env me owner until other live).at w h,
)
