-- ===== src/Runtime/World/Served.antt =====
-- Actions that return: rules for an environment that serves every call.
use atlas_queue.Prelude.{ℕ, String, Option, ◌≡◌}
use atlas_queue.Domain.Exceptions.{Result, ok, err}
use atlas_queue.Domain.Enums.{TaskStatus}
use atlas_queue.Domain.Task.{Instant}
use atlas_queue.Domain.Worker.{Metadata}
use atlas_queue.Persistence.Models.{Db}
use atlas_queue.Persistence.Events.{append}
use atlas_queue.Redis.State.{Redis}
use atlas_queue.Runtime.Exec.{Exec}
use atlas_queue.Runtime.Exec.Ensures.{Post, Ensures, Ensures-bind}
use atlas_queue.Runtime.World.{
  Env, World, Metric, served, now, uuid4, emit, db_call, redis_call, redis_do,
}
use atlas_queue.Runtime.World.Calls.{answered}

-- it does not raise
abbrev pub Returns : {S A : Type 0} → (S → Type 0) → Exec S A → (A → S → Type 0) → Type 0
Returns P m Q = Ensures P m Q (λ _. ⊥)

abbrev pub Total : {A : Type 0} → Exec World A → Type 0
Total m = Returns (λ _. Unit) m (λ _ _. Unit)

-- what holds however an action ends holds of one that returns
pub Returns-and :
    {S A : Type 0} {P E : S → Type 0} {Q : A → S → Type 0} (m : Exec S A)
    → Ensures P m Q E
    → Returns P m (λ _ _. Unit)
    → Returns P m Q
Returns-and {S} {A} {P} {E} {Q} m h r = record { at = λ s p. both (m s) (h.at s p) (r.at s p) }
  where
    both : (x : Result A × S) → Post Q E x → Post (λ _ _. Unit) (λ _. ⊥) x → Post Q (λ _. ⊥) x
    both (ok a, s) q e = q
    both (err _, s) q e = absurd e

pub Total-emit : (m : Metric) → Total (emit m)
unfolding emit
Total-emit m = record { at = λ w h. tt }

module _ (env : Env) (all_served : (n : ℕ) → env.fault n ≡ served) where
  pub Total-now : Total (now env)
  unfolding now
  Total-now = record { at = λ w h. tt }

  pub Total-uuid4 : Total (uuid4 env)
  unfolding uuid4
  Total-uuid4 = record { at = λ w h. tt }

  pub Returns-db_call :
      {A : Type 0} {P : World → Type 0} {Q : A → World → Type 0} (f : Db → Result A × Db)
      → ((w : World) → P w → Post Q (λ _. ⊥) (answered f w))
      → Returns P (db_call env f) Q
  unfolding db_call
  Returns-db_call f h = record { at = λ w p. rw (all_served w.calls) (h w p) }

  pub Total-redis_call : {A : Type 0} (f : Instant → Redis → A × Redis) → Total (redis_call env f)
  unfolding redis_call
  Total-redis_call f = record { at = λ w p. rw (all_served w.calls) tt }

  pub Total-redis_do : (f : Instant → Redis → Redis) → Total (redis_do env f)
  unfolding redis_do
  Total-redis_do f = Total-redis_call (λ at r. (tt, f at r))

  pub Total-append :
      (id : ℕ) (event : String) (from to : Option TaskStatus) (message : Option String)
      (metadata : Metadata)
      → Total (append env id event from to message metadata)
  unfolding append
  Total-append id event from to message metadata =
      Ensures-bind _ _ Total-uuid4
        λ _. Ensures-bind _ _ Total-now λ _. Returns-db_call _ (λ w h. tt)
