-- ===== src/Runtime/Exec/Invariant.antt =====
-- What an action keeps, however it ends: one rule for each way to build one.
use atlas_queue.Prelude.{◌≡◌, refl, Bool, true, false, if◌then◌else◌}
use atlas_queue.Domain.Exceptions.{Exc, Result, ok, err}
use atlas_queue.Runtime.Exec.{
  Exec, pure, raise, lift, gets, ◌>>=◌, continue, try_except, handle_result, try_finally, finish,
}
use atlas_queue.Runtime.Exec.Ensures.{Post, Ensures}

pub record Preserves {S A : Type 0} (P : S → Type 0) (m : Exec S A) : Type 0 where
  pub after : (s : S) → P s → P (m s).1

module _ {S A : Type 0} {P : S → Type 0} where
  pub Preserves-pure : (a : A) → Preserves P (pure a)
  unfolding pure
  Preserves-pure a = record { after = λ s h. h }

  pub Preserves-raise : (e : Exc) → Preserves P (raise {A = A} e)
  unfolding raise
  Preserves-raise e = record { after = λ s h. h }

  pub Preserves-lift : (r : Result A) → Preserves P (lift r)
  unfolding lift
  Preserves-lift r = record { after = λ s h. h }

  pub Preserves-gets : (f : S → A) → Preserves P (gets f)
  unfolding gets
  Preserves-gets f = record { after = λ s h. h }

  pub Preserves-if :
      (b : Bool) (m n : Exec S A) → Preserves P m → Preserves P n → Preserves P (if b then m else n)
  Preserves-if true m n hm hn = hm
  Preserves-if false m n hm hn = hn

  pub Preserves-try_except :
      (m : Exec S A) (h : Exc → Exec S A)
      → Preserves P m
      → ((e : Exc) → Preserves P (h e))
      → Preserves P (try_except m h)
  unfolding try_except
  Preserves-try_except m h hm hh = record { after = λ s x. handled (m s) (hm.after s x) }
    where
      handled : (r : Result A × S) → P r.1 → P (handle_result h r).1
      handled (ok a, s) x = x
      handled (err e, s) x = (hh e).after s x

-- in particular when it returns
pub Preserves-Ensures :
    {S A : Type 0} {P : S → Type 0} {m : Exec S A}
    → Preserves P m
    → Ensures P m (λ _. P) (λ _. Unit)
Preserves-Ensures {S} {A} {P} {m} h = record { at = λ s x. go (m s) (h.after s x) }
  where
    go : (r : Result A × S) → P r.1 → Post (λ _. P) (λ _. Unit) r
    go (ok a, s) x = x
    go (err e, s) x = tt

module _ {S A B : Type 0} {P : S → Type 0} where
  pub Preserves-bind :
      (m : Exec S A) (k : A → Exec S B)
      → Preserves P m
      → ((a : A) → Preserves P (k a))
      → Preserves P (m >>= k)
  unfolding ◌>>=◌
  Preserves-bind m k hm hk = record { after = λ s x. continued (m s) (hm.after s x) }
    where
      continued : (r : Result A × S) → P r.1 → P (continue k r).1
      continued (ok a, s) x = (hk a).after s x
      continued (err e, s) x = x

module _ {S A B : Type 0} {P : S → Type 0} where
  -- what follows a checked value knows where the value comes from
  pub Preserves-lift-bind :
      (r : Result A) (k : A → Exec S B)
      → ((a : A) → r ≡ ok a → Preserves P (k a))
      → Preserves P (lift r >>= k)
  unfolding ◌>>=◌ lift
  Preserves-lift-bind (ok a) k h = record { after = λ s x. (h a refl).after s x }
  Preserves-lift-bind (err e) k h = record { after = λ s x. x }

module _ {S A : Type 0} {P : S → Type 0} where
  pub Preserves-try_finally :
      (m : Exec S A) (n : Exec S Unit)
      → Preserves P m
      → Preserves P n
      → Preserves P (try_finally m n)
  unfolding try_finally ◌>>=◌
  Preserves-try_finally m n hm hn = record { after = λ s x. finished (m s) (hm.after s x) }
    where
      finished : (r : Result A × S) → P r.1 → P (finish n r).1
      finished (r, s) x =
          (Preserves-bind {P = P} n (λ _ s'. (r, s')) hn (λ _. record { after = λ s' y. y })).after
            s x

pub ruleset preserves_rules = (
  Preserves-pure, Preserves-raise, Preserves-lift, Preserves-gets, Preserves-if,
  Preserves-try_except, Preserves-bind, Preserves-try_finally,
)
