-- ===== src/Runtime/Exec/Ensures.antt =====
-- What an action leaves behind, by how it ends: `Q` when it returns, `E` when it raises. One rule
-- for each way to build an action.
use atlas_queue.Prelude.{◌≡◌, refl, Bool, true, false, if◌then◌else◌}
use atlas_queue.Domain.Exceptions.{Exc, Result, ok, err}
use atlas_queue.Runtime.Exec.{
  Exec, pure, raise, lift, ◌>>=◌, continue, handle_result, finish, try_except, try_finally,
}

abbrev pub Post : {S A : Type 0} → (A → S → Type 0) → (S → Type 0) → Result A × S → Type 0
Post Q E (ok a, s) = Q a s
Post Q E (err e, s) = E s

pub record Ensures {S A : Type 0} (P : S → Type 0) (m : Exec S A) (Q : A → S → Type 0)
    (E : S → Type 0) : Type 0 where
  pub at : (s : S) → P s → Post Q E (m s)

module _ {S A : Type 0} {P : S → Type 0} {E : S → Type 0} where
  pub Ensures-pure : {Q : A → S → Type 0} (a : A) → ((s : S) → P s → Q a s) → Ensures P (pure a) Q E
  unfolding pure
  Ensures-pure a h = record { at = h }

  pub Ensures-raise :
      {Q : A → S → Type 0} (e : Exc) → ((s : S) → P s → E s) → Ensures P (raise e) Q E
  unfolding raise
  Ensures-raise e h = record { at = h }

  pub Ensures-lift :
      {Q : A → S → Type 0} (r : Result A)
      → ((a : A) (s : S) → r ≡ ok a → P s → Q a s)
      → ((s : S) → P s → E s)
      → Ensures P (lift r) Q E
  unfolding lift
  Ensures-lift (ok a) q e = record { at = λ s h. q a s refl h }
  Ensures-lift (err x) q e = record { at = e }

  pub Ensures-if :
      {Q : A → S → Type 0} (b : Bool) (m n : Exec S A)
      → (b ≡ true → Ensures P m Q E)
      → (b ≡ false → Ensures P n Q E)
      → Ensures P (if b then m else n) Q E
  Ensures-if true m n hm hn = hm refl
  Ensures-if false m n hm hn = hn refl

  pub Ensures-weaken :
      {P' : S → Type 0} {Q Q' : A → S → Type 0} {E' : S → Type 0} (m : Exec S A)
      → Ensures P' m Q' E'
      → ((s : S) → P s → P' s)
      → ((a : A) (s : S) → Q' a s → Q a s)
      → ((s : S) → E' s → E s)
      → Ensures P m Q E
  Ensures-weaken {P'} {Q} {Q'} {E'} m h p q e = record { at = λ s hs. go (m s) (h.at s (p s hs)) }
    where
      go : (r : Result A × S) → Post Q' E' r → Post Q E r
      go (ok a, s) x = q a s x
      go (err _, s) x = e s x

module _ {S A B : Type 0} {P : S → Type 0} {E : S → Type 0} where
  pub Ensures-bind :
      {R : A → S → Type 0} {Q : B → S → Type 0} (m : Exec S A) (k : A → Exec S B)
      → Ensures P m R E
      → ((a : A) → Ensures (R a) (k a) Q E)
      → Ensures P (m >>= k) Q E
  unfolding ◌>>=◌
  Ensures-bind {R} {Q} m k hm hk = record { at = λ s hs. go (m s) (hm.at s hs) }
    where
      go : (r : Result A × S) → Post R E r → Post Q E (continue k r)
      go (ok a, s) x = (hk a).at s x
      go (err e, s) x = x

module _ {S A B : Type 0} {P : S → Type 0} {E : S → Type 0} where
  -- what follows a checked value knows where the value comes from
  pub Ensures-lift-bind :
      {Q : B → S → Type 0} (r : Result A) (k : A → Exec S B)
      → ((a : A) → r ≡ ok a → Ensures P (k a) Q E)
      → ((s : S) → P s → E s)
      → Ensures P (lift r >>= k) Q E
  unfolding ◌>>=◌ lift
  Ensures-lift-bind (ok a) k h e = h a refl
  Ensures-lift-bind (err x) k h e = record { at = e }

module _ {S A : Type 0} {P : S → Type 0} {E : S → Type 0} where
  pub Ensures-try_except :
      {Q : A → S → Type 0} {E' : S → Type 0} (m : Exec S A) (h : Exc → Exec S A)
      → Ensures P m Q E'
      → ((e : Exc) → Ensures E' (h e) Q E)
      → Ensures P (try_except m h) Q E
  unfolding try_except
  Ensures-try_except {Q} {E'} m h hm hh = record { at = λ s hs. go (m s) (hm.at s hs) }
    where
      go : (r : Result A × S) → Post Q E' r → Post Q E (handle_result h r)
      go (ok a, s) x = x
      go (err e, s) x = (hh e).at s x

  pub Ensures-try_finally :
      {Q : A → S → Type 0} (m : Exec S A) (n : Exec S Unit)
      → Ensures P m Q E
      → ((a : A) → Ensures (Q a) n (λ _. Q a) E)
      → Ensures E n (λ _. E) E
      → Ensures P (try_finally m n) Q E
  unfolding try_finally
  Ensures-try_finally {Q} m n hm hq he = record { at = λ s hs. go (m s) (hm.at s hs) }
    where
      after :
          (r : Result A) (x : Result Unit × S)
          → Post (λ _ s. Post Q E (r, s)) E x
          → Post Q E (continue (λ _ s'. (r, s')) x)
      after r (ok _, s) h = h
      after r (err _, s) h = h

      go : (r : Result A × S) → Post Q E r → Post Q E (finish n r)
      go (ok a, s) x = after (ok a) (n s) ((hq a).at s x)
      go (err e, s) x = after (err e) (n s) (he.at s x)
