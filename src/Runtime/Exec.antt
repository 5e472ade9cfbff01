-- ===== src/Runtime/Exec.antt =====
-- Actions on a state `S` that may raise. What was written before a raise stays written, so the
-- state comes back beside the exception too.
pub mod Ensures
pub mod Invariant
use atlas_queue.Domain.Exceptions.{Exc, Result, ok, err}

abbrev pub Exec {ℓ} : Type ℓ → Type ℓ → Type ℓ
Exec S A = S → Result A × S

module _ {ℓ} {S A : Type ℓ} where
  unfoldable pub pure : A → Exec S A
  pure a s = (ok a, s)

  unfoldable pub raise : Exc → Exec S A
  raise e s = (err e, s)

  unfoldable pub lift : Result A → Exec S A
  lift r s = (r, s)

  unfoldable pub gets : (S → A) → Exec S A
  gets f s = (ok (f s), s)

unfoldable pub modify : {S : Type 0} → (S → S) → Exec S Unit
modify f s = (ok tt, f s)

module _ {ℓ} {S A B : Type ℓ} where
  abbrev pub continue : (A → Exec S B) → Result A × S → Result B × S
  continue f (ok a, s) = f a s
  continue f (err e, s) = (err e, s)

  infixl 10 ◌>>=◌ ◌>>◌
  unfoldable pub ◌>>=◌ : Exec S A → (A → Exec S B) → Exec S B
  unfolding pure raise lift gets modify
  ◌>>=◌ m f s = continue f (m s)

  abbrev pub ◌>>◌ : Exec S A → Exec S B → Exec S B
  m >> n = m >>= λ _. n

module _ {S A : Type 0} where
  abbrev pub handle_result : (Exc → Exec S A) → Result A × S → Result A × S
  handle_result h (ok a, s) = (ok a, s)
  handle_result h (err e, s) = h e s

  -- `try: … except Exception as exc: …`
  unfoldable pub try_except : Exec S A → (Exc → Exec S A) → Exec S A
  try_except m h s = handle_result h (m s)

  -- `finally`: what it raises takes the place of the result
  abbrev pub finish : Exec S Unit → Result A × S → Result A × S
  finish n (r, s) = continue (λ _ s'. (r, s')) (n s)

  unfoldable pub try_finally : Exec S A → Exec S Unit → Exec S A
  try_finally m n s = finish n (m s)
