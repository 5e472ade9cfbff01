-- ===== src/Domain/Backoff.antt =====
-- `BackoffPolicy` of src/atlasqueue/domain/entities/task.py.
use atlas_queue.Prelude.{ℕ, ◌-◌, min, String, str_eq, Option, none, some, if◌then◌else◌}
use atlas_queue.Domain.Exceptions.{Result, ok, err, overflow_error, ◌>>=◌}

-- a Python float, by its 64 bits
pub record Float : Type 0 where
  pub bits : ℕ

abbrev pub two : Float
two = record { bits = 0x4000000000000000 }

-- Python's float arithmetic, which the repository does not implement; `none` is an `OverflowError`.
-- Base and delay are not negative, so neither is what `int` makes of their product.
pub record FloatOps : Type 0 where
  pub pow : Float → ℕ → Option Float
  pub mul : ℕ → Float → Option Float
  pub trunc : Float → Option ℕ

pub record BackoffPolicy : Type 0 where
  pub strategy : String
  pub base_delay_seconds : ℕ
  pub max_delay_seconds : ℕ
  pub multiplier : Float

-- `BackoffPolicy()`
abbrev pub default_policy : BackoffPolicy
default_policy = record {
  strategy = "fixed";
  base_delay_seconds = 5;
  max_delay_seconds = 300;
  multiplier = two;
}

abbrev pub or_overflow {ℓ} : {A : Type ℓ} → Option A → Result A
or_overflow none = err (overflow_error "int too large to convert to float")
or_overflow (some a) = ok a

module _ (ops : FloatOps) where
  -- `int(base * multiplier ** n)`
  unfoldable pub exponential : BackoffPolicy → ℕ → Result ℕ
  exponential p n = do
    factor ← or_overflow (ops.pow p.multiplier n)
    product ← or_overflow (ops.mul p.base_delay_seconds factor)
    or_overflow (ops.trunc product)

  -- `max(attempt - 1, 0)` is the truncated difference
  unfoldable pub delay_for_attempt : BackoffPolicy → ℕ → Result ℕ
  unfolding exponential
  delay_for_attempt p attempt =
      if str_eq p.strategy "exponential"
      then (do delay ← exponential p (attempt - 1); ok (min delay p.max_delay_seconds))
      else ok p.base_delay_seconds
