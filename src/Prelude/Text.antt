-- ===== src/Prelude/Text.antt =====
-- Python's texts: `f"{n}"` of an integer, `str(UUID)`, and the truth value of an optional text.
use Prim.Native.Nat.{ℕ, zero, suc, ◌+◌, ◌/◌, ◌%◌, ◌^◌}
use Prim.Native.String.{String, ◌++◌}
use mathlib.Core.Bool.{Bool, false, not}
use mathlib.Core.Option.{Option, none, some}
use text.Mathlib.Text.{get?, ◌==◌ as str_eq}
use atlas_queue.Prelude.Tests.{ltb, if◌then◌else◌}

abbrev digit_text : Option String → String
digit_text none = ""
digit_text (some s) = s

-- one digit, to base 16 at most
abbrev digit : ℕ → String
digit d = digit_text (get? "0123456789abcdef" d (d + 1))

-- The digits of a number below `10 ^ fuel`; a number `n` is below `10 ^ (n + 1)`.
decimal : ℕ → ℕ → String
decimal zero n = ""
decimal (suc f) n =
    let rest = decimal f (n / 10) ++ digit (n % 10) in if ltb n 10 then digit n else rest

pub show : ℕ → String
unfolding decimal
show n = decimal (suc n) n

-- the last `k` hexadecimal digits
hex : ℕ → ℕ → String
hex zero n = ""
hex (suc k) n = hex k (n / 16) ++ digit (n % 16)

-- `str(uuid)`, of a 128-bit number
pub show_uuid : ℕ → String
unfolding hex
show_uuid u =
    hex 8 (u / 2 ^ 96)
    ++ "-"
    ++ hex 4 (u / 2 ^ 80)
    ++ "-"
    ++ hex 4 (u / 2 ^ 64)
    ++ "-"
    ++ hex 4 (u / 2 ^ 48)
    ++ "-"
    ++ hex 12 u

-- `if text:` on a `str | None`
abbrev pub truthy : Option String → Bool
truthy none = false
truthy (some s) = not (str_eq s "")
