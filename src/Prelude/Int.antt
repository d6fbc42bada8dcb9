-- ===== src/Prelude/Int.antt =====
-- Signed integers over the native numbers, and `%d`, `%lld` of them.
use Prim.Native.Nat.{ℕ, suc, ◌-◌, ◌%◌, ◌^◌}
use mathlib.Core.List.{◌∷◌}
use webdis.Prelude.Digits.{decimal}
use webdis.Prelude.Tests.{ltb, if◌then◌else◌}
use webdis.Prelude.Text.{Bytes}

-- `negsuc n` is -(n + 1).
pub data ℤ : Type 0 where
  pos : ℕ → ℤ
  negsuc : ℕ → ℤ

abbrev pub decimal_int : ℤ → Bytes
decimal_int (pos n) = decimal n
decimal_int (negsuc n) = b'-' ∷ decimal (suc n)

-- The number that a pattern of 32 bits stands for.
abbrev pub signed32 : ℕ → ℤ
signed32 w = if ltb w (2 ^ 31) then pos w else negsuc (2 ^ 32 - w - 1)

-- The cast of a `long long` to `int` keeps the low 32 bits.
abbrev pub to_int : ℤ → ℤ
to_int (pos n) = signed32 (n % 2 ^ 32)
to_int (negsuc n) = signed32 (2 ^ 32 - 1 - n % 2 ^ 32)

-- `llabs`; it has no value at the least `long long`, which is left out.
abbrev pub magnitude : ℤ → ℕ
magnitude (pos n) = n
magnitude (negsuc n) = suc n

-- The value, if it is positive: what `while (ci > 0)` tests.
abbrev pub pos_part : ℤ → ℕ
pos_part (pos n) = n
pos_part (negsuc n) = 0
