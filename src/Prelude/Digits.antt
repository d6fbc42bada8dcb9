-- ===== src/Prelude/Digits.antt =====
-- Numbers in decimal and hexadecimal, as `sprintf` writes them.
use Prim.Native.Nat.{ℕ, zero, suc, ◌+◌, ◌-◌, ◌/◌, ◌%◌, ◌^◌}
use mathlib.Core.List.{[], ◌∷◌}
use webdis.Prelude.Tests.{ltb, if◌then◌else◌}
use webdis.Prelude.Text.{Bytes}

abbrev pub digit : ℕ → ℕ
digit d = if ltb d 10 then b'0' + d else b'a' + (d - 10)

-- The digits of `n` in front of `acc`, most significant first. The fuel is the number of digits
-- after the first one that `n` may have.
unfoldable pub digits_onto : ℕ → ℕ → ℕ → Bytes → Bytes
digits_onto base zero n acc = digit (n % base) ∷ acc
digits_onto base (suc f) n acc =
    let rest = digits_onto base f (n / base) (digit (n % base) ∷ acc) in
    if ltb n base then digit n ∷ acc else rest

-- `%zu`, `%d` and `%lld` at a number below 2 ^ 64.
unfoldable pub decimal : ℕ → Bytes
unfolding digits_onto
decimal n = digits_onto 10 20 n []

-- `%x` at an unsigned int.
unfoldable pub hexadecimal : ℕ → Bytes
unfolding digits_onto
hexadecimal n = digits_onto 16 8 (n % 2 ^ 32) []
