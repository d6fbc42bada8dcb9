-- ===== src/Prelude/Bytes.antt =====
-- Facts about single bytes.
use Prim.Native.Nat.{ℕ, zero, suc, ◌<◌, bit_xor}
use mathlib.Core.Bool.{Bool, true, false}
use mathlib.Core.Path.{◌≡◌, refl}
use native.Mathlib.Omega.{arith}
use webdis.Prelude.Tests.{◌==◌, ==_iff, if◌then◌else◌}

-- Whether a test passes for each of the first numbers.
unfoldable pub passes : (ℕ → Bool) → ℕ → Bool
passes test zero = true
passes test (suc k) = if test k then passes test k else false

-- A number that is tested passes.
pub passes_lem : (test : ℕ → Bool) (k c : ℕ) → c < k → passes test k ≡ true → test c ≡ true
unfolding passes
passes_lem test zero c below ok = absurd (omega arith)
passes_lem test (suc k) c below ok = ground (arith, passes_lem test k c)

abbrev masks_back : ℕ → ℕ → Bool
masks_back m x = bit_xor (bit_xor x m) m == x

every_mask : passes (λ m. passes (masks_back m) 256) 256 ≡ true
unfolding passes
every_mask = refl

-- Masking a byte twice by the same byte gives it back.
pub bit_xor_twice : (x m : ℕ) → x < 256 → m < 256 → bit_xor (bit_xor x m) m ≡ x
bit_xor_twice x m hx hm =
    let row = passes_lem (λ m. passes (masks_back m) 256) 256 m hm every_mask in
    (==_iff _ x).0 (passes_lem (masks_back m) 256 x hx row)
