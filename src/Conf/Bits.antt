-- ===== src/Conf/Bits.antt =====
-- The masks of src/conf.c: what `bit_and` keeps of a number under one of them.
use Prim.Native.Nat.{bit_and, digits, bit_and-bitwise}
use mathlib.Core.Path.{subst}
use native.Mathlib.Nat.{div-div-eq-div-mul, zero-add, suc-add, mul-one, mul_left_comm}
use webdis.Prelude.{
  ◌-◌, sym, ap, ◌∙◌, ◌*◌, ◌<◌, ◌/◌, ◌%◌, min, ℕ, zero, suc, ◌+◌, ◌-◌, ◌*◌, ◌/◌, ◌%◌, ◌≤◌, ◌<◌, min,
  ◌≡◌, refl, sym, ap, ◌∙◌, arith,
}

-- The digits of `bit_and`, from `n` rounds.
abbrev rounds : ℕ → ℕ → ℕ → ℕ
rounds n a b = digits (λ b. zero) min n a b

one_round_more : (n a b : ℕ) → a ≤ n → rounds (suc n) a b ≡ rounds n a b
one_round_more zero zero b h = refl
one_round_more zero (suc a) b h = absurd (omega arith)
one_round_more (suc n) zero b h = refl
one_round_more (suc n) (suc a) b h =
    omega (arith, one_round_more n (suc a / 2) (b / 2) (omega arith))

more_rounds : (k n a b : ℕ) → a ≤ n → rounds (k + n) a b ≡ rounds n a b
more_rounds zero n a b h = ap (λ m. rounds m a b) (zero-add n)
more_rounds (suc k) n a b h =
    ap (λ m. rounds m a b) (suc-add k n)
    ∙ one_round_more (k + n) a b (omega arith)
    ∙ more_rounds k n a b h

-- `bit_and` goes by halves.
halves : (a b : ℕ) → bit_and a b ≡ 2 * bit_and (a / 2) (b / 2) + min (a % 2) (b % 2)
halves zero b = omega (arith, bit_and-bitwise 0 b, bit_and-bitwise 0 (b / 2))
halves (suc a) b =
    let half = suc a / 2 in
    let k = a - half in
    let enough : rounds (k + half) half (b / 2) ≡ rounds half half (b / 2) =
      more_rounds k half half (b / 2) (omega arith) in
    let all : k + half ≡ a = omega arith in
    let same : rounds a half (b / 2) ≡ rounds half half (b / 2) =
      ap (λ m. rounds m half (b / 2)) (sym all) ∙ enough in
    omega (arith, bit_and-bitwise (suc a) b, bit_and-bitwise half (b / 2), same)

-- Powers of two by doubling, so that a bit more is a step of the recursion.
abbrev pub pow2 : ℕ → ℕ
pow2 zero = 1
pow2 (suc k) = 2 * pow2 k

pub pow2_pos : (k : ℕ) → 0 < pow2 k
pow2_pos zero = omega arith
pow2_pos (suc k) = omega (arith, pow2_pos k)

-- All ones keep a number.
bit_and_ones : (k x : ℕ) → x < pow2 k → bit_and x (pow2 k - 1) ≡ x
bit_and_ones zero zero h = refl
bit_and_ones zero (suc x) h = absurd (omega arith)
bit_and_ones (suc k) x h =
    let half : (2 * pow2 k - 1) / 2 ≡ pow2 k - 1 = omega (arith, pow2_pos k) in
    let odd : (2 * pow2 k - 1) % 2 ≡ 1 = omega (arith, pow2_pos k) in
    let rest = bit_and_ones k (x / 2) (omega arith) in
    let step = halves x (2 * pow2 k - 1) in
    let inner : bit_and (x / 2) ((2 * pow2 k - 1) / 2) ≡ x / 2 = ap (bit_and (x / 2)) half ∙ rest in
    omega (arith, step, inner, odd)

-- `k` ones over `j` zeros drop the last `j` bits.
pub bit_and_mask :
    (j k x : ℕ) → x < pow2 (j + k) → bit_and x ((pow2 k - 1) * pow2 j) ≡ x / pow2 j * pow2 j
bit_and_mask zero k x h =
    let bound : x < pow2 k = subst (λ n. x < pow2 n) (zero-add k) h in
    ap (bit_and x) (mul-one (pow2 k - 1)) ∙ bit_and_ones k x bound ∙ omega arith
bit_and_mask (suc j) k x h =
    let m = (pow2 k - 1) * pow2 j in
    let bound : x < 2 * pow2 (j + k) = subst (λ n. x < pow2 n) (suc-add j k) h in
    let rest = bit_and_mask j k (x / 2) (omega arith) in
    let mask : (pow2 k - 1) * (2 * pow2 j) ≡ 2 * m = mul_left_comm (pow2 k - 1) 2 (pow2 j) in
    let inner : bit_and (x / 2) (2 * m / 2) ≡ x / 2 / pow2 j * pow2 j =
      ap (bit_and (x / 2)) (omega arith) ∙ rest in
    let even : 2 * m % 2 ≡ 0 = omega arith in
    let quotient : x / 2 / pow2 j ≡ x / (2 * pow2 j) = div-div-eq-div-mul x 2 (pow2 j) in
    ap (bit_and x) mask
    ∙ omega (arith, halves x (2 * m), even, inner)
    ∙ ap (λ q. 2 * (q * pow2 j)) quotient
    ∙ mul_left_comm 2 (x / (2 * pow2 j)) (pow2 j)
