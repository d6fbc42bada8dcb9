-- ===== src/Formats/Common.antt =====
-- `integer_length` of src/formats/common.c.
use webdis.Prelude.Digits.{digit, digits_onto, decimal}
use webdis.Prelude.Int.{ℤ, pos, negsuc, decimal_int, to_int, magnitude, pos_part}
use webdis.Prelude.Text.{Bytes}
use native.Mathlib.Decide.{dec_lt}
use webdis.Prelude.{
  ℕ, zero, suc, ◌+◌, ◌*◌, ◌/◌, ◌%◌, ◌^◌, ◌≤◌, ◌<◌, ◌≡◌, refl, ap, false, [], ◌∷◌, arith, ltb,
  if◌then◌else◌, length,
}

-- The loop: `ci` is an `int`, with ten decimal digits at most.
unfoldable pub count_digits : ℕ → ℕ → ℕ → ℕ
count_digits zero ci sz = sz
count_digits (suc f) ci sz =
    let rest = count_digits f (ci / 10) (sz + 1) in if ltb 0 ci then rest else sz

abbrev pub sign_length : ℤ → ℕ → ℕ
sign_length (pos zero) sz = 1
sign_length (pos (suc n)) sz = sz
sign_length (negsuc n) sz = sz + 1

-- `int ci = llabs(i)` keeps 32 bits of the magnitude, and the loop runs while that is positive.
unfoldable pub integer_length : ℤ → ℕ
integer_length i = sign_length i (count_digits 10 (pos_part (to_int (pos (magnitude i)))) 0)

abbrev pub pow10 : ℕ → ℕ
pow10 zero = 1
pow10 (suc k) = 10 * pow10 k

pow10_pos : (k : ℕ) → 0 < pow10 k
pow10_pos zero = omega arith
pow10_pos (suc k) = omega (arith, pow10_pos k)

count_digits-zero : (f sz : ℕ) → count_digits f 0 sz ≡ sz
unfolding count_digits
count_digits-zero zero sz = refl
count_digits-zero (suc f) sz = refl

-- The loop and the digits that are printed keep step, while both have fuel.
length-digits_onto :
    (k f g n sz : ℕ) (acc : Bytes)
    → 0 < n
    → n < pow10 k
    → k ≤ f
    → k ≤ suc g
    → length (digits_onto 10 g n acc) + sz ≡ count_digits f n sz + length acc
unfolding digits_onto count_digits
length-digits_onto zero f g n sz acc h0 hn hf hg = absurd (omega arith)
length-digits_onto (suc k) zero g n sz acc h0 hn hf hg = absurd (omega arith)
length-digits_onto (suc k) (suc f) zero n sz acc h0 hn hf hg =
    let k_zero : k ≡ 0 = omega arith in
    let small : n / 10 ≡ 0 = omega (arith, ap pow10 k_zero) in
    ground (arith, count_digits-zero f (sz + 1))
length-digits_onto (suc k) (suc f) (suc g) n sz acc h0 hn hf hg = elim (dec_lt n 10) [
  | yes h ↦ let small : n / 10 ≡ 0 = omega arith in ground (arith, count_digits-zero f (sz + 1))
  | no h ↦ ground (
    arith,
    length-digits_onto k f g (n / 10) (sz + 1) (digit (n % 10) ∷ acc) (omega arith) (omega arith)
        (omega arith) (omega arith),
  )
]

-- A number with a digit in place k is printed with more than k digits.
pub length-digits_onto_ge :
    (k g n : ℕ) (acc : Bytes)
    → k ≤ g
    → pow10 k ≤ n
    → suc k + length acc ≤ length (digits_onto 10 g n acc)
unfolding digits_onto
length-digits_onto_ge zero zero n acc hg hn = omega arith
length-digits_onto_ge (suc k) zero n acc hg hn = absurd (omega arith)
length-digits_onto_ge zero (suc g) n acc hg hn = elim (dec_lt n 10) [
  | yes h ↦ ground arith
  | no h ↦ ground (
    arith,
    length-digits_onto_ge zero g (n / 10) (digit (n % 10) ∷ acc) (omega arith) (omega arith),
  )
]
length-digits_onto_ge (suc k) (suc g) n acc hg hn =
    let big : pow10 k ≤ n / 10 = omega arith in
    let h : ltb n 10 ≡ false = ground (arith, pow10_pos k) in
    rw h
      (omega (arith, length-digits_onto_ge k g (n / 10) (digit (n % 10) ∷ acc) (omega arith) big))

pub length-decimal_ge : (n : ℕ) → 2 ^ 31 ≤ n → 10 ≤ length (decimal n)
unfolding decimal
length-decimal_ge n h = omega (arith, length-digits_onto_ge 9 20 n [] (omega arith) (omega arith))

to_int-small : (n : ℕ) → n < 2 ^ 31 → pos_part (to_int (pos n)) ≡ n
to_int-small n h = let e : n % 2 ^ 32 ≡ n = omega arith in ground arith

to_int-large : (n : ℕ) → 2 ^ 31 ≤ n → n < 2 ^ 32 → pos_part (to_int (pos n)) ≡ 0
to_int-large n lo hi = let e : n % 2 ^ 32 ≡ n = omega arith in ground arith

count_digits-decimal :
    (n : ℕ)
    → 0 < n
    → n < 2 ^ 31
    → count_digits 10 (pos_part (to_int (pos n))) 0 ≡ length (decimal n)
unfolding decimal
count_digits-decimal n h0 h =
    rw (to_int-small n h) (
      omega
        (arith, length-digits_onto 10 10 20 n 0 [] h0 (omega arith) (omega arith) (omega arith)))

-- `integer_length` is the number of characters that `%lld` prints, while the magnitude fits the
-- `int` that it is copied to.
pub integer_length-decimal_int :
    (i : ℤ) → magnitude i < 2 ^ 31 → integer_length i ≡ length (decimal_int i)
unfolding integer_length
integer_length-decimal_int (pos zero) h = unfold count_digits digits_onto decimal in refl
integer_length-decimal_int (pos (suc n)) h = count_digits-decimal (suc n) (omega arith) h
integer_length-decimal_int (negsuc n) h =
    omega (arith, count_digits-decimal (suc n) (omega arith) h)

-- From 2 ^ 31 to 2 ^ 32 - 1 the copy is negative, and the length comes out as 0.
pub integer_length-overflow : (n : ℕ) → 2 ^ 31 ≤ n → n < 2 ^ 32 → integer_length (pos n) ≡ 0
unfolding integer_length
integer_length-overflow zero lo hi = absurd (omega arith)
integer_length-overflow (suc n) lo hi = rw (to_int-large (suc n) lo hi) (count_digits-zero 10 0)
