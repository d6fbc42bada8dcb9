-- ===== src/Http/Chunk.antt =====
-- Chunks of src/http.c: what a client reads from them.
use native.Mathlib.Nat.{
  div-add-mod', mod-lt, mod-eq_of_lt, zero-mul, zero-add, pow-zero, pow-suc, div-lt_iff_lt-mul,
}
use mathlib.Core.Path.{subst}
use webdis.Http.{format_chunk, crlf}
use webdis.Http.Reader.{
  read_digits, is_digit, digit_value, after_bytes, cut, read_sized, read_chunk,
}
use webdis.Prelude.Digits.{digit, digits_onto, decimal, hexadecimal}
use webdis.Prelude.Text.{Bytes}
use webdis.Prelude.{
  ℕ, zero, suc, ◌+◌, ◌*◌, ◌/◌, ◌%◌, ◌^◌, ◌≤◌, ◌<◌, ◌≡◌, refl, ap, ◌∙◌, inl, inr, true, false, some,
  [], ◌∷◌, ◌++◌, append_assoc, arith, ltb, ◌==◌, ==_iff, ltb→lt, Bool-cases, length, length-append,
  take-append, drop-append,
}

digit-is_digit : (base d : ℕ) → d < base → base ≤ 16 → is_digit base (digit d) ≡ true
digit-is_digit base d h hb = ground arith

digit_value-digit : (d : ℕ) → d < 16 → digit_value (digit d) ≡ d
digit_value-digit d h = ground arith

module _ (base : ℕ) (h1 : 1 < base) (h2 : base ≤ 16) where
  read_digits-digit :
      (n d : ℕ) (s : Bytes)
      → d < base
      → read_digits base n (digit d ∷ s) ≡ read_digits base (n * base + d) s
  unfolding read_digits
  read_digits-digit n d s h = rw (digit-is_digit base d h h2, digit_value-digit d (omega arith))

  onto_zero : (d : ℕ) → 0 * base + d ≡ d
  onto_zero d = ap (λ k. k + d) (zero-mul base) ∙ zero-add d

  one_digit : base ^ 1 ≡ base
  one_digit = pow-suc base 0 ∙ ap (λ k. k * base) (pow-zero base) ∙ omega arith

  -- The digits that are written are read back.
  pub read_digits-digits_onto :
      (f n : ℕ) (s : Bytes)
      → n < base ^ suc f
      → read_digits base 0 (digits_onto base f n s) ≡ read_digits base n s
  unfolding digits_onto
  read_digits-digits_onto zero n s h =
      read_digits-digit 0 (n % base) s (mod-lt n (omega arith))
      ∙ ap (λ k. read_digits base k s)
          (onto_zero (n % base) ∙ mod-eq_of_lt (subst (λ k. n < k) one_digit h))
  read_digits-digits_onto (suc f) n s h = elim (Bool-cases (ltb n base)) [
    | inl e ↦
        rw e
          (read_digits-digit 0 n s (ltb→lt n base e) ∙ ap (λ k. read_digits base k s) (onto_zero n))
    | inr e ↦ rw e (
        read_digits-digits_onto f (n / base) (digit (n % base) ∷ s)
          ((div-lt_iff_lt-mul (omega arith)).1 (subst (λ k. n < k) (pow-suc base (suc f)) h))
        ∙ read_digits-digit (n / base) (n % base) s (mod-lt n (omega arith))
        ∙ ap (λ k. read_digits base k s) (div-add-mod' n base))
  ]

pub digits_onto-append :
    (base f n : ℕ) (acc s : Bytes) → digits_onto base f n acc ++ s ≡ digits_onto base f n (acc ++ s)
unfolding digits_onto
digits_onto-append base zero n acc s = refl
digits_onto-append base (suc f) n acc s = elim (Bool-cases (ltb n base)) [
  | inl e ↦ rw e
  | inr e ↦ rw e (digits_onto-append base f (n / base) (digit (n % base) ∷ acc) s)
]

pub after_bytes-append : (p s : Bytes) → after_bytes p (p ++ s) ≡ some s
after_bytes-append [] s = refl
after_bytes-append (c ∷ p) s = rw ((==_iff c c).1 refl) (after_bytes-append p s)

pub cut-append : (p s : Bytes) → cut (length p) (p ++ s) ≡ some (p, s)
cut-append p s =
    let b : ltb (length (p ++ s)) (length p) ≡ false = ground (arith, length-append p s) in
    rw (b, take-append p s, drop-append p s)

hexadecimal_lem : (n : ℕ) → hexadecimal n ≡ digits_onto 16 8 (n % 2 ^ 32) []
unfolding hexadecimal
hexadecimal_lem n = refl

pub decimal_lem : (n : ℕ) → decimal n ≡ digits_onto 10 20 n []
unfolding decimal
decimal_lem n = refl

read_digits-hexadecimal :
    (n : ℕ) (s : Bytes) → n < 2 ^ 32 → read_digits 16 0 (hexadecimal n ++ s) ≡ read_digits 16 n s
read_digits-hexadecimal n s h =
    rw (hexadecimal_lem n, mod-eq_of_lt h, digits_onto-append 16 8 n [] s)
      (read_digits-digits_onto 16 (omega arith) (omega arith) 8 n s (omega arith))

pub read_digits-decimal :
    (n : ℕ) (s : Bytes) → n < 10 ^ 21 → read_digits 10 0 (decimal n ++ s) ≡ read_digits 10 n s
read_digits-decimal n s h =
    rw (decimal_lem n, digits_onto-append 10 20 n [] s)
      (read_digits-digits_onto 10 (omega arith) (omega arith) 20 n s h)

pub read_digits-stop :
    (base n c : ℕ) (s : Bytes) → is_digit base c ≡ false → read_digits base n (c ∷ s) ≡ (n, c ∷ s)
unfolding read_digits
read_digits-stop base n c s h = rw h

format_chunk-append :
    (p s : Bytes) → format_chunk p ++ s ≡ hexadecimal (length p) ++ (crlf ++ (p ++ (crlf ++ s)))
unfolding format_chunk
format_chunk-append p s =
    append_assoc (hexadecimal (length p)) (crlf ++ (p ++ crlf)) s
    ∙ ap (λ t. hexadecimal (length p) ++ (crlf ++ t)) (append_assoc p crlf s)

-- A chunk of 1 to 2 ^ 32 - 1 bytes is read back as it is, and what follows it is left.
pub read_chunk-format_chunk :
    (p s : Bytes)
    → 0 < length p
    → length p < 2 ^ 32
    → read_chunk (format_chunk p ++ s) ≡ some (p, s)
unfolding read_chunk
read_chunk-format_chunk p s h0 h =
    let n = length p in
    let tail = p ++ (crlf ++ s) in
    let positive : (n == 0) ≡ false = ground arith in
    let size : read_digits 16 n (crlf ++ tail) ≡ (n, crlf ++ tail) =
      read_digits-stop 16 n 13 (10 ∷ tail) refl in
    let sized : read_digits 16 0 (format_chunk p ++ s) ≡ (n, crlf ++ tail) =
      rw (format_chunk-append p s) (read_digits-hexadecimal n (crlf ++ tail) h ∙ size) in
    ap read_sized sized ∙ rw (cut-append p (crlf ++ s), positive)
