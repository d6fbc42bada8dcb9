-- ===== src/Formats/RawSize.antt =====
-- The buffers of src/formats/raw.c: the size that is computed against what is written.
use webdis.Formats.Common.{
  count_digits, sign_length, integer_length, integer_length-decimal_int, integer_length-overflow,
  length-decimal_ge,
}
use webdis.Formats.Raw.{Output, raw_elements_size, raw_elements, raw_wrap, crlf}
use webdis.Prelude.Digits.{decimal}
use webdis.Prelude.Int.{ℤ, pos, negsuc, decimal_int, magnitude, pos_part, to_int}
use webdis.Prelude.Text.{Bytes}
use webdis.Reply.{Reply, Elements, count_elements}
use webdis.Prelude.{
  ℕ, zero, suc, ◌+◌, ◌-◌, ◌/◌, ◌^◌, ◌≤◌, ◌<◌, ◌≡◌, refl, sym, ◌∷◌, ◌++◌, arith, length,
  length-append, take, length-take,
}

-- The values of one element are in the range of an `int`.
abbrev pub IsSmallItem : Reply → Type 0
IsSmallItem (Reply.string s) = length s < 2 ^ 31
IsSmallItem (Reply.integer n) = magnitude n < 2 ^ 31
IsSmallItem _ = Unit

abbrev pub IsSmallItems : Elements → Type 0
IsSmallItems Elements.end = Unit
IsSmallItems (Elements.item e es) = IsSmallItem e × IsSmallItems es

abbrev pub IsSmall : Reply → Type 0
IsSmall (Reply.array es) = (count_elements es < 2 ^ 31) × IsSmallItems es
IsSmall (Reply.string s) = length s < 2 ^ 31
IsSmall (Reply.integer n) = magnitude n < 2 ^ 31
IsSmall _ = Unit

count_digits-le : (f n sz : ℕ) → count_digits f n sz ≤ f + sz
unfolding count_digits
count_digits-le zero n sz = omega arith
count_digits-le (suc f) n sz = ground (arith, count_digits-le f (n / 10) (sz + 1))

sign_length-le : (i : ℤ) (sz : ℕ) → sign_length i sz ≤ sz + 1
sign_length-le (pos zero) sz = omega arith
sign_length-le (pos (suc n)) sz = omega arith
sign_length-le (negsuc n) sz = omega arith

integer_length-le : (i : ℤ) → integer_length i ≤ 11
unfolding integer_length
integer_length-le i =
    let c = count_digits 10 (pos_part (to_int (pos (magnitude i)))) 0 in
    omega (arith, sign_length-le i c, count_digits-le 10 (pos_part (to_int (pos (magnitude i)))) 0)

length-decimal : (n : ℕ) → n < 2 ^ 31 → length (decimal n) ≡ integer_length (pos n)
length-decimal n h = sym (integer_length-decimal_int (pos n) h)

-- `$`, a length, a line end, a text, a line end, and the rest.
length-bulk :
    (d s r : Bytes)
    → length (b'$' ∷ (d ++ (crlf ++ (s ++ (crlf ++ r)))))
      ≡ 1 + length d + 2 + length s + 2 + length r
length-bulk d s r =
    omega (arith, length-append d (crlf ++ (s ++ (crlf ++ r))), length-append s (crlf ++ r))

raw_elements-size :
    (es : Elements) → IsSmallItems es → length (raw_elements es) ≡ raw_elements_size es
unfolding raw_elements raw_elements_size
raw_elements-size Elements.end h = refl
raw_elements-size (Elements.item (Reply.string s) es) h = omega (
  arith,
  length-bulk (decimal (length s)) s (raw_elements es),
  length-decimal (length s) h.0,
  raw_elements-size es h.1,
)
raw_elements-size (Elements.item (Reply.integer n) es) h = omega (
  arith,
  length-bulk (decimal (integer_length n)) (decimal_int n) (raw_elements es),
  length-decimal (integer_length n) (omega (arith, integer_length-le n)),
  integer_length-decimal_int n h.0,
  raw_elements-size es h.1,
)
raw_elements-size (Elements.item _ es) h = raw_elements-size es h.1

-- The size that is reported is what has been written, inside what has been allocated.
abbrev pub Fits : Output → Type 0
Fits o = (length o.bytes ≡ o.sz) × (o.touched ≤ o.allocated)

-- `raw_wrap` writes exactly the bytes that it reports and stays inside its buffer, the NUL of
-- `sprintf` included, when every length and count of the reply, and the magnitude of every integer,
-- negative or not, is below 2 ^ 31.
pub raw_wrap-Fits : (r : Reply) → IsSmall r → Fits (raw_wrap r)
unfolding raw_wrap
raw_wrap-Fits (Reply.status s) h = omega (arith, length-append s crlf)
raw_wrap-Fits (Reply.error s) h = omega (arith, length-append s crlf)
raw_wrap-Fits (Reply.string s) h =
    let whole : 1
          + integer_length (pos (length s))
          + 2
          + length s
          + 2
          - 2
          - suc (length (decimal (length s) ++ crlf))
        ≡ length s =
      omega (arith, length-decimal (length s) h, length-append (decimal (length s)) crlf) in
    rw whole (
      omega (
        arith,
        length-decimal (length s) h,
        length-append (decimal (length s)) crlf,
        length-append (decimal (length s) ++ crlf) (take (length s) s ++ crlf),
        length-append (take (length s) s) crlf,
        length-take (length s) s,
      ))
raw_wrap-Fits (Reply.integer n) h =
    omega (arith, length-append (decimal_int n) crlf, integer_length-decimal_int n h)
raw_wrap-Fits (Reply.array es) h = omega (
  arith,
  length-append (decimal (count_elements es)) (crlf ++ raw_elements es),
  length-decimal (count_elements es) h.0,
  raw_elements-size es h.1,
)
raw_wrap-Fits Reply.nil h = omega arith
raw_wrap-Fits Reply.other h = omega arith

-- An integer from 2 ^ 31 to 2 ^ 32 - 1 overruns the buffer of `raw_wrap`: seven bytes are
-- allocated, and at least fourteen are written.
pub raw_wrap-overflow :
    (n : ℕ)
    → 2 ^ 31 ≤ n
    → n < 2 ^ 32
    → let o = raw_wrap (Reply.integer (pos n)) in (o.allocated ≡ 7) × (14 ≤ o.touched)
unfolding raw_wrap
raw_wrap-overflow n lo hi =
    omega (
      arith,
      integer_length-overflow n lo hi,
      length-decimal_ge n lo,
      length-append (decimal n) crlf,
    )
