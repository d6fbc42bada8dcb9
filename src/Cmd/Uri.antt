-- ===== src/Cmd/Uri.antt =====
-- `decode_uri` of src/cmd.c.
use webdis.Prelude.Digits.{digit}
use webdis.Prelude.Text.{Bytes}
use webdis.Prelude.{
  ℕ, zero, suc, ◌+◌, ◌-◌, ◌*◌, ◌/◌, ◌%◌, ◌≤◌, ◌<◌, ◌≡◌, refl, ◌≢◌, ◌⊎◌, inl, inr, Bool, true, ◌&&◌,
  ◌||◌, [], ◌∷◌, ◌++◌, arith, ltb, leb, ◌==◌, if◌then◌else◌, length, get_or,
}

-- `isxdigit`.
unfoldable pub is_xdigit : ℕ → Bool
is_xdigit c = (leb b'0' c && leb c b'9') || (leb b'a' c && leb c b'f') || (leb b'A' c && leb c b'F')

-- `strtol` at one hexadecimal digit.
unfoldable pub hex_value : ℕ → ℕ
hex_value c = if leb c b'9' then c - b'0' else if leb c b'F' then c - b'A' + 10 else c - b'a' + 10

-- `uri[i]`: the byte, or the NUL behind the last.
abbrev pub at : Bytes → ℕ → ℕ
at s i = get_or s i 0

-- The loop, from `uri + i` on, with `length - i` bytes to go. The two bytes behind a `%` are read
-- whether or not the length covers them; `skip` counts the rounds that `i += 2` leaves out.
unfoldable pub decode_from : Bytes → ℕ → Bool → ℕ → Bytes
unfolding is_xdigit hex_value
decode_from uri zero in_query skip = []
decode_from [] (suc n) in_query skip = []
decode_from (c ∷ uri) (suc n) in_query (suc skip) = decode_from uri n in_query skip
decode_from (c ∷ uri) (suc n) in_query zero =
    let escaped = c == b'%' && is_xdigit (at uri 0) && is_xdigit (at uri 1) in
    (if c == b'?'
      then c
      else if c == b'+' && in_query
      then b' '
      else if escaped
      then hex_value (at uri 0) * 16 + hex_value (at uri 1)
      else c)
    ∷ decode_from uri n (in_query || c == b'?') (if escaped then 2 else 0)

unfoldable pub decode_uri : Bytes → ℕ → Bool → Bytes
unfolding decode_from
decode_uri uri length always_decode_plus = decode_from uri length always_decode_plus 0

abbrev pub upper_digit : ℕ → ℕ
upper_digit d = if ltb d 10 then b'0' + d else b'A' + (d - 10)

-- `c` is a hexadecimal digit for `v`, in either case.
abbrev pub IsDigit : ℕ → ℕ → Type 0
IsDigit v c = (c ≡ digit v) ⊎ (c ≡ upper_digit v)

-- `t` is a percent-encoded form of the bytes `s`: each byte stands for itself, is a `+` for a
-- space, or is written as `%` and two digits.
pub data Encodes : Bytes → Bytes → Type 0 where
  done : Encodes [] []
  plain : {t s : Bytes} (c : ℕ) → c ≢ b'%' → c ≢ b'+' → Encodes t s → Encodes (c ∷ t) (c ∷ s)
  plus : {t s : Bytes} → Encodes t s → Encodes (b'+' ∷ t) (b' ' ∷ s)
  escape :
      {t s : Bytes} (x h l : ℕ)
      → x < 256
      → IsDigit (x / 16) h
      → IsDigit (x % 16) l
      → Encodes t s
      → Encodes (b'%' ∷ h ∷ l ∷ t) (x ∷ s)

digit_lem : (v c : ℕ) → v < 16 → IsDigit v c → (is_xdigit c ≡ true) × (hex_value c ≡ v)
unfolding is_xdigit hex_value
digit_lem v c h (inl e) = ground arith
digit_lem v c h (inr e) = ground arith

decode_from-Encodes :
    {t s : Bytes} (tail : Bytes) → Encodes t s → decode_from (t ++ tail) (length t) true 0 ≡ s
unfolding decode_from
decode_from-Encodes tail done = refl
decode_from-Encodes tail (plain c p q e) = ground (arith, decode_from-Encodes tail e)
decode_from-Encodes tail (plus e) = ground (arith, decode_from-Encodes tail e)
decode_from-Encodes tail (escape x h l b dh dl e) = ground (
  arith,
  digit_lem (x / 16) h (omega arith) dh,
  digit_lem (x % 16) l (omega arith) dl,
  decode_from-Encodes tail e,
)

-- `decode_uri` gives back the bytes of every percent-encoded argument, whatever stands behind the
-- argument in the URI.
pub decode_uri-Encodes :
    {t s : Bytes} (tail : Bytes) → Encodes t s → decode_uri (t ++ tail) (length t) true ≡ s
unfolding decode_uri
decode_uri-Encodes tail e = decode_from-Encodes tail e

-- What `decode_uri` writes fits the `length` bytes that it allocates.
pub length-decode_from :
    (uri : Bytes) (n : ℕ) (q : Bool) (skip : ℕ) → length (decode_from uri n q skip) ≤ n
unfolding decode_from
length-decode_from uri zero q skip = omega arith
length-decode_from [] (suc n) q skip = omega arith
length-decode_from (c ∷ uri) (suc n) q (suc skip) = omega (arith, length-decode_from uri n q skip)
length-decode_from (c ∷ uri) (suc n) q zero = omega (
  arith,
  length-decode_from uri n (q || c == b'?')
      (if c == b'%' && is_xdigit (at uri 0) && is_xdigit (at uri 1) then 2 else 0),
)
