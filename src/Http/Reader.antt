-- ===== src/Http/Reader.antt =====
-- The other side: what a client does with the bytes of src/http.c, after RFC 7230, sections 3 and 4.
use webdis.Prelude.Text.{Bytes, codes, strcasecmp_eq}
use webdis.Prelude.{
  ◌>>=◌, ℕ, zero, suc, ◌+◌, ◌-◌, ◌*◌, Bool, ◌&&◌, ◌||◌, Option, none, some, List, [], ◌∷◌, ltb, leb,
  ◌==◌, if◌then◌else◌, length, take, drop,
}

abbrev pub digit_value : ℕ → ℕ
digit_value c = if leb c b'9' then c - b'0' else c - 87

abbrev pub is_digit : ℕ → ℕ → Bool
is_digit base c = (leb b'0' c && leb c b'9' || leb b'a' c && leb c b'f') && ltb (digit_value c) base

-- The number that the digits at the front add to `n`, and what follows it.
unfoldable pub read_digits : ℕ → ℕ → Bytes → ℕ × Bytes
read_digits base n [] = (n, [])
read_digits base n (c ∷ s) =
    let rest = read_digits base (n * base + digit_value c) s in
    if is_digit base c then rest else (n, c ∷ s)

-- What follows one given byte.
abbrev pub after_byte : ℕ → Bytes → Option Bytes
after_byte c [] = none
after_byte c (x ∷ s) = if x == c then some s else none

abbrev pub after_bytes : Bytes → Bytes → Option Bytes
after_bytes [] s = some s
after_bytes (c ∷ p) s = do rest ← after_byte c s; after_bytes p rest

-- A line without its CRLF, and what follows it.
unfoldable pub read_line : Bytes → Option (Bytes × Bytes)
read_line [] = none
read_line (x ∷ []) = none
read_line (x ∷ y ∷ s) =
    let rest = read_line (y ∷ s) in
    if x == 13 && y == 10 then some ([], s) else (do (l, t) ← rest; some (x ∷ l, t))

unfoldable pub skip_spaces : Bytes → Bytes
skip_spaces [] = []
skip_spaces (c ∷ s) = let rest = skip_spaces s in if c == b' ' then rest else c ∷ s

-- The name and the value of a field: a colon, and space around the value.
unfoldable pub split_field : Bytes → Option (Bytes × Bytes)
split_field [] = none
split_field (c ∷ s) =
    let rest = split_field s in
    if c == b':' then some ([], skip_spaces s) else (do (k, v) ← rest; some (c ∷ k, v))

-- The fields, up to the empty line. A message has no more lines than bytes.
unfoldable pub read_fields : ℕ → Bytes → Option (List (Bytes × Bytes) × Bytes)
read_fields zero s = none
read_fields (suc f) s = do
  (l, rest) ← read_line s
  let more = read_fields f rest
  if length l == 0
      then some ([], rest)
      else (do field ← split_field l; (fields, last) ← more; some (field ∷ fields, last))

unfoldable pub lookup_field : Bytes → List (Bytes × Bytes) → Option Bytes
lookup_field k [] = none
lookup_field k (f ∷ fs) =
    let rest = lookup_field k fs in if strcasecmp_eq f.0 k then some f.1 else rest

abbrev pub cut : ℕ → Bytes → Option (Bytes × Bytes)
cut n s = if ltb (length s) n then none else some (take n s, drop n s)

pub record Message : Type 0 where
  pub minor : ℕ
  pub status : ℕ
  pub reason : Bytes
  pub fields : List (Bytes × Bytes)
  pub content : Bytes

abbrev pub read_reason : ℕ → ℕ × Bytes → Option (ℕ × ℕ × Bytes)
read_reason minor (status, s) = do reason ← after_byte b' ' s; some (minor, status, reason)

abbrev pub read_code : ℕ × Bytes → Option (ℕ × ℕ × Bytes)
read_code (minor, s) = do code ← after_byte b' ' s; read_reason minor (read_digits 10 0 code)

-- The minor version, the code and the reason of the first line.
unfoldable pub read_status : Bytes → Option (ℕ × ℕ × Bytes)
read_status l = do version ← after_bytes (codes "HTTP/1.") l; read_code (read_digits 10 0 version)

-- A message whose length is its `Content-Length`, and what follows it.
unfoldable pub read_message : Bytes → Option (Message × Bytes)
read_message s = do
  (first, rest) ← read_line s
  (minor, status, reason) ← read_status first
  (fields, body) ← read_fields (length s) rest
  size ← lookup_field (codes "Content-Length") fields
  (content, last) ← cut (read_digits 10 0 size).0 body
  let m : Message = record {
    minor = minor;
    status = status;
    reason = reason;
    fields = fields;
    content = content;
  }
  some (m, last)

abbrev pub read_sized : ℕ × Bytes → Option (Bytes × Bytes)
read_sized (n, s) = do
  chunk ← after_bytes (13 ∷ 10 ∷ []) s
  (p, after_data) ← cut n chunk
  last ← after_bytes (13 ∷ 10 ∷ []) after_data
  if n == 0 then none else some (p, last)

-- A chunk, and what follows it. A chunk of no bytes is the end of the body.
unfoldable pub read_chunk : Bytes → Option (Bytes × Bytes)
read_chunk s = read_sized (read_digits 16 0 s)
