-- ===== src/Http/Fields.antt =====
-- The header lines of src/http.c, as a client reads them.
use webdis.Http.{ResponseHeader, header_lines, header_line, crlf}
use webdis.Http.Reader.{read_line, skip_spaces, split_field, read_fields}
use webdis.Prelude.Search.{lacks}
use webdis.Prelude.Text.{Bytes}
use webdis.Prelude.{
  ℕ, zero, suc, ◌≤◌, ◌<◌, ◌≡◌, refl, sym, ap, ◌∙◌, Bool, true, false, not, ◌&&◌, some, List, [],
  ◌∷◌, ◌++◌, map, append_assoc, arith, ◌==◌, length, length-append,
}

pub read_line-append :
    (l s : Bytes) → lacks 13 l ≡ true → read_line (l ++ (13 ∷ 10 ∷ s)) ≡ some (l, s)
unfolding read_line
read_line-append [] s h = refl
read_line-append (x ∷ []) s h = let b : (x == 13) ≡ false = ground arith in rw b
read_line-append (x ∷ y ∷ l) s h =
    let b : (x == 13) ≡ false = ground arith in
    let rest = read_line-append (y ∷ l) s (ground arith) in rw (b, rest)

-- A value that begins with no space.
abbrev pub starts_plain : Bytes → Bool
starts_plain [] = true
starts_plain (c ∷ s) = not (c == b' ')

skip_spaces-plain : (s : Bytes) → starts_plain s ≡ true → skip_spaces s ≡ s
unfolding skip_spaces
skip_spaces-plain [] h = refl
skip_spaces-plain (c ∷ s) h = ground arith

split_field-append :
    (k v : Bytes)
    → lacks b':' k ≡ true
    → starts_plain v ≡ true
    → split_field (k ++ (b':' ∷ b' ' ∷ v)) ≡ some (k, v)
unfolding split_field skip_spaces
split_field-append [] v hk hv = ap (λ x. some ([], x)) (skip_spaces-plain v hv)
split_field-append (c ∷ k) v hk hv =
    let b : (c == b':') ≡ false = ground arith in rw (b, split_field-append k v (ground arith) hv)

-- A header that is one field: a name, without a colon, and a value on one line.
abbrev pub is_field : ResponseHeader → Bool
is_field h = lacks 13 h.key && lacks b':' h.key && lacks 13 h.val && starts_plain h.val

abbrev pub are_fields : List ResponseHeader → Bool
are_fields [] = true
are_fields (h ∷ hs) = is_field h && are_fields hs

abbrev pub field : ResponseHeader → Bytes × Bytes
field h = (h.key, h.val)

pub lacks-append :
    (c : ℕ) (a b : Bytes) → lacks c a ≡ true → lacks c b ≡ true → lacks c (a ++ b) ≡ true
lacks-append c [] b ha hb = hb
lacks-append c (x ∷ a) b ha hb = let rest = lacks-append c a b (ground arith) hb in ground arith

abbrev line_of : ResponseHeader → Bytes
line_of h = h.key ++ (b':' ∷ b' ' ∷ h.val)

read_line-header_line :
    (h : ResponseHeader) (s : Bytes)
    → is_field h ≡ true
    → read_line (header_line h ++ s) ≡ some (line_of h, s)
read_line-header_line h s e =
    let same : header_line h ++ s ≡ line_of h ++ (13 ∷ 10 ∷ s) =
      append_assoc h.key (b':' ∷ b' ' ∷ (h.val ++ crlf)) s
      ∙ ap (λ t. h.key ++ (b':' ∷ b' ' ∷ t)) (append_assoc h.val crlf s)
      ∙ sym (append_assoc h.key (b':' ∷ b' ' ∷ h.val) (13 ∷ 10 ∷ s)) in
    let one_line : lacks 13 (line_of h) ≡ true =
      lacks-append 13 h.key (b':' ∷ b' ' ∷ h.val) (ground arith) (ground arith) in
    ap read_line same ∙ read_line-append (line_of h) s one_line

length-line_of : (h : ResponseHeader) → 0 < length (line_of h)
length-line_of h = omega (arith, length-append h.key (b':' ∷ b' ' ∷ h.val))

pub read_fields-header_lines :
    (f : ℕ) (hs : List ResponseHeader) (s : Bytes)
    → length hs < f
    → are_fields hs ≡ true
    → read_fields f (header_lines hs ++ (13 ∷ 10 ∷ s)) ≡ some (map field hs, s)
unfolding read_fields header_lines
read_fields-header_lines zero hs s hf e = absurd (omega arith)
read_fields-header_lines (suc f) [] s hf e =
    let empty : read_line (13 ∷ 10 ∷ s) ≡ some ([], s) = read_line-append [] s refl in rw empty
read_fields-header_lines (suc f) (h ∷ hs) s hf e =
    let rest = read_fields-header_lines f hs s (omega arith) (ground arith) in
    let tail = header_lines hs ++ (13 ∷ 10 ∷ s) in
    let long : (length (line_of h) == 0) ≡ false = ground (arith, length-line_of h) in
    rw (
      append_assoc (header_line h) (header_lines hs) (13 ∷ 10 ∷ s),
      read_line-header_line h tail (ground arith),
      long,
      split_field-append h.key h.val (ground arith) (ground arith),
      rest,
    )

pub length-header_lines : (hs : List ResponseHeader) → length hs ≤ length (header_lines hs)
unfolding header_lines
length-header_lines [] = omega arith
length-header_lines (h ∷ hs) = omega (
  arith,
  length-append (header_line h) (header_lines hs),
  length-header_lines hs,
  length-append h.key (b':' ∷ b' ' ∷ (h.val ++ crlf)),
)
