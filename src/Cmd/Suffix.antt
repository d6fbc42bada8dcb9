-- ===== src/Cmd/Suffix.antt =====
-- The extension of a URI, and what `cmd_select_format` of src/cmd.c makes of it.
use webdis.Cmd.{Format, json_reply}
use webdis.Cmd.Extension.{
  ReplyFormat, funs, find_ext, match_format, forced, select_at, cmd_select_format,
}
use webdis.Cmd.Layout.{Front, front_text, named}
use webdis.Cmd.Request.{Argument, path}
use webdis.Prelude.Search.{lacks, drop_past}
use webdis.Prelude.Text.{Bytes, strncmp_eq}
use webdis.Prelude.{
  ℕ, zero, suc, ◌+◌, ◌-◌, ◌≤◌, ◌<◌, ◌≡◌, refl, sym, ap, ◌∙◌, true, false, ◌&&◌, Option, none, some,
  List, [], ◌∷◌, ◌++◌, append-nil, append_assoc, arith, ◌==◌, if◌then◌else◌, length, length-append,
  get_or,
}

-- The extension, and the line of the table for it.
abbrev pub Suffix : Type 0
Suffix = Option (Bytes × ReplyFormat)

abbrev pub suffix_text : Suffix → Bytes
suffix_text none = []
suffix_text (some (s, r)) = b'.' ∷ s

abbrev pub last_text : List Argument → Bytes
last_text [] = []
last_text (a ∷ []) = a.text
last_text (a ∷ b ∷ args) = last_text (b ∷ args)

-- An extension stands in the table; with none, the last argument has no dot.
abbrev pub IsSuffix : Suffix → List Argument → Type 0
IsSuffix none args = lacks b'.' (last_text args) ≡ true
IsSuffix (some (s, r)) args =
    (0 < length s)
    × (lacks b'.' s ≡ true)
    × (lacks b'/' s ≡ true)
    × (match_format s (length s) none funs ≡ some r)

abbrev pub format_of : Suffix → Format
format_of none = json_reply
format_of (some (s, r)) = r.f

abbrev pub content_type : Suffix → Option Bytes
content_type none = none
content_type (some (s, r)) = some r.ct

get_or-append : (s t : Bytes) (k : ℕ) → get_or (s ++ t) (length s + k) 0 ≡ get_or t k 0
get_or-append [] t k = let e : 0 + k ≡ k = omega arith in rw e refl
get_or-append (x ∷ s) t k =
    let e : suc (length s) + k ≡ suc (length s + k) = omega arith in rw e (get_or-append s t k)

abbrev IsPlain : ℕ → Type 0
IsPlain c = ((c == b'/') ≡ false) × ((c == b'.') ≡ false)

get_or-IsPlain :
    (s t : Bytes) (j : ℕ)
    → lacks b'/' s ≡ true
    → lacks b'.' s ≡ true
    → j < length s
    → IsPlain (get_or (s ++ t) j 0)
get_or-IsPlain [] t j h k l = absurd (omega arith)
get_or-IsPlain (x ∷ s) t zero h k l = ground arith
get_or-IsPlain (x ∷ s) t (suc j) h k l =
    get_or-IsPlain s t j (ground arith) (ground arith) (omega arith)

-- The search goes back over bytes that are neither a slash nor a dot.
find_ext-back :
    (uri : Bytes) (p m : ℕ)
    → ((j : ℕ) → j < m → IsPlain (get_or uri (p + suc j) 0))
    → find_ext uri (p + m) ≡ find_ext uri p
unfolding find_ext
find_ext-back uri p zero h = ap (find_ext uri) (omega arith)
find_ext-back uri p (suc m) h =
    let e : p + suc m ≡ suc (p + m) = omega arith in
    let (a, b) = h m (omega arith) in
    let n : (get_or uri (suc (p + m)) 0 == b'/') ≡ false = rw (sym e) a in
    let d : (get_or uri (suc (p + m)) 0 == b'.') ≡ false = rw (sym e) b in
    ap (find_ext uri) e ∙ rw (n, d) (find_ext-back uri p m (λ j l. h j (omega arith)))

find_ext-slash : (uri : Bytes) (i : ℕ) → 0 < i → get_or uri i 0 ≡ b'/' → find_ext uri i ≡ none
unfolding find_ext
find_ext-slash uri zero h e = absurd (omega arith)
find_ext-slash uri (suc i) h e = rw e refl

find_ext-dot : (uri : Bytes) (i : ℕ) → 0 < i → get_or uri i 0 ≡ b'.' → find_ext uri i ≡ some (i + 1)
unfolding find_ext
find_ext-dot uri zero h e = absurd (omega arith)
find_ext-dot uri (suc i) h e = let a : suc i + 1 ≡ suc (i + 1) = omega arith in rw (e, a) refl

-- A URI whose last part, or the extension of it, is `s`, behind a slash or a dot.
module _ (pre : Bytes) (c : ℕ) (s t : Bytes) (p : 0 < length pre) (h : lacks b'/' s ≡ true)
    (k : lacks b'.' s ≡ true) where
  find_ext-at :
      find_ext (pre ++ (c ∷ (s ++ t))) (length pre + length s)
      ≡ find_ext (pre ++ (c ∷ (s ++ t))) (length pre)
  find_ext-at =
      find_ext-back (pre ++ (c ∷ (s ++ t))) (length pre) (length s)
        (λ j l. rw (get_or-append pre (c ∷ (s ++ t)) (suc j)) (get_or-IsPlain s t j h k l))

  find_ext-here : get_or (pre ++ (c ∷ (s ++ t))) (length pre) 0 ≡ c
  find_ext-here =
      let e : length pre ≡ length pre + 0 = omega arith in
      ap (λ i. get_or (pre ++ (c ∷ (s ++ t))) i 0) e ∙ get_or-append pre (c ∷ (s ++ t)) 0

strncmp_eq-prefix :
    (s q t : Bytes) (n : ℕ) → n ≤ length s → strncmp_eq (s ++ q) t n ≡ strncmp_eq s t n
unfolding strncmp_eq
strncmp_eq-prefix s q t zero h = refl
strncmp_eq-prefix [] q t (suc n) h = absurd (omega arith)
strncmp_eq-prefix (x ∷ s) q [] (suc n) h = refl
strncmp_eq-prefix (x ∷ s) q (y ∷ t) (suc n) h = ground (arith, strncmp_eq-prefix s q t n)

match_format-prefix :
    (s q : Bytes) (found : Option ReplyFormat) (rs : List ReplyFormat)
    → match_format (s ++ q) (length s) found rs ≡ match_format s (length s) found rs
unfolding match_format
match_format-prefix s q found [] = refl
match_format-prefix s q found (r ∷ rs) = rw (strncmp_eq-prefix s q r.s (length s) (omega arith)) (
    match_format-prefix s q
      (if (length s == length r.s) && strncmp_eq s r.s (length s) then some r else found) rs)

-- With no extension the reply is JSON, and nothing is cut off.
select-none :
    (type : Option Bytes) (pre s t : Bytes)
    → 0 < length pre
    → lacks b'/' s ≡ true
    → lacks b'.' s ≡ true
    → cmd_select_format type (pre ++ (b'/' ∷ (s ++ t))) (length pre + 1 + length s) ≡ record {
      uri_len = length pre + 1 + length s;
      f_format = forced type json_reply;
      mime = none;
    }
unfolding cmd_select_format
select-none type pre s t p h k =
    let uri = pre ++ (b'/' ∷ (s ++ t)) in
    let i : length pre + 1 + length s - 1 ≡ length pre + length s = omega arith in
    let e : find_ext uri (length pre + length s) ≡ none =
      find_ext-at pre b'/' s t p h k
      ∙ find_ext-slash uri (length pre) p (find_ext-here pre b'/' s t p h k) in
    rw (i, e, select_at) refl

-- An extension of the table is cut off with its dot.
select-some :
    (type : Option Bytes) (pre s t : Bytes) (r : ReplyFormat)
    → 0 < length pre
    → IsSuffix (some (s, r)) []
    → cmd_select_format type (pre ++ (b'.' ∷ (s ++ t))) (length pre + 1 + length s)
      ≡ record { uri_len = length pre; f_format = forced type r.f; mime = some r.ct }
unfolding cmd_select_format
select-some type pre s t r p (n, k, h, m) =
    let uri = pre ++ (b'.' ∷ (s ++ t)) in
    let i : length pre + 1 + length s - 1 ≡ length pre + length s = omega arith in
    let e : find_ext uri (length pre + length s) ≡ some (length pre + 1) =
      find_ext-at pre b'.' s t p h k
      ∙ find_ext-dot uri (length pre) p (find_ext-here pre b'.' s t p h k) in
    let l : length pre + 1 + length s - (length pre + 1) ≡ length s = omega arith in
    let z : (length s == 0) ≡ false = ground arith in
    let q : length pre + 1 + length s - length s - 1 ≡ length pre = omega arith in
    rw (i, e, select_at, l, z, drop_past pre (s ++ t) b'.', match_format-prefix s t none funs, m, q)
      refl

-- The last argument, and what stands before its slash.
before_last : List Argument → Bytes
before_last [] = []
before_last (a ∷ []) = []
before_last (a ∷ b ∷ args) = b'/' ∷ (a.text ++ before_last (b ∷ args))

path-last :
    (a : Argument) (args : List Argument)
    → b'/' ∷ path (a ∷ args) ≡ before_last (a ∷ args) ++ (b'/' ∷ last_text (a ∷ args))
unfolding before_last
path-last a [] = refl
path-last a (b ∷ args) =
    ap (λ t. b'/' ∷ (a.text ++ t)) (path-last b args)
    ∙ ap (◌∷◌ b'/')
        (sym (append_assoc a.text (before_last (b ∷ args)) (b'/' ∷ last_text (b ∷ args))))

last_text-lacks : (a : Argument) (args : List Argument) → lacks b'/' (last_text (a ∷ args)) ≡ true
last_text-lacks a [] = a.no_slash
last_text-lacks a (b ∷ args) = last_text-lacks b args

-- What is chosen for a URI, and the length that is left of it.
pub cmd_select_format_lem :
    (type : Option Bytes) (f : Front) (name : Bytes) (a : Argument) (args : List Argument)
    (x : Suffix) (query : Bytes)
    → 0 < length name
    → IsSuffix x (a ∷ args)
    → cmd_select_format type
        (front_text f ++ (named name (a ∷ args) ++ (suffix_text x ++ query)))
        (length (front_text f ++ (named name (a ∷ args) ++ suffix_text x)))
      ≡ record {
        uri_len = length (front_text f ++ named name (a ∷ args));
        f_format = forced type (format_of x);
        mime = content_type x;
      }
cmd_select_format_lem type f name a args none query n h =
    let last = last_text (a ∷ args) in
    let pre = front_text f ++ (name ++ before_last (a ∷ args)) in
    let text : front_text f ++ named name (a ∷ args) ≡ pre ++ (b'/' ∷ last) =
      rw (path-last a args) (simp (append_assoc)) in
    let uri : front_text f ++ (named name (a ∷ args) ++ query) ≡ pre ++ (b'/' ∷ (last ++ query)) =
      rw (path-last a args) (simp (append_assoc)) in
    let len : length (front_text f ++ named name (a ∷ args)) ≡ length pre + 1 + length last =
      ap length text ∙ omega (arith, length-append pre (b'/' ∷ last)) in
    let p : 0 < length pre = omega (
      arith,
      length-append (front_text f) (name ++ before_last (a ∷ args)),
      length-append name (before_last (a ∷ args)),
    ) in
    rw (uri, append-nil (named name (a ∷ args)), len)
      (select-none type pre last query p (last_text-lacks a args) h)
cmd_select_format_lem type f name a args (some (s, r)) query n h =
    let pre = front_text f ++ named name (a ∷ args) in
    let uri : front_text f ++ (named name (a ∷ args) ++ ((b'.' ∷ s) ++ query))
        ≡ pre ++ (b'.' ∷ (s ++ query)) =
      simp (append_assoc) in
    let len : length (front_text f ++ (named name (a ∷ args) ++ (b'.' ∷ s)))
        ≡ length pre + 1 + length s =
      ap length (sym (append_assoc (front_text f) (named name (a ∷ args)) (b'.' ∷ s)))
      ∙ omega (arith, length-append pre (b'.' ∷ s)) in
    let p : 0 < length pre = omega (
      arith,
      length-append (front_text f) (named name (a ∷ args)),
      length-append name (b'/' ∷ path (a ∷ args)),
    ) in
    rw (uri, len) (select-some type pre s query r p h)
