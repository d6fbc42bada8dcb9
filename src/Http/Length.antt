-- ===== src/Http/Length.antt =====
-- The length that src/http.c adds to a response.
use webdis.Http.{
  HttpResponse, ResponseHeader, find_dupe, body_bytes, set_content_length, http_response_set_header,
  HeaderCopy, header_copy_value_check_dupe, header_check_dupe, content_length,
}
use webdis.Http.Fields.{is_field, are_fields, field}
use webdis.Http.Reader.{lookup_field, Message}
use webdis.Http.Status.{minor_of}
use webdis.Prelude.Digits.{decimal}
use webdis.Prelude.Search.{lacks}
use webdis.Prelude.Text.{Bytes, codes, strcasecmp_eq, strcmp_eq}
use webdis.Prelude.{
  ℕ, ◌^◌, ◌≤◌, ◌<◌, ◌≡◌, refl, sym, ap, ◌∙◌, ◌⊎◌, inl, inr, true, false, Option, none, some, List,
  [], ◌∷◌, ◌++◌, map, arith, Bool-cases, Option-cases, length,
}

abbrev pub content_of : Option Bytes → Bytes
content_of none = []
content_of (some b) = b

abbrev pub content_length_name : Bytes
content_length_name = codes "Content-Length"

-- A response that a client can read: one line for each part, a length of its own, and a body only
-- where the length is announced.
pub record IsPlain (r : HttpResponse) : Type 0 where
  pub code_ge : 100 ≤ r.code
  pub code_lt : r.code < 1000
  pub one_line : lacks 13 r.msg ≡ true
  pub fields : are_fields r.headers ≡ true
  pub whole : r.chunked ≡ false
  pub no_length : find_dupe content_length_name r.headers ≡ none
  pub no_length_field : lookup_field content_length_name (map field r.headers) ≡ none
  pub announced : (r.code ≡ 200) ⊎ (content_of r.body ≡ [])
  pub size : length (content_of r.body) < 10 ^ 21

abbrev pub fields_of : HttpResponse → List (Bytes × Bytes)
fields_of r =
    map field r.headers ++ ((content_length_name, decimal (length (content_of r.body))) ∷ [])

abbrev pub message_of : HttpResponse → Message
message_of r = record {
  minor = minor_of r;
  status = r.code;
  reason = r.msg;
  fields = fields_of r;
  content = content_of r.body;
}

pub body_bytes-content_of : (b : Option Bytes) → body_bytes false b ≡ content_of b
unfolding body_bytes
body_bytes-content_of none = refl
body_bytes-content_of (some []) = refl
body_bytes-content_of (some (x ∷ b)) = refl

pub are_fields-append :
    (hs : List ResponseHeader) (h : ResponseHeader)
    → are_fields hs ≡ true
    → is_field h ≡ true
    → are_fields (hs ++ (h ∷ [])) ≡ true
are_fields-append [] h e eh = rw eh
are_fields-append (g ∷ hs) h e eh =
    let rest = are_fields-append hs h (ground arith) eh in ground arith

pub map-append_field :
    (hs : List ResponseHeader) (h : ResponseHeader)
    → map field (hs ++ (h ∷ [])) ≡ map field hs ++ (field h ∷ [])
map-append_field [] h = refl
map-append_field (g ∷ hs) h = ap (◌∷◌ (field g)) (map-append_field hs h)

pub lookup_field-append :
    (k v : Bytes) (fs : List (Bytes × Bytes))
    → lookup_field k fs ≡ none
    → strcasecmp_eq k k ≡ true
    → lookup_field k (fs ++ ((k, v) ∷ [])) ≡ some v
unfolding lookup_field
lookup_field-append k v [] h e = rw e
lookup_field-append k v (f ∷ fs) h e = elim (Bool-cases (strcasecmp_eq f.0 k)) [
  | inl b ↦ ground arith
  | inr b ↦ rw b (lookup_field-append k v fs (ground arith) e)
]

-- The header that is added to `r` in `r'`.
abbrev pub IsAdded : HttpResponse → HttpResponse → Type 0
IsAdded r r' =
    (h : ResponseHeader) × (r'.headers ≡ r.headers ++ (h ∷ []))
    × (r'.chunked ≡ false)
    × (r'.body ≡ r.body)
    × (field h ≡ (content_length_name, decimal (length (content_of r.body))))

set_header-IsAdded :
    (r : HttpResponse) (v : Bytes) (copy : HeaderCopy)
    → IsPlain r
    → copy.check_dupe ≡ true
    → v ≡ decimal (length (content_of r.body))
    → IsAdded r (http_response_set_header r content_length_name v copy)
unfolding http_response_set_header strcmp_eq
set_header-IsAdded r v copy p d e =
    let h : ResponseHeader = record { key = content_length_name; val = v; copy = copy } in
    (h, rw (d, p.no_length), rw (p.whole), refl, ap (λ k. (content_length_name, k)) e)

decimal-zero : codes "0" ≡ decimal 0
unfolding decimal
decimal-zero = refl

content_length-none :
    (code : ℕ) (b : Option Bytes)
    → (code ≡ 200) ⊎ (content_of b ≡ [])
    → content_length code b ≡ none
    → content_of b ≡ []
content_length-none code none a e = refl
content_length-none code (some b) (inl a) e = ground arith
content_length-none code (some b) (inr a) e = a

content_length-some :
    (code : ℕ) (b : Option Bytes) {c : Bytes} → content_length code b ≡ some c → c ≡ content_of b
content_length-some code none e = ground arith
content_length-some code (some b) e = ground arith

pub set_content_length-IsAdded : (r : HttpResponse) → IsPlain r → IsAdded r (set_content_length r)
unfolding set_content_length
set_content_length-IsAdded r p = elim (Option-cases (content_length r.code r.body)) [
  | inl e ↦
      rw (p.whole, e)
        (set_header-IsAdded r (codes "0") header_check_dupe p refl (
          decimal-zero
          ∙ ap (λ b. decimal (length b)) (sym (content_length-none r.code r.body p.announced e))))
  | inr (b, e) ↦
      rw (p.whole, e)
        (set_header-IsAdded r (decimal (length b)) header_copy_value_check_dupe p refl
          (ap (λ b. decimal (length b)) (content_length-some r.code r.body e)))
]
