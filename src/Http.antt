-- ===== src/Http.antt =====
-- src/http.c: responses, from their headers to the bytes that are written to the client. A string
-- is its bytes, so who owns it is not modelled; memory is always found.
pub mod Reader
pub mod Fields
pub mod Status
pub mod Length
pub mod Written
pub mod Chunk
pub mod Delivery
pub mod Order
pub mod Send
use webdis.Prelude.Digits.{decimal, hexadecimal}
use webdis.Prelude.Text.{Bytes, codes, strncmp_eq, strncasecmp_eq, strcmp_eq}
use webdis.Prelude.{
  ℕ, zero, suc, ◌+◌, ◌-◌, ◌*◌, ◌/◌, ◌%◌, ◌^◌, ◌≤◌, ◌<◌, min, ◌≡◌, refl, sym, ap, ◌∙◌, ◌≢◌, ◌↔◌, ◌⊎◌,
  inl, inr, Bool, true, false, not, ◌&&◌, ◌||◌, Option, none, some, List, [], ◌∷◌, ◌++◌, map,
  append-nil, append_assoc, arith, ltb, leb, ◌==◌, if◌then◌else◌, ==_iff, ltb→lt, lt→ltb, leb→le,
  Bool-cases, Option-cases, length, get_elem?, set, length-append, length-set, get_elem?-set_self,
  get_elem?-set_ne, get_or, take, drop, take-append, drop-append, replicate, take-append-drop,
  length-take, length-drop, length-replicate, length-map, All, Any,
}

-- `header_copy`, flag by flag.
pub record HeaderCopy : Type 0 where
  pub copy_key : Bool
  pub copy_value : Bool
  pub check_dupe : Bool

abbrev pub header_copy_none : HeaderCopy
header_copy_none = record { copy_key = false; copy_value = false; check_dupe = false }

abbrev pub header_copy_value : HeaderCopy
header_copy_value = record header_copy_none { copy_value = true }

abbrev pub header_check_dupe : HeaderCopy
header_check_dupe = record header_copy_none { check_dupe = true }

abbrev pub header_copy_value_check_dupe : HeaderCopy
header_copy_value_check_dupe = record header_copy_value { check_dupe = true }

-- A `struct http_header` of a response: both strings are there.
pub record ResponseHeader : Type 0 where
  pub key : Bytes
  pub val : Bytes
  pub copy : HeaderCopy

-- `headers` holds the first `header_count` slots. `has_worker` says that `w` is set.
pub record HttpResponse : Type 0 where
  pub code : ℕ
  pub msg : Bytes
  pub headers : List ResponseHeader
  pub headers_array_size : ℕ
  pub body : Option Bytes
  pub out : Bytes
  pub chunked : Bool
  pub http_version : ℕ
  pub keep_alive : Bool
  pub sent : ℕ
  pub has_worker : Bool

-- The loop over the headers: the first one whose key starts with `k`.
unfoldable pub find_dupe : Bytes → List ResponseHeader → Option ℕ
find_dupe k [] = none
find_dupe k (h ∷ hs) =
    let later = find_dupe k hs in
    if strncmp_eq h.key k (length k)
    then some 0
    else elim later [ none ↦ none | some i ↦ some (suc i) ]

abbrev pub checked : HeaderCopy → Bytes → List ResponseHeader → Option ℕ
checked copy k hs = if copy.check_dupe then find_dupe k hs else none

-- The slot `pos` takes the header; it is the one behind the last, unless a header is replaced.
abbrev pub put_header : Option ℕ → ResponseHeader → List ResponseHeader → List ResponseHeader
put_header none h hs = hs ++ (h ∷ [])
put_header (some i) h hs = set hs i h

abbrev pub pos_of : Option ℕ → List ResponseHeader → ℕ
pos_of none hs = length hs
pos_of (some i) hs = i

unfoldable pub http_response_set_header : HttpResponse → Bytes → Bytes → HeaderCopy → HttpResponse
unfolding find_dupe
http_response_set_header r k v copy =
    let found = checked copy k r.headers in
    let h : ResponseHeader = record { key = k; val = v; copy = copy } in
    record r {
      headers = put_header found h r.headers;
      headers_array_size =
          if pos_of found r.headers == r.headers_array_size
          then r.headers_array_size + 1
          else r.headers_array_size;
      chunked =
          r.chunked || (strcmp_eq k (codes "Transfer-Encoding") && strcmp_eq v (codes "chunked"));
    }

abbrev pub empty_response : Bool → HttpResponse
empty_response has_worker = record {
  code = 0;
  msg = [];
  headers = [];
  headers_array_size = 9;
  body = none;
  out = [];
  chunked = false;
  http_version = 0;
  keep_alive = false;
  sent = 0;
  has_worker = has_worker;
}

abbrev pub header : Bytes → Bytes → HttpResponse → HttpResponse
header k v r = http_response_set_header r k v header_copy_none

unfoldable pub http_response_init : Bool → ℕ → Bytes → HttpResponse
unfolding http_response_set_header
http_response_init has_worker code msg =
    header (codes "Access-Control-Allow-Headers")
      (codes "X-Requested-With, Content-Type, Authorization")
      (header (codes "Access-Control-Allow-Origin") (codes "*") (
        header (codes "Access-Control-Allow-Methods") (codes "GET,POST,PUT,OPTIONS") (
          header (codes "Allow") (codes "GET,POST,PUT,OPTIONS") (
            header (codes "Server") (codes "Webdis")
              (record (empty_response has_worker) { code = code; msg = msg })))))

unfoldable pub http_response_set_body : HttpResponse → Option Bytes → HttpResponse
http_response_set_body r body = record r { body = body }

unfoldable pub http_response_set_keep_alive : HttpResponse → Bool → HttpResponse
unfolding http_response_set_header
http_response_set_keep_alive r enabled =
    http_response_set_header (record r { keep_alive = enabled }) (codes "Connection")
      (if enabled then codes "Keep-Alive" else codes "Close") header_copy_none

abbrev pub crlf : Bytes
crlf = 13 ∷ 10 ∷ []

-- `(int)sz` is printed as an unsigned int.
unfoldable pub format_chunk : Bytes → Bytes
format_chunk p = hexadecimal (length p) ++ (crlf ++ (p ++ crlf))

abbrev pub content_length : ℕ → Option Bytes → Option Bytes
content_length code none = none
content_length code (some body) = if code == 200 then some body else none

-- The `Content-Length` header, for a response that is not chunked.
unfoldable pub set_content_length : HttpResponse → HttpResponse
unfolding http_response_set_header
set_content_length r = if r.chunked then r else elim (content_length r.code r.body) [
  | none ↦ http_response_set_header r (codes "Content-Length") (codes "0") header_check_dupe
  | some body ↦
      http_response_set_header r (codes "Content-Length") (decimal (length body))
        header_copy_value_check_dupe
]

-- The `sprintf` of the first line into a zeroed buffer, of which `out_sz` bytes are kept: room for
-- a code of three digits.
abbrev pub status_line : HttpResponse → Bytes
status_line r = take (15 + length r.msg) (
    codes "HTTP/1."
    ++ (decimal (if r.http_version == 0 then 0 else 1)
        ++ (b' '
            ∷ (decimal r.code ++ (b' ' ∷ (r.msg ++ (crlf ++ replicate (15 + length r.msg) 0)))))))

abbrev pub header_line : ResponseHeader → Bytes
header_line h = h.key ++ (b':' ∷ b' ' ∷ (h.val ++ crlf))

-- The loop over the headers: what it appends, and the flag that it may set.
unfoldable pub header_lines : List ResponseHeader → Bytes
header_lines [] = []
header_lines (h ∷ hs) = header_line h ++ header_lines hs

unfoldable pub keeps_alive : Bool → List ResponseHeader → Bool
keeps_alive k [] = k
keeps_alive k (h ∷ hs) =
    keeps_alive
      (k
        || (strncasecmp_eq (codes "Connection") h.key (length h.key)
            && strncasecmp_eq (codes "Keep-Alive") h.val (length h.val)))
      hs

unfoldable pub body_bytes : Bool → Option Bytes → Bytes
unfolding format_chunk
body_bytes chunked none = []
body_bytes chunked (some []) = []
body_bytes chunked (some (b ∷ p)) = if chunked then format_chunk (b ∷ p) else b ∷ p

-- The buffer that is sent.
unfoldable pub format_response : HttpResponse → HttpResponse
unfolding set_content_length header_lines keeps_alive body_bytes
format_response r =
    let r' = set_content_length r in
    record r' {
      out = status_line r ++ (header_lines r'.headers ++ (crlf ++ body_bytes r'.chunked r'.body));
      keep_alive = keeps_alive r'.keep_alive r'.headers;
      sent = 0;
    }

-- A response on its way to a descriptor.
pub record Sending : Type 0 where
  pub fd : ℕ
  pub response : HttpResponse

-- With `http_schedule_write`. A descriptor of -1 gets nothing.
unfoldable pub http_response_write : HttpResponse → Option ℕ → List Sending
unfolding format_response
http_response_write r none = []
http_response_write r (some fd) = record { fd = fd; response = format_response r } ∷ []

unfoldable pub http_response_write_chunk : Option ℕ → Bytes → List Sending
unfolding format_chunk
http_response_write_chunk fd p = elim fd [
  | none ↦ []
  | some fd ↦
      record {
        fd = fd;
        response = record (http_response_init true 0 []) {
          out = format_chunk p;
          keep_alive = true;
        };
      }
      ∷ []
]

-- A response whose bytes are there already, as a WebSocket frame's are.
unfoldable pub http_response_init_with_buffer : Bool → Bytes → Bool → HttpResponse
http_response_init_with_buffer has_worker out keep_alive = record (empty_response has_worker) {
  out = out;
  keep_alive = keep_alive;
}
