-- ===== src/Formats/Custom.antt =====
-- src/formats/custom-type.c: replies under a content type that the client or the URI has chosen.
use webdis.Prelude.Int.{decimal_int}
use webdis.Prelude.Text.{Bytes, codes}
use webdis.Reply.{Reply, Elements}
use webdis.Prelude.{
  ℕ, ◌+◌, ◌≡◌, refl, Bool, true, false, not, ◌&&◌, Option, none, some, [], ◌∷◌, ◌++◌, arith, ◌==◌,
  if◌then◌else◌, length, length-append,
}

abbrev pub separator_bytes : Option Bytes → Bytes
separator_bytes none = []
separator_bytes (some s) = s

-- The first loop of `custom_array`; `first` is `i == 0`.
unfoldable pub custom_size : Bytes → Bool → Elements → ℕ
custom_size sep first Elements.end = 0
custom_size sep first (Elements.item (Reply.string s) es) =
    (if not (length sep == 0) && not first then length sep else 0)
    + length s
    + custom_size sep false es
custom_size sep first (Elements.item _ es) = custom_size sep false es

-- The second loop.
unfoldable pub custom_bytes : Bytes → Bool → Elements → Bytes
custom_bytes sep first Elements.end = []
custom_bytes sep first (Elements.item (Reply.string s) es) =
    (if not (length sep == 0) && not first then sep else []) ++ (s ++ custom_bytes sep false es)
custom_bytes sep first (Elements.item _ es) = custom_bytes sep false es

-- What is written, and the size that is computed, allocated and reported.
unfoldable pub custom_array : Option Bytes → Elements → Bytes × ℕ
unfolding custom_size custom_bytes
custom_array separator es = (
  custom_bytes (separator_bytes separator) true es,
  custom_size (separator_bytes separator) true es,
)

-- What a formatter asks for: `format_send_error`, `format_send_reply`, or an own 400.
pub data Answer : Type 0 where
  send_error : ℕ → Bytes → Answer
  send_reply : Bytes → Bytes → Answer
  bad_request : Answer

-- The `switch` under a content type.
unfoldable pub custom_typed : Bytes → Option Bytes → Reply → Answer
unfolding custom_array
custom_typed mime separator Reply.nil = send_error 404 (codes "Not found")
custom_typed mime separator (Reply.string s) = send_reply s mime
custom_typed mime separator (Reply.status s) = send_reply (b'+' ∷ s) mime
custom_typed mime separator (Reply.error s) = send_reply (b'-' ∷ s) mime
custom_typed mime separator (Reply.integer n) = send_reply (decimal_int n) mime
custom_typed mime separator (Reply.array es) = send_reply (custom_array separator es).0 mime
custom_typed mime separator Reply.other = bad_request

unfoldable pub custom_type_reply : Option Bytes → Option Bytes → Option Reply → Answer
unfolding custom_typed
custom_type_reply mime separator none = send_error 503 (codes "Service Unavailable")
custom_type_reply none separator (some r) = bad_request
custom_type_reply (some mime) separator (some r) = custom_typed mime separator r

custom_bytes-size :
    (sep : Bytes) (first : Bool) (es : Elements)
    → length (custom_bytes sep first es) ≡ custom_size sep first es
unfolding custom_bytes custom_size
custom_bytes-size sep first Elements.end = refl
custom_bytes-size sep first (Elements.item (Reply.string s) es) =
    let glue = if not (length sep == 0) && not first then sep else [] in
    ground (
      arith,
      length-append glue (s ++ custom_bytes sep false es),
      length-append s (custom_bytes sep false es),
      custom_bytes-size sep false es,
    )
custom_bytes-size sep first (Elements.item _ es) = custom_bytes-size sep false es

-- The size that `custom_array` computes in its first loop is that of what it writes in its second,
-- for every reply and separator.
pub custom_array-size :
    (separator : Option Bytes) (es : Elements)
    → length (custom_array separator es).0 ≡ (custom_array separator es).1
unfolding custom_array
custom_array-size separator es = custom_bytes-size (separator_bytes separator) true es
