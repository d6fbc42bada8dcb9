-- ===== src/Formats/Json.antt =====
-- src/formats/json.c: the replies as trees of jansson's, and their text. jansson is a parameter. A
-- string of a reply is handed to it as a C string, so that it ends at its first NUL.
use webdis.Cmd.{Cmd, name_of}
use webdis.Prelude.Int.{ℤ}
use webdis.Prelude.Text.{Bytes, codes, memchr}
use webdis.Reply.{Reply, Elements, count_elements}
use webdis.Prelude.{
  ℕ, zero, suc, ◌+◌, ◌%◌, ◌&&◌, Option, none, some, [], ◌∷◌, leb, ◌==◌, if◌then◌else◌, length, take,
  drop,
}

-- The calls of jansson's, on its values `J`. `json_string` answers NULL for what is not UTF-8;
-- `json_object_set_new` and `json_array_append_new` are given such an answer too.
pub record Jansson (J : Type 0) : Type 0 where
  pub json_object : J
  pub json_array : J
  pub json_true : J
  pub json_false : J
  pub json_null : J
  pub json_integer : ℤ → J
  pub json_string : Bytes → Option J
  pub json_object_set_new : J → Bytes → Option J → J
  pub json_array_append_new : J → Option J → J
  pub json_dumps : J → Bytes

-- The bytes in front of the first NUL.
unfoldable pub c_string : Bytes → Bytes
c_string [] = []
c_string (c ∷ s) = let rest = c_string s in if c == 0 then [] else c ∷ rest

-- `str`, which is NULL for the types that have none.
abbrev pub str_of : Reply → Option Bytes
str_of (Reply.status s) = some s
str_of (Reply.error s) = some s
str_of (Reply.string s) = some s
str_of _ = none

unfoldable pub verb_of : Cmd → Bytes
unfolding c_string
verb_of cmd = if cmd.count == 0 then [] else c_string (name_of cmd.argv)

abbrev pub skip_newline : Bytes → Bytes
skip_newline [] = []
skip_newline (c ∷ p) = if c == 10 then p else c ∷ p

module _ {J : Type 0} (jansson : Jansson J) where
  open jansson use {
    json_object, json_array, json_true, json_false, json_null, json_integer, json_string,
    json_object_set_new, json_array_append_new, json_dumps,
  }

  unfoldable pub string_new : Bytes → Option J
  unfolding c_string
  string_new s = json_string (c_string s)

  unfoldable pub object_set : J → Bytes → Option J → J
  unfolding c_string
  object_set o k v = json_object_set_new o (c_string k) v

  -- The loop of `json_info_reply`, from `p` on; the rounds are at most the bytes.
  unfoldable pub info_members : ℕ → J → Bytes → J
  unfolding memchr string_new object_set
  info_members zero o p = o
  info_members (suc f) o p = elim (memchr p b':' (length p)) [
    | none ↦ o
    | some colon ↦
        let value = drop (colon + 1) p in
        elim (memchr value 13 (length value)) [
          | none ↦ o
          | some nl ↦
              info_members f (object_set o (take colon p) (string_new (take nl value)))
                (skip_newline (drop (nl + 1) value))
        ]
  ]

  unfoldable pub json_info_reply : Bytes → J
  unfolding info_members c_string
  json_info_reply s = let text = c_string s in info_members (length text) json_object text

  -- The loop of `json_expand_array`, on the array so far.
  unfoldable pub expand_onto : J → Elements → J
  unfolding string_new
  expand_onto l Elements.end = l
  expand_onto l (Elements.item (Reply.status s) es) =
      expand_onto (json_array_append_new l (string_new s)) es
  expand_onto l (Elements.item (Reply.string s) es) =
      expand_onto (json_array_append_new l (string_new s)) es
  expand_onto l (Elements.item (Reply.integer n) es) =
      expand_onto (json_array_append_new l (some (json_integer n))) es
  expand_onto l (Elements.item (Reply.array sub) es) =
      expand_onto (json_array_append_new l (some (expand_onto json_array sub))) es
  expand_onto l (Elements.item _ es) = expand_onto (json_array_append_new l (some json_null)) es

  unfoldable pub json_expand_array : Elements → J
  unfolding expand_onto
  json_expand_array es = expand_onto json_array es

  -- The switch on the type of a value: `none` where the whole object is given up.
  unfoldable pub pair_value : Reply → Option (Option J)
  unfolding string_new json_expand_array
  pair_value Reply.nil = some (some json_null)
  pair_value (Reply.string s) = some (string_new s)
  pair_value (Reply.integer n) = some (some (json_integer n))
  pair_value (Reply.array es) = some (some (json_expand_array es))
  pair_value _ = none

  -- The loop of `json_array_to_keyvalue_reply`, on the object so far.
  unfoldable pub keyvalue_onto : J → Elements → Option J
  unfolding pair_value object_set
  keyvalue_onto o Elements.end = some o
  keyvalue_onto o (Elements.item (Reply.string k) (Elements.item v es)) = elim (pair_value v) [
    | none ↦ none
    | some j ↦ keyvalue_onto (object_set o k j) es
  ]
  keyvalue_onto o _ = none

  unfoldable pub json_array_to_keyvalue_reply : Elements → Option J
  unfolding keyvalue_onto
  json_array_to_keyvalue_reply es =
      if count_elements es % 2 == 0 then keyvalue_onto json_object es else none

  abbrev pub or_null : Option J → Option J
  or_null none = some json_null
  or_null (some j) = some j

  -- One entry of a stream: `none` where it is passed over.
  unfoldable pub stream_entry : Reply → Option J
  unfolding json_array_to_keyvalue_reply string_new
  stream_entry
        (Reply.array (Elements.item (Reply.string id) (Elements.item (Reply.array msg) es))) =
      if leb 1 (length id) && leb 2 (count_elements msg)
      then some (
          json_object_set_new (json_object_set_new json_object (codes "id") (string_new id))
            (codes "msg") (or_null (json_array_to_keyvalue_reply msg)))
      else none
  stream_entry _ = none

  abbrev pub append_some : J → Option J → J
  append_some l none = l
  append_some l (some j) = json_array_append_new l (some j)

  unfoldable pub stream_onto : J → Elements → J
  unfolding stream_entry
  stream_onto l Elements.end = l
  stream_onto l (Elements.item e es) = stream_onto (append_some l (stream_entry e)) es

  unfoldable pub json_singlestream_list : Elements → J
  unfolding stream_onto
  json_singlestream_list es = stream_onto json_array es
