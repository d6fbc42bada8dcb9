-- ===== src/Formats/Msgpack.antt =====
-- src/formats/msgpack.c: a reply as the calls of the MessagePack library that it makes.
use webdis.Cmd.{Cmd, name_of}
use webdis.Prelude.Int.{ℤ, to_int}
use webdis.Prelude.Text.{Bytes, codes, memchr, strncasecmp_eq}
use webdis.Reply.{Reply, Elements, count_elements}
use webdis.Prelude.{
  ℕ, zero, suc, ◌+◌, ◌/◌, ◌%◌, Bool, ◌&&◌, none, some, List, [], ◌∷◌, ◌==◌, if◌then◌else◌, length,
  take, drop,
}

-- A call of `msgpack_pack_*`. The bytes are the library's.
pub data Pack : Type 0 where
  pack_map : ℕ → Pack
  pack_array : ℕ → Pack
  pack_raw : ℕ → Pack
  pack_raw_body : Bytes → Pack
  pack_int : ℤ → Pack
  pack_true pack_false pack_nil : Pack

-- `msgpack_pack_raw` and `msgpack_pack_raw_body` on one string.
abbrev pub raw : Bytes → List Pack → List Pack
raw s rest = pack_raw (length s) ∷ pack_raw_body s ∷ rest

-- The first loop of `msg_info_reply`: how many carriage returns there are from `p` on. The rounds
-- are at most the bytes.
unfoldable pub count_lines : ℕ → Bytes → ℕ
unfolding memchr
count_lines zero p = 0
count_lines (suc f) p = elim (memchr p 13 (length p)) [
  | none ↦ 0
  | some i ↦ suc (count_lines f (drop (i + 1) p))
]

abbrev pub skip_newline : Bytes → Bytes
skip_newline [] = []
skip_newline (c ∷ p) = if c == 10 then p else c ∷ p

-- The second loop, from `p` on.
unfoldable pub info_fields : ℕ → Bytes → List Pack
unfolding memchr
info_fields zero p = []
info_fields (suc f) p = elim (memchr p b':' (length p)) [
  | none ↦ []
  | some colon ↦
      let value = drop (colon + 1) p in
      elim (memchr value 13 (length value)) [
        | none ↦ []
        | some nl ↦
            raw (take colon p)
              (raw (take nl value) (info_fields f (skip_newline (drop (nl + 1) value))))
      ]
]

unfoldable pub msg_info_reply : Bytes → List Pack
unfolding count_lines info_fields
msg_info_reply s = pack_map (count_lines (length s) s) ∷ info_fields (length s) s

-- The loop over the pairs.
unfoldable pub hgetall_pairs : Elements → List Pack
hgetall_pairs (Elements.item (Reply.string k) (Elements.item (Reply.string v) es)) =
    raw k (raw v (hgetall_pairs es))
hgetall_pairs _ = []

unfoldable pub msg_hgetall_reply : Elements → List Pack
unfolding hgetall_pairs
msg_hgetall_reply es =
    if count_elements es % 2 == 0 then pack_map (count_elements es / 2) ∷ hgetall_pairs es else []

-- `msgpack_pack_int` takes an `int`.
abbrev pub pack_element : Reply → List Pack → List Pack
pack_element (Reply.string s) rest = raw s rest
pack_element (Reply.integer n) rest = pack_int (to_int n) ∷ rest
pack_element _ rest = pack_nil ∷ rest

unfoldable pub pack_elements : Elements → List Pack
pack_elements Elements.end = []
pack_elements (Elements.item e es) = pack_element e (pack_elements es)

abbrev pub verb_of : Cmd → Bytes
verb_of cmd = if cmd.count == 0 then [] else name_of cmd.argv

abbrev pub is_verb : Bytes → Bytes → Bool
is_verb verb name = (length verb == length name) && strncasecmp_eq verb name (length name)

-- The switch on the type of the reply.
unfoldable pub pack_reply : Bytes → Reply → List Pack
unfolding msg_info_reply msg_hgetall_reply pack_elements strncasecmp_eq
pack_reply verb (Reply.status s) = pack_array 2 ∷ pack_true ∷ raw s []
pack_reply verb (Reply.error s) = pack_array 2 ∷ pack_false ∷ raw s []
pack_reply verb (Reply.string s) =
    if is_verb verb (codes "INFO") then msg_info_reply s else raw s []
pack_reply verb (Reply.integer n) = pack_int (to_int n) ∷ []
pack_reply verb (Reply.array es) =
    if is_verb verb (codes "HGETALL")
    then msg_hgetall_reply es
    else pack_array (count_elements es) ∷ pack_elements es
pack_reply verb Reply.nil = pack_nil ∷ []
pack_reply verb Reply.other = pack_nil ∷ []

unfoldable pub msgpack_wrap_redis_reply : Cmd → Reply → List Pack
unfolding pack_reply
msgpack_wrap_redis_reply cmd r = pack_map 1 ∷ raw (verb_of cmd) (pack_reply (verb_of cmd) r)
