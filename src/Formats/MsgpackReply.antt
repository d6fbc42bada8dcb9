-- ===== src/Formats/MsgpackReply.antt =====
-- The calls of src/formats/msgpack.c against the value that a reply stands for.
use webdis.Cmd.{Cmd}
use webdis.Formats.Msgpack.{
  Pack, raw, hgetall_pairs, msg_hgetall_reply, pack_elements, verb_of, is_verb, pack_reply,
  msgpack_wrap_redis_reply,
}
use webdis.Formats.MsgpackValue.{
  Value, Values, count_values, size_values, read_values, pack_values, ArePaired,
  read_values-pack_values,
}
use webdis.Prelude.Int.{to_int}
use webdis.Prelude.Text.{Bytes, codes, strncasecmp_eq}
use webdis.Reply.{Reply, Elements, count_elements}
use webdis.Prelude.{
  ℕ, ◌%◌, ◌≤◌, ◌≡◌, refl, ap, ◌∙◌, ◌⊎◌, inl, inr, true, false, some, [], ◌∷◌, arith, ◌==◌,
  if◌then◌else◌,
}

-- The value that a reply stands for: the fields of HGETALL are an object. What is no string and no
-- integer stands for nil.
abbrev pub one : Value → Values
one v = Values.item v Values.end

abbrev pub element_of : Reply → Value
element_of (Reply.string s) = Value.bytes s
element_of (Reply.integer n) = Value.int n
element_of _ = Value.null

unfoldable pub elements_of : Elements → Values
elements_of Elements.end = Values.end
elements_of (Elements.item e es) = Values.item (element_of e) (elements_of es)

unfoldable pub payload_of : Bytes → Reply → Value
unfolding elements_of strncasecmp_eq
payload_of verb (Reply.status s) = Value.array (Values.item (Value.bool true) (one (Value.bytes s)))
payload_of verb (Reply.error s) = Value.array (Values.item (Value.bool false) (one (Value.bytes s)))
payload_of verb (Reply.string s) = Value.bytes s
payload_of verb (Reply.integer n) = Value.int n
payload_of verb (Reply.array es) =
    if is_verb verb (codes "HGETALL")
    then Value.object (elements_of es)
    else Value.array (elements_of es)
payload_of verb Reply.nil = Value.null
payload_of verb Reply.other = Value.null

unfoldable pub value_of : Cmd → Reply → Value
unfolding payload_of
value_of cmd r =
    Value.object (Values.item (Value.bytes (verb_of cmd)) (one (payload_of (verb_of cmd) r)))

-- An element that is packed whole: a string, an integer in the range of an `int`, or nil. An array, a
-- status or an error inside an array is packed as nil.
abbrev pub IsWhole : Reply → Type 0
IsWhole (Reply.string s) = Unit
IsWhole (Reply.integer n) = to_int n ≡ n
IsWhole Reply.nil = Unit
IsWhole _ = ⊥

abbrev pub AreWhole : Elements → Type 0
AreWhole Elements.end = Unit
AreWhole (Elements.item e es) = IsWhole e × AreWhole es

-- Keys and values that are strings, one for each other.
abbrev pub IsHash : Elements → Type 0
IsHash Elements.end = Unit
IsHash (Elements.item (Reply.string k) (Elements.item (Reply.string v) es)) = IsHash es
IsHash _ = ⊥

-- What msgpack.c packs whole: not INFO, HGETALL with a hash, and an array of whole elements.
abbrev pub IsPackable : Bytes → Reply → Type 0
IsPackable verb (Reply.string s) = is_verb verb (codes "INFO") ≡ false
IsPackable verb (Reply.integer n) = to_int n ≡ n
IsPackable verb (Reply.array es) =
    ((is_verb verb (codes "HGETALL") ≡ true) × IsHash es)
    ⊎ ((is_verb verb (codes "HGETALL") ≡ false) × AreWhole es)
IsPackable verb Reply.other = ⊥
IsPackable verb _ = Unit

pack_elements-elements_of :
    (es : Elements)
    → AreWhole es
    → (pack_elements es ≡ pack_values (elements_of es) [])
      × (count_values (elements_of es) ≡ count_elements es)
      × ArePaired (elements_of es)
unfolding pack_elements pack_values elements_of
pack_elements-elements_of Elements.end h = (refl, refl, tt)
pack_elements-elements_of (Elements.item (Reply.string s) es) (_, h) =
    let (same, count, paired) = pack_elements-elements_of es h in (rw same, omega arith, paired)
pack_elements-elements_of (Elements.item (Reply.integer n) es) (fits, h) =
    let (same, count, paired) = pack_elements-elements_of es h in
    (rw (fits, same), omega arith, paired)
pack_elements-elements_of (Elements.item Reply.nil es) (_, h) =
    let (same, count, paired) = pack_elements-elements_of es h in (rw same, omega arith, paired)
pack_elements-elements_of (Elements.item _ es) (lost, h) = absurd lost

hgetall_pairs-elements_of :
    (es : Elements)
    → IsHash es
    → (hgetall_pairs es ≡ pack_values (elements_of es) [])
      × (count_values (elements_of es) ≡ count_elements es)
      × (count_elements es % 2 ≡ 0)
      × ArePaired (elements_of es)
unfolding hgetall_pairs pack_values elements_of
hgetall_pairs-elements_of Elements.end h = (refl, refl, omega arith, tt)
hgetall_pairs-elements_of (Elements.item (Reply.string k) (Elements.item (Reply.string v) es)) h =
    let (same, count, even, paired) = hgetall_pairs-elements_of es h in
    (rw same, omega arith, omega arith, paired)
hgetall_pairs-elements_of _ h = absurd h

module _ (verb : Bytes) where
  pack_reply-payload_of :
      (r : Reply)
      → IsPackable verb r
      → (pack_reply verb r ≡ pack_values (one (payload_of verb r)) [])
        × ArePaired (one (payload_of verb r))
  unfolding pack_reply pack_values payload_of msg_hgetall_reply
  pack_reply-payload_of (Reply.status s) h = (refl, (tt, tt))
  pack_reply-payload_of (Reply.error s) h = (refl, (tt, tt))
  pack_reply-payload_of (Reply.string s) h = (rw h, tt)
  pack_reply-payload_of (Reply.integer n) h = (rw h, tt)
  pack_reply-payload_of (Reply.array es) (inl (is, h)) =
      let (same, count, even, paired) = hgetall_pairs-elements_of es h in
      let t : (count_elements es % 2 == 0) ≡ true = ground (arith, even) in
      rw (is, t, same, count) (refl, (even, paired, tt))
  pack_reply-payload_of (Reply.array es) (inr (is, h)) =
      let (same, count, paired) = pack_elements-elements_of es h in
      rw (is, same, count) (refl, (paired, tt))
  pack_reply-payload_of Reply.nil h = (refl, tt)
  pack_reply-payload_of Reply.other h = absurd h

-- A reply that is packed whole (its integers fit an `int`, a string is not of INFO, what HGETALL gives
-- is keys and values that are strings, and another array has strings, integers and nils alone, no
-- array, status or error inside) is one value of MessagePack and no more: the object
-- with the name of the command and the value of the reply. The fuel of the reader is the number of
-- values in it.
pub read_values-msgpack_wrap_redis_reply :
    (cmd : Cmd) (r : Reply) (f : ℕ)
    → IsPackable (verb_of cmd) r
    → size_values (one (value_of cmd r)) ≤ f
    → read_values f 1 (msgpack_wrap_redis_reply cmd r) ≡ some (one (value_of cmd r), [])
unfolding msgpack_wrap_redis_reply value_of pack_values
read_values-msgpack_wrap_redis_reply cmd r f p h =
    let verb = verb_of cmd in
    let (same, paired) = pack_reply-payload_of verb r p in
    ap (λ c. read_values f 1 (Pack.pack_map 1 ∷ raw verb c)) same
    ∙ read_values-pack_values f (one (value_of cmd r)) [] h (refl, paired, tt)
