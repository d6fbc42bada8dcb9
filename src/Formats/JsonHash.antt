-- ===== src/Formats/JsonHash.antt =====
-- The objects that src/formats/json.c makes of fields and values, as HGETALL answers them.
use webdis.Cmd.{Cmd}
use webdis.Formats.Json.{
  Jansson, c_string, verb_of, string_new, object_set, pair_value, keyvalue_onto,
  json_array_to_keyvalue_reply,
}
use webdis.Formats.JsonLaws.{IsJansson, IsText, string_new-text, c_string-lacks}
use webdis.Formats.JsonReply.{is_verb, array_value, json_wrap_redis_reply}
use webdis.Prelude.Text.{Bytes, codes}
use webdis.Reply.{Reply, Elements, count_elements}
use webdis.Prelude.{
  ◌%◌, ◌≡◌, refl, ap, ◌∙◌, ◌≢◌, true, some, List, [], ◌∷◌, ◌++◌, arith, ◌==◌, ◌>>=◌, All,
}

-- The reply of HGETALL.
unfoldable pub hash_of : List (Bytes × Bytes) → Elements
hash_of [] = Elements.end
hash_of (p ∷ ps) = Elements.item (Reply.string p.0) (Elements.item (Reply.string p.1) (hash_of ps))

hash_of-even : (ps : List (Bytes × Bytes)) → count_elements (hash_of ps) % 2 ≡ 0
unfolding hash_of
hash_of-even [] = omega arith
hash_of-even (p ∷ ps) = omega (arith, hash_of-even ps)

module _ {J : Type 0} (jansson : Jansson J) (laws : IsJansson jansson) where
  open jansson use {json_object, json_object_set_new}
  open laws use {is_utf8, IsObject, object_get, string_value}

  abbrev pub IsTextPair : Bytes × Bytes → Type 0
  IsTextPair p = IsText jansson laws p.0 × IsText jansson laws p.1

  -- One field with its value.
  keyvalue_step :
      (o : J) (k v : Bytes) (ps : List (Bytes × Bytes))
      → IsTextPair (k, v)
      → (j : J) × (string_value j ≡ some v)
        × (keyvalue_onto jansson o (hash_of ((k, v) ∷ ps))
            ≡ keyvalue_onto jansson (json_object_set_new o k (some j)) (hash_of ps))
  unfolding keyvalue_onto pair_value object_set hash_of
  keyvalue_step o k v ps (tk, tv) =
      let (j, made, value) = string_new-text jansson laws v tv in
      let key : c_string k ≡ k = c_string-lacks k tk.1 in
      let same : object_set jansson o k (string_new jansson v) ≡ json_object_set_new o k (some j) =
        ap (λ c. json_object_set_new o c (string_new jansson v)) key
        ∙ ap (json_object_set_new o k) made in
      (j, value, ap (λ x. keyvalue_onto jansson x (hash_of ps)) same)

  -- Fields that are not `k` keep what there is under it.
  keyvalue_kept :
      (o : J) (k : Bytes) (ps : List (Bytes × Bytes))
      → IsObject o
      → All IsTextPair ps
      → All (λ p. p.0 ≢ k) ps
      → (o' : J) × (keyvalue_onto jansson o (hash_of ps) ≡ some o')
        × (object_get o' k ≡ object_get o k)
  unfolding keyvalue_onto hash_of
  keyvalue_kept o k [] is t h = (o, refl, refl)
  keyvalue_kept o k ((k', v) ∷ ps) is (tp, t) (ne, h) =
      let (j, _, step) = keyvalue_step o k' v ps tp in
      let next = json_object_set_new o k' (some j) in
      let (o', made, same) = keyvalue_kept next k ps (laws.set-IsObject o k' (some j) is) t h in
      (o', step ∙ made, same ∙ laws.get-set_other o k' k (some j) is ne)

  keyvalue_last :
      (o : J) (before : List (Bytes × Bytes)) (k v : Bytes) (after : List (Bytes × Bytes))
      → IsObject o
      → All IsTextPair before
      → IsTextPair (k, v)
      → All IsTextPair after
      → All (λ p. p.0 ≢ k) after
      → (o' : J) × (keyvalue_onto jansson o (hash_of (before ++ ((k, v) ∷ after))) ≡ some o')
        × ((object_get o' k >>= string_value) ≡ some v)
  keyvalue_last o [] k v after is tb tp ta h =
      let (j, value, step) = keyvalue_step o k v after tp in
      let next = json_object_set_new o k (some j) in
      let (o', made, same) = keyvalue_kept next k after (laws.set-IsObject o k (some j) is) ta h in
      let found : object_get o' k ≡ some j = same ∙ laws.get-set_same o k j is tp.0.0 in
      (o', step ∙ made, rw found value)
  keyvalue_last o ((k', v') ∷ before) k v after is (tq, tb) tp ta h =
      let (j, _, step) = keyvalue_step o k' v' (before ++ ((k, v) ∷ after)) tq in
      let next = json_object_set_new o k' (some j) in
      let (o', made, value) =
        keyvalue_last next before k v after (laws.set-IsObject o k' (some j) is) tb tp ta h in
      (o', step ∙ made, value)

  -- For HGETALL, with a name, fields and values that are UTF-8 and hold no NUL, and a jansson that
  -- keeps its laws, the root has an object under the name of the command, and that object has under
  -- each field the last value that the reply gives for it.
  pub json_wrap_redis_reply-hash_of :
      (cmd : Cmd) (before : List (Bytes × Bytes)) (k v : Bytes) (after : List (Bytes × Bytes))
      → is_verb (verb_of cmd) (codes "HGETALL") ≡ true
      → IsText jansson laws (verb_of cmd)
      → All IsTextPair before
      → IsTextPair (k, v)
      → All IsTextPair after
      → All (λ p. p.0 ≢ k) after
      → (o : J) × (object_get
            (json_wrap_redis_reply jansson cmd (Reply.array (hash_of (before ++ ((k, v) ∷ after)))))
            (verb_of cmd)
          ≡ some o)
        × ((object_get o k >>= string_value) ≡ some v)
  unfolding json_wrap_redis_reply array_value json_array_to_keyvalue_reply
  json_wrap_redis_reply-hash_of cmd before k v after verb text tb tp ta h =
      let es = hash_of (before ++ ((k, v) ∷ after)) in
      let (o, made, value) =
        keyvalue_last json_object before k v after laws.json_object-IsObject tb tp ta h in
      let even : (count_elements es % 2 == 0) ≡ true =
        ground (arith, hash_of-even (before ++ ((k, v) ∷ after))) in
      (
        o,
        rw (verb, even, made)
            (laws.get-set_same json_object (verb_of cmd) o laws.json_object-IsObject text.0),
        value,
      )
