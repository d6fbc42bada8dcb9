-- ===== src/Formats/JsonLaws.antt =====
-- What the trees of src/formats/json.c hold, by what jansson promises of them.
use mathlib.Core.Path.{subst}
use webdis.Formats.Json.{Jansson, c_string, string_new, expand_onto, json_expand_array}
use webdis.Prelude.Search.{lacks}
use webdis.Prelude.Text.{Bytes}
use webdis.Reply.{Reply, Elements}
use webdis.Prelude.{
  ◌≡◌, refl, sym, ap, ◌∙◌, ◌≢◌, Bool, true, false, Option, some, List, [], ◌∷◌, ◌++◌, append-nil,
  append_assoc, arith, ◌==◌,
}

-- jansson's documentation: a member that is set is found, under a key that is UTF-8, and the others
-- are kept; an array holds what is appended, in order; a string that is UTF-8 is kept.
pub record IsJansson {J : Type 0} (jansson : Jansson J) : Type 1 where
  pub is_utf8 : Bytes → Bool
  pub IsObject : J → Type 0
  pub IsArray : J → Type 0
  pub object_get : J → Bytes → Option J
  pub string_value : J → Option Bytes
  pub array_items : J → List J
  pub json_object-IsObject : IsObject jansson.json_object
  pub set-IsObject :
      (o : J) (k : Bytes) (v : Option J) → IsObject o → IsObject (jansson.json_object_set_new o k v)
  pub get-set_same :
      (o : J) (k : Bytes) (v : J)
      → IsObject o
      → is_utf8 k ≡ true
      → object_get (jansson.json_object_set_new o k (some v)) k ≡ some v
  pub get-set_other :
      (o : J) (k k' : Bytes) (v : Option J)
      → IsObject o
      → k ≢ k'
      → object_get (jansson.json_object_set_new o k v) k' ≡ object_get o k'
  pub json_string-utf8 :
      (s : Bytes)
      → is_utf8 s ≡ true
      → (v : J) × (jansson.json_string s ≡ some v) × (string_value v ≡ some s)
  pub json_array-IsArray : IsArray jansson.json_array
  pub append-IsArray :
      (l : J) (v : Option J) → IsArray l → IsArray (jansson.json_array_append_new l v)
  pub items-array : array_items jansson.json_array ≡ []
  pub items-append :
      (l v : J)
      → IsArray l
      → array_items (jansson.json_array_append_new l (some v)) ≡ array_items l ++ (v ∷ [])

pub c_string-lacks : (s : Bytes) → lacks 0 s ≡ true → c_string s ≡ s
unfolding c_string
c_string-lacks [] h = refl
c_string-lacks (c ∷ s) h =
    let z : (c == 0) ≡ false = ground arith in
    let rest = c_string-lacks s (ground arith) in rw (z, rest)

module _ {J : Type 0} (jansson : Jansson J) (laws : IsJansson jansson) where
  open jansson use {
    json_object, json_array, json_null, json_integer, json_object_set_new, json_array_append_new,
  }
  open laws use {is_utf8, IsObject, IsArray, object_get, string_value, array_items}

  -- A text that JSON can hold as a C string.
  abbrev pub IsText : Bytes → Type 0
  IsText s = (is_utf8 s ≡ true) × (lacks 0 s ≡ true)

  pub string_new-text :
      (s : Bytes) → IsText s → (v : J) × (string_new jansson s ≡ some v) × (string_value v ≡ some s)
  unfolding string_new
  string_new-text s (u, z) =
      let (v, made, value) = laws.json_string-utf8 s u in
      (v, rw (string_new, c_string-lacks s z) made, value)

  -- What an array holds of the elements of a reply, one by one and at every depth.
  mutual
    pub Shows : Reply → J → Type 0
    Shows (Reply.status s) j = string_value j ≡ some s
    Shows (Reply.string s) j = string_value j ≡ some s
    Shows (Reply.integer n) j = j ≡ json_integer n
    Shows (Reply.array es) j = IsArray j × ShowsAll es (array_items j)
    Shows _ j = j ≡ json_null

    pub ShowsAll : Elements → List J → Type 0
    ShowsAll Elements.end [] = Unit
    ShowsAll Elements.end (j ∷ js) = ⊥
    ShowsAll (Elements.item e es) [] = ⊥
    ShowsAll (Elements.item e es) (j ∷ js) = Shows e j × ShowsAll es js

  -- Every string is a text that JSON can hold.
  abbrev pub AreTexts : Elements → Type 0
  AreTexts Elements.end = Unit
  AreTexts (Elements.item (Reply.status s) es) = IsText s × AreTexts es
  AreTexts (Elements.item (Reply.string s) es) = IsText s × AreTexts es
  AreTexts (Elements.item (Reply.array sub) es) = AreTexts sub × AreTexts es
  AreTexts (Elements.item _ es) = AreTexts es

  -- The new items, behind those of the array so far.
  abbrev Expanded : J → Elements → Type 0
  Expanded l es =
      IsArray (expand_onto jansson l es)
      × ((js : List J) × (array_items (expand_onto jansson l es) ≡ array_items l ++ js)
          × ShowsAll es js)

  append-Expanded :
      (l v : J) (e : Reply) (es : Elements) (new : J)
      → new ≡ expand_onto jansson (json_array_append_new l (some v)) es
      → IsArray l
      → Shows e v
      → Expanded (json_array_append_new l (some v)) es
      → IsArray new
        × ((js : List J) × (array_items new ≡ array_items l ++ js)
            × ShowsAll (Elements.item e es) js)
  unfolding ShowsAll
  append-Expanded l v e es new same array shows (is_array, (js, items, all)) = rw same (
    is_array,
    (
      v ∷ js,
      items
          ∙ ap (λ i. i ++ js) (laws.items-append l v array)
          ∙ append_assoc (array_items l) (v ∷ []) js,
      (shows, all),
    ),
  )

  expand_onto-Expanded : (l : J) (es : Elements) → IsArray l → AreTexts es → Expanded l es
  unfolding expand_onto Shows ShowsAll
  expand_onto-Expanded l Elements.end a t = (a, ([], sym (append-nil (array_items l)), tt))
  expand_onto-Expanded l (Elements.item (Reply.status s) es) a (t, ts) =
      let (v, made, value) = string_new-text s t in
      append-Expanded l v (Reply.status s) es
        (expand_onto jansson l (Elements.item (Reply.status s) es)) (rw made) a value
        (expand_onto-Expanded (json_array_append_new l (some v)) es
          (laws.append-IsArray l (some v) a) ts)
  expand_onto-Expanded l (Elements.item (Reply.string s) es) a (t, ts) =
      let (v, made, value) = string_new-text s t in
      append-Expanded l v (Reply.string s) es
        (expand_onto jansson l (Elements.item (Reply.string s) es)) (rw made) a value
        (expand_onto-Expanded (json_array_append_new l (some v)) es
          (laws.append-IsArray l (some v) a) ts)
  expand_onto-Expanded l (Elements.item (Reply.integer n) es) a ts =
      let v = json_integer n in
      append-Expanded l v (Reply.integer n) es _ refl a refl (
        expand_onto-Expanded (json_array_append_new l (some v)) es
          (laws.append-IsArray l (some v) a) ts)
  expand_onto-Expanded l (Elements.item (Reply.array sub) es) a (t, ts) =
      let v = expand_onto jansson json_array sub in
      let (is_array, (js, items, all)) =
        expand_onto-Expanded json_array sub laws.json_array-IsArray t in
      let whole : array_items v ≡ js = items ∙ ap (λ i. i ++ js) laws.items-array in
      append-Expanded l v (Reply.array sub) es _ refl a
        (is_array, subst (ShowsAll sub) (sym whole) all)
        (expand_onto-Expanded (json_array_append_new l (some v)) es
          (laws.append-IsArray l (some v) a) ts)
  expand_onto-Expanded l (Elements.item e es) a ts =
      append-Expanded l json_null e es _ refl a refl (
        expand_onto-Expanded (json_array_append_new l (some json_null)) es
          (laws.append-IsArray l (some json_null) a) ts)

  -- When every string of an array is UTF-8 and holds no NUL, and jansson keeps its laws, the array of
  -- jansson's holds an item for each element, in order and at every depth: a string or a status as it
  -- is, an integer, an array, and null for all else.
  pub json_expand_array-ShowsAll :
      (es : Elements) → AreTexts es → ShowsAll es (array_items (json_expand_array jansson es))
  unfolding json_expand_array
  json_expand_array-ShowsAll es t =
      let (_, (js, items, all)) = expand_onto-Expanded json_array es laws.json_array-IsArray t in
      subst (ShowsAll es) (sym (items ∙ ap (λ i. i ++ js) laws.items-array)) all
