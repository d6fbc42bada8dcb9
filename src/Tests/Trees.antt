-- ===== src/Tests/Trees.antt =====
-- A small jansson, and src/formats/json.c on it.
use webdis.Cmd.{Cmd, empty_cmd}
use webdis.Formats.Json.{Jansson, json_expand_array, verb_of}
use webdis.Formats.JsonHash.{hash_of, json_wrap_redis_reply-hash_of}
use webdis.Formats.JsonLaws.{IsJansson, ShowsAll, json_expand_array-ShowsAll}
use webdis.Formats.JsonReply.{is_verb, json_wrap_redis_reply, json_string_output}
use webdis.Prelude.Int.{ℤ, pos}
use webdis.Prelude.Text.{Bytes, codes, strcasecmp_eq}
use webdis.Reply.{Reply, Elements}
use webdis.Prelude.{
  ◌≡◌, refl, ap, ◌≢◌, inl, inr, Bool, true, false, ◌&&◌, Option, none, some, List, [], ◌∷◌, ◌++◌,
  arith, ◌==◌, ◌>>=◌, if◌then◌else◌, ==_iff, Bool-cases,
}

mutual
  pub data Tree : Type 0 where
    text : Bytes → Tree
    number : ℤ → Tree
    flag : Bool → Tree
    null : Tree
    array : Trees → Tree
    object : Members → Tree

  pub data Trees : Type 0 where
    end : Trees
    item : Tree → Trees → Trees

  pub data Members : Type 0 where
    no_members : Members
    member : Bytes → Tree → Members → Members

abbrev pub bytes_eq : Bytes → Bytes → Bool
bytes_eq [] [] = true
bytes_eq [] (y ∷ b) = false
bytes_eq (x ∷ a) [] = false
bytes_eq (x ∷ a) (y ∷ b) = x == y && bytes_eq a b

bytes_eq-same : (a : Bytes) → bytes_eq a a ≡ true
bytes_eq-same [] = refl
bytes_eq-same (x ∷ a) = rw ((==_iff x x).1 refl, bytes_eq-same a)

bytes_eq-true : (a b : Bytes) → bytes_eq a b ≡ true → a ≡ b
bytes_eq-true [] [] h = refl
bytes_eq-true [] (y ∷ b) h = cc
bytes_eq-true (x ∷ a) [] h = cc
bytes_eq-true (x ∷ a) (y ∷ b) h =
    let rest = bytes_eq-true a b (ground arith) in
    let first : x ≡ y = ground arith in rw (first, rest)

abbrev pub find : Members → Bytes → Option Tree
find no_members k = none
find (member k' v m) k = let rest = find m k in if bytes_eq k' k then some v else rest

abbrev pub append : Trees → Tree → Trees
append Trees.end t = Trees.item t Trees.end
append (Trees.item u ts) t = Trees.item u (append ts t)

abbrev list_of : Trees → List Tree
list_of Trees.end = []
list_of (Trees.item t ts) = t ∷ list_of ts

abbrev pub set_new : Tree → Bytes → Option Tree → Tree
set_new (Tree.object m) k (some v) = Tree.object (member k v m)
set_new t k v = t

abbrev pub append_new : Tree → Option Tree → Tree
append_new (Tree.array ts) (some v) = Tree.array (append ts v)
append_new t v = t

-- The text is left out.
abbrev pub small : Jansson Tree
small = record {
  json_object = Tree.object no_members;
  json_array = Tree.array Trees.end;
  json_true = Tree.flag true;
  json_false = Tree.flag false;
  json_null = Tree.null;
  json_integer = Tree.number;
  json_string = λ s. some (Tree.text s);
  json_object_set_new = set_new;
  json_array_append_new = append_new;
  json_dumps = λ t. codes "{}";
}

abbrev IsObject : Tree → Type 0
IsObject (Tree.object m) = Unit
IsObject _ = ⊥

abbrev IsArray : Tree → Type 0
IsArray (Tree.array ts) = Unit
IsArray _ = ⊥

abbrev get : Tree → Bytes → Option Tree
get (Tree.object m) k = find m k
get _ k = none

abbrev text_of : Tree → Option Bytes
text_of (Tree.text s) = some s
text_of _ = none

abbrev items : Tree → List Tree
items (Tree.array ts) = list_of ts
items _ = []

set_keeps : (o : Tree) (k : Bytes) (v : Option Tree) → IsObject o → IsObject (set_new o k v)
set_keeps (Tree.object m) k none h = tt
set_keeps (Tree.object m) k (some v) h = tt
set_keeps _ k v h = absurd h

found_same : (o : Tree) (k : Bytes) (v : Tree) → IsObject o → get (set_new o k (some v)) k ≡ some v
found_same (Tree.object m) k v h = rw (bytes_eq-same k)
found_same _ k v h = absurd h

found_other :
    (o : Tree) (k k' : Bytes) (v : Option Tree)
    → IsObject o
    → k ≢ k'
    → get (set_new o k v) k' ≡ get o k'
found_other (Tree.object m) k k' none h ne = refl
found_other (Tree.object m) k k' (some v) h ne = elim (Bool-cases (bytes_eq k k')) [
  | inl e ↦ absurd (ne (bytes_eq-true k k' e))
  | inr e ↦ rw e
]
found_other _ k k' v h ne = absurd h

append_keeps : (l : Tree) (v : Option Tree) → IsArray l → IsArray (append_new l v)
append_keeps (Tree.array ts) none h = tt
append_keeps (Tree.array ts) (some v) h = tt
append_keeps _ v h = absurd h

list_of-append : (ts : Trees) (t : Tree) → list_of (append ts t) ≡ list_of ts ++ (t ∷ [])
list_of-append Trees.end t = refl
list_of-append (Trees.item u ts) t = ap (◌∷◌ u) (list_of-append ts t)

items_append : (l v : Tree) → IsArray l → items (append_new l (some v)) ≡ items l ++ (v ∷ [])
items_append (Tree.array ts) v h = list_of-append ts v
items_append _ v h = absurd h

abbrev small-IsJansson : IsJansson small
small-IsJansson = record {
  is_utf8 = λ s. true;
  IsObject = IsObject;
  IsArray = IsArray;
  object_get = get;
  string_value = text_of;
  array_items = items;
  json_object-IsObject = tt;
  set-IsObject = set_keeps;
  get-set_same = λ o k v h u. found_same o k v h;
  get-set_other = found_other;
  json_string-utf8 = λ s u. (Tree.text s, refl, refl);
  json_array-IsArray = tt;
  append-IsArray = append_keeps;
  items-array = refl;
  items-append = items_append;
}

-- A list in a list.
nested : Elements
nested = Elements.item (Reply.string (codes "a")) (
    Elements.item (Reply.array (Elements.item (Reply.integer (pos 7)) Elements.end))
      (Elements.item Reply.nil Elements.end))

json_expand_array-ShowsAll_example :
    ShowsAll small small-IsJansson nested (items (json_expand_array small nested))
unfolding nested
json_expand_array-ShowsAll_example =
    json_expand_array-ShowsAll small small-IsJansson nested ((refl, refl), (tt, tt))

hgetall : Cmd
unfolding empty_cmd
hgetall = record (empty_cmd 2) { argv = codes "hgetall" ∷ codes "h" ∷ [] }

verb : verb_of hgetall ≡ codes "hgetall"
unfolding hgetall verb_of
verb = refl

json_wrap_redis_reply-hash_of_example :
    (o : Tree) × (get
        (json_wrap_redis_reply small hgetall
          (Reply.array (hash_of ((codes "f", codes "1") ∷ (codes "f", codes "2") ∷ []))))
        (verb_of hgetall)
      ≡ some o)
    × ((get o (codes "f") >>= text_of) ≡ some (codes "2"))
unfolding hgetall verb_of strcasecmp_eq is_verb
json_wrap_redis_reply-hash_of_example =
    json_wrap_redis_reply-hash_of small small-IsJansson hgetall ((codes "f", codes "1") ∷ [])
      (codes "f") (codes "2") [] refl (refl, refl) (((refl, refl), (refl, refl)), tt)
      ((refl, refl), (refl, refl)) tt tt

jsonp_bytes : json_string_output small Tree.null (some (codes "cb")) ≡ codes "cb({});\n"
unfolding json_string_output
jsonp_bytes = refl
