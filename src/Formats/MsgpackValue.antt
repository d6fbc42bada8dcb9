-- ===== src/Formats/MsgpackValue.antt =====
-- The calls of src/formats/msgpack.c as one value of MessagePack, and a client that reads it.
use webdis.Formats.Msgpack.{Pack, raw}
use webdis.Prelude.Int.{ℤ}
use webdis.Prelude.Text.{Bytes}
use webdis.Prelude.{
  ℕ, zero, suc, ◌+◌, ◌*◌, ◌/◌, ◌%◌, ◌≤◌, ◌<◌, ◌≡◌, refl, Bool, true, false, Option, none, some,
  List, ◌∷◌, arith, ◌==◌, ◌>>=◌, if◌then◌else◌, ==_iff, length,
}

-- The values of MessagePack. A map is the list of its keys and values.
mutual
  pub data Value : Type 0 where
    bytes : Bytes → Value
    int : ℤ → Value
    bool : Bool → Value
    null : Value
    array : Values → Value
    object : Values → Value

  pub data Values : Type 0 where
    end : Values
    item : Value → Values → Values

abbrev pub count_values : Values → ℕ
count_values Values.end = 0
count_values (Values.item v vs) = suc (count_values vs)

-- How many values there are, at any depth.
unfoldable pub size_values : Values → ℕ
size_values Values.end = 0
size_values (Values.item (Value.array inner) vs) = suc (size_values inner + size_values vs)
size_values (Values.item (Value.object inner) vs) = suc (size_values inner + size_values vs)
size_values (Values.item _ vs) = suc (size_values vs)

-- The format: `n` values from the front of the calls, and the calls behind them. A string is
-- announced with its length, an array with its number of values and a map with its number of pairs.
unfoldable pub read_values : ℕ → ℕ → List Pack → Option (Values × List Pack)
read_values f zero calls = some (Values.end, calls)
read_values zero (suc n) calls = none
read_values (suc f) (suc n) (Pack.pack_raw k ∷ Pack.pack_raw_body s ∷ calls) =
    let more = read_values f n calls in
    if length s == k
    then (do (vs, rest) ← more; some (Values.item (Value.bytes s) vs, rest))
    else none
read_values (suc f) (suc n) (Pack.pack_int i ∷ calls) = do
  (vs, rest) ← read_values f n calls
  some (Values.item (Value.int i) vs, rest)
read_values (suc f) (suc n) (Pack.pack_true ∷ calls) = do
  (vs, rest) ← read_values f n calls
  some (Values.item (Value.bool true) vs, rest)
read_values (suc f) (suc n) (Pack.pack_false ∷ calls) = do
  (vs, rest) ← read_values f n calls
  some (Values.item (Value.bool false) vs, rest)
read_values (suc f) (suc n) (Pack.pack_nil ∷ calls) = do
  (vs, rest) ← read_values f n calls
  some (Values.item Value.null vs, rest)
read_values (suc f) (suc n) (Pack.pack_array k ∷ calls) = do
  (inner, calls') ← read_values f k calls
  (vs, rest) ← read_values f n calls'
  some (Values.item (Value.array inner) vs, rest)
read_values (suc f) (suc n) (Pack.pack_map k ∷ calls) = do
  (inner, calls') ← read_values f (2 * k) calls
  (vs, rest) ← read_values f n calls'
  some (Values.item (Value.object inner) vs, rest)
read_values (suc f) (suc n) _ = none

-- The calls that make the values, in front of others.
unfoldable pub pack_values : Values → List Pack → List Pack
pack_values Values.end rest = rest
pack_values (Values.item (Value.bytes s) vs) rest = raw s (pack_values vs rest)
pack_values (Values.item (Value.int i) vs) rest = Pack.pack_int i ∷ pack_values vs rest
pack_values (Values.item (Value.bool true) vs) rest = Pack.pack_true ∷ pack_values vs rest
pack_values (Values.item (Value.bool false) vs) rest = Pack.pack_false ∷ pack_values vs rest
pack_values (Values.item Value.null vs) rest = Pack.pack_nil ∷ pack_values vs rest
pack_values (Values.item (Value.array inner) vs) rest =
    Pack.pack_array (count_values inner) ∷ pack_values inner (pack_values vs rest)
pack_values (Values.item (Value.object inner) vs) rest =
    Pack.pack_map (count_values inner / 2) ∷ pack_values inner (pack_values vs rest)

-- Every map has a value for each key.
abbrev pub ArePaired : Values → Type 0
ArePaired Values.end = Unit
ArePaired (Values.item (Value.array inner) vs) = ArePaired inner × ArePaired vs
ArePaired (Values.item (Value.object inner) vs) =
    (count_values inner % 2 ≡ 0) × ArePaired inner × ArePaired vs
ArePaired (Values.item _ vs) = ArePaired vs

size_values_pos : (v : Value) (vs : Values) → 0 < size_values (Values.item v vs)
unfolding size_values
size_values_pos (Value.bytes s) vs = omega arith
size_values_pos (Value.int i) vs = omega arith
size_values_pos (Value.bool b) vs = omega arith
size_values_pos Value.null vs = omega arith
size_values_pos (Value.array inner) vs = omega arith
size_values_pos (Value.object inner) vs = omega arith

pub read_values-pack_values :
    (f : ℕ) (vs : Values) (rest : List Pack)
    → size_values vs ≤ f
    → ArePaired vs
    → read_values f (count_values vs) (pack_values vs rest) ≡ some (vs, rest)
unfolding read_values pack_values size_values
read_values-pack_values f Values.end rest h p = refl
read_values-pack_values zero (Values.item v vs) rest h p =
    absurd (omega (arith, size_values_pos v vs))
read_values-pack_values (suc f) (Values.item (Value.bytes s) vs) rest h p =
    let more = read_values-pack_values f vs rest (omega arith) p in
    rw ((==_iff (length s) (length s)).1 refl, more)
read_values-pack_values (suc f) (Values.item (Value.int i) vs) rest h p =
    let more = read_values-pack_values f vs rest (omega arith) p in rw more
read_values-pack_values (suc f) (Values.item (Value.bool true) vs) rest h p =
    let more = read_values-pack_values f vs rest (omega arith) p in rw more
read_values-pack_values (suc f) (Values.item (Value.bool false) vs) rest h p =
    let more = read_values-pack_values f vs rest (omega arith) p in rw more
read_values-pack_values (suc f) (Values.item Value.null vs) rest h p =
    let more = read_values-pack_values f vs rest (omega arith) p in rw more
read_values-pack_values (suc f) (Values.item (Value.array inner) vs) rest h (pi, p) =
    let more = read_values-pack_values f vs rest (omega arith) p in
    let inside = read_values-pack_values f inner (pack_values vs rest) (omega arith) pi in
    rw (inside, more)
read_values-pack_values (suc f) (Values.item (Value.object inner) vs) rest h (even, pi, p) =
    let more = read_values-pack_values f vs rest (omega arith) p in
    let inside = read_values-pack_values f inner (pack_values vs rest) (omega arith) pi in
    let pairs : 2 * (count_values inner / 2) ≡ count_values inner = omega arith in
    rw (pairs, inside, more)
