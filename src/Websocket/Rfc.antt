-- ===== src/Websocket/Rfc.antt =====
-- RFC 6455, section 5.2, for both sides of a connection: how a client writes a frame, and how it
-- reads one of the server's. Nothing here comes from the program.
use Prim.Native.Nat.{bit_xor}
use webdis.Prelude.Text.{Bytes}
use webdis.Prelude.{
  ℕ, ◌+◌, ◌-◌, ◌*◌, ◌/◌, ◌%◌, ◌^◌, ◌<◌, Bool, ◌&&◌, Option, none, some, [], ◌∷◌, ◌++◌, ltb, leb,
  ◌==◌, if◌then◌else◌, length, take, drop, All,
}

-- A number in network byte order.
abbrev pub be_value : ℕ → Bytes → ℕ
be_value acc [] = acc
be_value acc (b ∷ bs) = be_value (acc * 256 + b) bs

abbrev pub pick : ℕ → ℕ → Bytes → Option (ℕ × Bytes × Bytes)
pick first n rest =
    if leb 128 first && leb n (length rest)
    then some (first - 128, take n rest, drop n rest)
    else none

-- The opcode, the payload and what follows, of a final frame without a mask.
abbrev pub read_frame : Bytes → Option (ℕ × Bytes × Bytes)
read_frame [] = none
read_frame (first ∷ []) = none
read_frame (first ∷ second ∷ rest) =
    if ltb second 126
    then pick first second rest
    else if second == 126
    then pick first (be_value 0 (take 2 rest)) (drop 2 rest)
    else if second == 127
    then pick first (be_value 0 (take 8 rest)) (drop 8 rest)
    else none

-- A masking key, and the payload under it: octet i goes with octet i mod 4 of the key.
pub record Key : Type 0 where
  pub k0 : ℕ
  pub k1 : ℕ
  pub k2 : ℕ
  pub k3 : ℕ

unfoldable pub masked : ℕ → ℕ → ℕ → ℕ → Bytes → Bytes
masked a b c d [] = []
masked a b c d (x ∷ p) = bit_xor x a ∷ masked b c d a p

abbrev pub key_bytes : Key → Bytes
key_bytes k = k.k0 ∷ k.k1 ∷ k.k2 ∷ k.k3 ∷ []

abbrev pub eight_bytes : ℕ → Bytes
eight_bytes n =
    (n / 2 ^ 56)
    ∷ (n / 2 ^ 48 % 256)
    ∷ (n / 2 ^ 40 % 256)
    ∷ (n / 2 ^ 32 % 256)
    ∷ (n / 2 ^ 24 % 256)
    ∷ (n / 2 ^ 16 % 256)
    ∷ (n / 2 ^ 8 % 256)
    ∷ (n % 256)
    ∷ []

-- The least number of octets that hold the length is used.
abbrev pub length_bytes : ℕ → Bytes
length_bytes n =
    if leb n 125
    then (128 + n) ∷ []
    else if ltb n 65536
    then 254 ∷ (n / 256) ∷ (n % 256) ∷ []
    else 255 ∷ eight_bytes n

-- A client's frame. The key must be there, and the payload is under it.
abbrev pub client_frame : Bool → ℕ → Key → Bytes → Bytes
client_frame fin opcode k p =
    ((if fin then 128 else 0) + opcode)
    ∷ (length_bytes (length p) ++ (key_bytes k ++ masked k.k0 k.k1 k.k2 k.k3 p))

-- What a client may send: octets are octets, and the length fits 63 bits.
pub record IsFrame (opcode : ℕ) (k : Key) (p : Bytes) : Type 0 where
  pub opcode_lt : opcode < 16
  pub key : (k.k0 < 256) × (k.k1 < 256) × (k.k2 < 256) × (k.k3 < 256)
  pub octets : All (λ x. x < 256) p
  pub length_lt : length p < 2 ^ 63
