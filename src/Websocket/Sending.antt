-- ===== src/Websocket/Sending.antt =====
-- `ws_frame_and_send_response` of src/websocket.c against how a client reads by RFC 6455.
use Prim.Native.Nat.{bit_or}
use webdis.Prelude.Bytes.{passes, passes_lem}
use webdis.Prelude.Text.{Bytes}
use native.Mathlib.Decide.{dec_lt}
use webdis.Websocket.Rfc.{be_value, pick, read_frame}
use webdis.Websocket.{be16, be64, frame_bytes}
use webdis.Prelude.{
  ℕ, ◌+◌, ◌^◌, ◌≤◌, ◌<◌, ◌≡◌, refl, ◌≢◌, true, false, some, [], ◌++◌, arith, ltb, leb, ◌==◌, ==_iff,
  length, length-append, take-append, drop-append,
}

every_type : passes (λ t. bit_or 0x80 t == (128 + t)) 16 ≡ true
unfolding passes
every_type = refl

fin_bit : (t : ℕ) → t < 16 → bit_or 0x80 t ≡ 128 + t
fin_bit t h = (==_iff _ _).0 (passes_lem (λ t. bit_or 0x80 t == (128 + t)) 16 t h every_type)

be16-value : (n : ℕ) → n < 65536 → be_value 0 (be16 n) ≡ n
be16-value n h = omega arith

be64-value : (n : ℕ) → n < 2 ^ 64 → be_value 0 (be64 n) ≡ n
be64-value n h = omega arith

pick-append :
    (t : ℕ) (p rest : Bytes)
    → t < 16
    → pick (bit_or 0x80 t) (length p) (p ++ rest) ≡ some (t, p, rest)
pick-append t p rest h =
    ground (arith, fin_bit t h, length-append p rest, take-append p rest, drop-append p rest)

module _ (t : ℕ) (p rest : Bytes) (h : t < 16) where
  read_short : length p ≤ 125 → read_frame (frame_bytes t p ++ rest) ≡ some (t, p, rest)
  unfolding frame_bytes
  read_short hl =
      let e : leb (length p) 125 ≡ true = ground arith in
      let e' : ltb (length p) 126 ≡ true = ground arith in rw e (rw e' (pick-append t p rest h))

  read_medium :
      125 < length p → length p < 65536 → read_frame (frame_bytes t p ++ rest) ≡ some (t, p, rest)
  unfolding frame_bytes
  read_medium lo hi =
      let e : leb (length p) 125 ≡ false = ground arith in
      let e' : leb (length p) 65536 ≡ true = ground arith in
      rw (e, e', be16-value (length p) hi) (pick-append t p rest h)

  read_long :
      65536 < length p
      → length p < 2 ^ 64
      → read_frame (frame_bytes t p ++ rest) ≡ some (t, p, rest)
  unfolding frame_bytes
  read_long lo hi =
      let e : leb (length p) 125 ≡ false = ground arith in
      let e' : leb (length p) 65536 ≡ false = ground arith in
      rw (e, e', be64-value (length p) hi) (pick-append t p rest h)

-- A frame of at most 2 ^ 64 - 1 bytes, other than 65536, is read back: its type, its payload, and
-- exactly what follows it.
pub read_frame-frame_bytes :
    (t : ℕ) (p rest : Bytes)
    → t < 16
    → length p < 2 ^ 64
    → length p ≢ 65536
    → read_frame (frame_bytes t p ++ rest) ≡ some (t, p, rest)
read_frame-frame_bytes t p rest h hl hn = elim (dec_lt 125 (length p)) [
  | no a ↦ read_short t p rest h (omega arith)
  | yes a ↦ elim (dec_lt (length p) 65536) [
    | yes b ↦ read_medium t p rest h a b
    | no b ↦ read_long t p rest h (omega arith) hl
  ]
]

-- A payload of 65536 bytes is sent with a length of 0: a client reads an empty message, and then
-- the payload as if it were frames.
pub read_frame-frame_bytes_65536 :
    (t : ℕ) (p rest : Bytes)
    → t < 16
    → length p ≡ 65536
    → read_frame (frame_bytes t p ++ rest) ≡ some (t, [], p ++ rest)
unfolding frame_bytes
read_frame-frame_bytes_65536 t p rest h e = rw e (ground (arith, fin_bit t h))
