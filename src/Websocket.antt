-- ===== src/Websocket.antt =====
-- src/websocket.c: frames in, frames out. `rbuf` and `wbuf` are the bytes of the two buffers.
-- Memory is always found: the branches for a failed allocation are left out.
pub mod Execute
pub mod Events
pub mod Rfc
pub mod Sending
pub mod Receiving
pub mod Keeps
pub mod Handled
pub mod Loop
pub mod Handshake
pub mod Live
pub mod Welcome
pub mod Lifecycle
use Prim.Native.Nat.{bit_xor, bit_or}
use webdis.Cmd.{Cmd, Sent}
use webdis.Prelude.Text.{Bytes, codes}
use webdis.State.{HttpClient}
use webdis.Prelude.{
  ℕ, zero, suc, ◌+◌, ◌-◌, ◌*◌, ◌/◌, ◌%◌, ◌^◌, ◌≤◌, ◌<◌, min, ◌≡◌, refl, sym, ap, ◌∙◌, ◌≢◌, ◌↔◌, ◌⊎◌,
  inl, inr, Bool, true, false, not, ◌&&◌, ◌||◌, Option, none, some, List, [], ◌∷◌, ◌++◌, map,
  append-nil, append_assoc, arith, ltb, leb, ◌==◌, if◌then◌else◌, ==_iff, ltb→lt, lt→ltb, leb→le,
  Bool-cases, Option-cases, length, get_elem?, set, length-append, length-set, get_elem?-set_self,
  get_elem?-set_ne, get_or, take, drop, replicate, take-append-drop, length-take, length-drop,
  length-replicate, length-map, All, Any,
}

pub data WsState : Type 0 where
  ws_error ws_reading ws_msg_complete : WsState

-- `enum ws_frame_type`; a type that is none of these is its number.
abbrev pub ws_text_frame : ℕ
ws_text_frame = 0

abbrev pub ws_binary_frame : ℕ
ws_binary_frame = 1

abbrev pub ws_connection_close : ℕ
ws_connection_close = 8

abbrev pub ws_ping : ℕ
ws_ping = 9

abbrev pub ws_pong : ℕ
ws_pong = 10

pub record WsMsg : Type 0 where
  pub type : ℕ
  pub payload : Bytes
  pub total_sz : ℕ

-- `struct ws_client`. `freed` is set when the object is gone; `sent` records the calls of
-- `redisAsyncCommandArgv`, and `disconnected` the connections given up.
pub record WsClient : Type 0 where
  pub http_client : HttpClient
  pub scheduled_read : Bool
  pub scheduled_write : Bool
  pub rbuf : Bytes
  pub wbuf : Bytes
  pub ac : Option ℕ
  pub cmd : Option Cmd
  pub close_after_events : Bool
  pub ran_subscribe : Bool
  pub freed : Bool
  pub sent : List Sent
  pub disconnected : List ℕ

unfoldable pub ws_schedule_write : WsClient → WsClient
ws_schedule_write ws = if not ws.scheduled_write then record ws { scheduled_write = true } else ws

unfoldable pub ws_monitor_input : WsClient → WsClient
ws_monitor_input ws = if not ws.scheduled_read then record ws { scheduled_read = true } else ws

-- `htons` and `webdis_htonll`, as the bytes in memory.
abbrev pub be16 : ℕ → Bytes
be16 n = (n / 256 % 256) ∷ (n % 256) ∷ []

abbrev pub be64 : ℕ → Bytes
be64 n =
    (n / 2 ^ 56 % 256)
    ∷ (n / 2 ^ 48 % 256)
    ∷ (n / 2 ^ 40 % 256)
    ∷ (n / 2 ^ 32 % 256)
    ∷ (n / 2 ^ 24 % 256)
    ∷ (n / 2 ^ 16 % 256)
    ∷ (n / 2 ^ 8 % 256)
    ∷ (n % 256)
    ∷ []

-- The frame that `ws_frame_and_send_response` puts together. `frame[1] = sz` stores a byte.
unfoldable pub frame_bytes : ℕ → Bytes → Bytes
frame_bytes frame_type p =
    let sz = length p in
    bit_or 0x80 frame_type
    ∷ (if leb sz 125
        then sz ∷ p
        else if leb sz 65536
        then 126 ∷ (be16 sz ++ p)
        else 127 ∷ (be64 sz ++ p))

unfoldable pub ws_frame_and_send_response : WsClient → ℕ → Bytes → WsClient
unfolding frame_bytes ws_schedule_write
ws_frame_and_send_response ws frame_type p =
    ws_schedule_write (record ws { wbuf = ws.wbuf ++ frame_bytes frame_type p })

abbrev pub byte_at : Bytes → ℕ → ℕ
byte_at s i = get_or s i 0

-- `ntohs` and `webdis_ntohll` of the bytes at `s`.
abbrev pub read16 : Bytes → ℕ
read16 s = byte_at s 0 * 256 + byte_at s 1

abbrev pub read64 : Bytes → ℕ
read64 s =
    byte_at s 0 * 2 ^ 56
    + byte_at s 1 * 2 ^ 48
    + byte_at s 2 * 2 ^ 40
    + byte_at s 3 * 2 ^ 32
    + byte_at s 4 * 2 ^ 24
    + byte_at s 5 * 2 ^ 16
    + byte_at s 6 * 2 ^ 8
    + byte_at s 7

-- The loop of `ws_msg_add`, from index `i` on.
unfoldable pub mask_from : ℕ → Bytes → Bytes → Bytes
mask_from i mask [] = []
mask_from i mask (x ∷ p) = bit_xor x (byte_at mask (i % 4)) ∷ mask_from (i + 1) mask p

unfoldable pub ws_msg_new : ℕ → WsMsg
ws_msg_new frame_type = record { type = frame_type; payload = []; total_sz = 0 }

unfoldable pub ws_msg_add : WsMsg → Bytes → Bytes → WsMsg
unfolding mask_from
ws_msg_add m p mask = record m { payload = m.payload ++ mask_from 0 mask p }

-- How many bytes stand between the second byte of the header and the mask.
abbrev pub ext_len : ℕ → ℕ
ext_len len = if len == 126 then 2 else if len == 127 then 8 else 0

-- The payload's length, by the seven bits of the second byte and what follows it.
abbrev pub payload_len : ℕ → Bytes → ℕ
payload_len len rest = if leb len 125 then len else if len == 126 then read16 rest else read64 rest

abbrev pub no_mask_reason : Bytes
no_mask_reason =
    0x03
    ∷ 0xea
    ∷ codes "Received a frame without a mask from the client (violates RFC6455, 5.1. Overview)."

-- `WsState` with the message that is extracted, if one is asked for.
abbrev pub Peeked : Type 0
Peeked = WsState × Option WsMsg × WsClient

-- The last part of `ws_peek_data`, on a frame that is there in full: `head` bytes of header, then
-- `len` of payload. The bytes of `rest` follow the first two.
unfoldable pub take_frame : WsClient → Bool → ℕ → ℕ → ℕ → Bytes → Peeked
unfolding ws_msg_new ws_msg_add
take_frame ws extract first len ext rest =
    let fin = if leb 128 first then ws_msg_complete else ws_reading in
    let mask = take 4 (drop ext rest) in
    let p = take len (drop (ext + 4) rest) in
    let head = 6 + ext in
    if extract
    then (
      fin,
      some (record (ws_msg_add (ws_msg_new (first % 16)) p mask) { total_sz = len + head }),
      record ws { rbuf = drop (len + head) ws.rbuf },
    )
    else (fin, none, ws)

-- From the mask bit on; `sz` is the length of the buffer.
unfoldable pub peek_frame : WsClient → Bool → ℕ → ℕ → ℕ → Bytes → Peeked
peek_frame ws extract sz first second rest =
    let len = second % 128 in
    let ext = ext_len len in
    let total = payload_len len rest in
    if ltb second 128
    then (
      ws_error,
      none,
      ws_frame_and_send_response (record ws { close_after_events = true }) ws_connection_close
          no_mask_reason,
    )
    else if ltb sz (6 + ext)
    then (ws_reading, none, ws)
    else if ltb (sz - (6 + ext)) total
    then (ws_reading, none, ws)
    else take_frame ws extract first total ext rest

unfoldable pub peek_bytes : WsClient → Bool → Bytes → Peeked
unfolding peek_frame
peek_bytes ws extract [] = (ws_reading, none, ws)
peek_bytes ws extract (first ∷ []) = (ws_reading, none, ws)
peek_bytes ws extract (first ∷ second ∷ rest) =
    peek_frame ws extract (length rest + 2) first second rest

unfoldable pub ws_peek_data : WsClient → Bool → Peeked
unfolding peek_bytes
ws_peek_data ws extract = peek_bytes ws extract ws.rbuf
