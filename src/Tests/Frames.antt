-- ===== src/Tests/Frames.antt =====
-- Frames and messages: src/websocket.c.
use webdis.Acl.{find_header}
use webdis.Formats.Extract.{json_string, JsonText, json_array, reader_error}
use webdis.Prelude.Text.{Bytes, codes, strncasecmp_eq}
use webdis.Tests.Data.{debug_off, conf, local_client, pool_conf, two_slots, accepted}
use webdis.Websocket.{WsClient, frame_bytes, ws_peek_data}
use webdis.Websocket.Execute.{Processed, ws_process_read_data}
use webdis.State.{HttpClient}
use webdis.Websocket.Events.{ws_can_write}
use webdis.Websocket.Handshake.{
  HandshakeReply, reply_bytes, reply_size, ws_client_new, ws_handshake_reply, length-reply_bytes,
}
use webdis.Websocket.Lifecycle.{write, here, next, Reach-IsLive}
use webdis.Websocket.Live.{IsLive}
use webdis.Websocket.Receiving.{Extracted, ws_peek_data-client_frame}
use webdis.Websocket.Rfc.{Key, IsFrame, client_frame, read_frame}
use webdis.Websocket.Sending.{read_frame-frame_bytes, read_frame-frame_bytes_65536}
use webdis.Prelude.{
  ℕ, ◌≡◌, refl, true, false, Option, none, some, [], ◌∷◌, ◌++◌, arith, length, take, replicate,
  length-replicate,
}

abbrev key : Key
key = record { k0 = 55; k1 = 250; k2 = 33; k3 = 61 }

abbrev ping_json : Bytes
ping_json = codes "[\"PING\"]"

abbrev connected_client : Bytes → WsClient
connected_client rbuf = record {
  http_client = local_client;
  scheduled_read = false;
  scheduled_write = false;
  rbuf = rbuf;
  wbuf = [];
  ac = some 100;
  cmd = none;
  close_after_events = false;
  ran_subscribe = false;
  freed = false;
  sent = [];
  disconnected = [];
}

ping_json-IsFrame : IsFrame 1 key ping_json
ping_json-IsFrame = record {
  opcode_lt = omega arith;
  key = (omega arith, omega arith, omega arith, omega arith);
  octets = ground arith;
  length_lt = omega arith;
}

-- A frame, and the first two bytes of another.
abbrev received : WsClient
received = connected_client (client_frame true 1 key ping_json ++ (129 ∷ 130 ∷ []))

ws_peek_data-client_frame_example :
    Extracted true 1 ping_json (129 ∷ 130 ∷ []) received (ws_peek_data received true)
ws_peek_data-client_frame_example =
    ws_peek_data-client_frame true 1 key ping_json (129 ∷ 130 ∷ []) received ping_json-IsFrame refl

read_frame-frame_bytes_example :
    read_frame (frame_bytes 1 (codes "+OK") ++ (129 ∷ [])) ≡ some (1, codes "+OK", 129 ∷ [])
read_frame-frame_bytes_example =
    read_frame-frame_bytes 1 (codes "+OK") (129 ∷ []) (omega arith) (omega arith)
      (λ e. absurd (omega arith))

abbrev zeros : Bytes
zeros = replicate 65536 0

many_zeros : length zeros ≡ 65536
many_zeros = length-replicate {A = ℕ} 65536 0

read_frame-frame_bytes_65536_example :
    read_frame (frame_bytes 1 (zeros) ++ (129 ∷ [])) ≡ some (1, [], zeros ++ (129 ∷ []))
read_frame-frame_bytes_65536_example =
    read_frame-frame_bytes_65536 1 (zeros) (129 ∷ []) (omega arith) many_zeros

-- Stands for `json_loads`: the one text of these tests.
abbrev loads : Bytes → Option JsonText
loads s = some (json_array (json_string (codes "PING") ∷ []))

abbrev ws_processed : Processed
ws_processed =
    ws_process_read_data (conf (debug_off ∷ [])) loads (λ p. reader_error) (λ code msg. msg)
      received

-- Stand for SHA-1 and for the base64 encoder, which puts a line end last.
abbrev digest : Bytes → Bytes
digest s = take 20 s

abbrev encoder : Bytes → Bytes
encoder s = s ++ (10 ∷ [])

abbrev upgrading : HttpClient
upgrading = record local_client {
  headers =
      record { key = codes "Host"; val = some (codes "localhost") }
      ∷ record { key = codes "Sec-WebSocket-Key"; val = some (codes "dGhlIHNhbXBsZSBub25jZQ==") }
      ∷ [];
}

abbrev fresh : WsClient
fresh = (ws_client_new pool_conf two_slots 0 (accepted 9) upgrading).0

abbrev greeting : HandshakeReply
greeting = record {
  handshake = codes "dGhlIHNhbXBsZSBub25j";
  origin = [];
  host = codes "localhost";
  path = codes "/";
}

abbrev greeted : WsClient
greeted = record fresh { scheduled_write = true; wbuf = reply_bytes greeting }

fresh-greeted : ws_handshake_reply digest encoder fresh ≡ some greeted
unfolding ws_handshake_reply ws_client_new find_header strncasecmp_eq
fresh-greeted = refl

abbrev all_written : WsClient
all_written = record greeted { scheduled_write = false; scheduled_read = true; wbuf = [] }

greeted_written :
    ws_can_write (conf []) loads (λ p. reader_error) (λ code msg. msg) greeted 200
    ≡ some all_written
unfolding ws_can_write reply_bytes ws_client_new ws_process_read_data ws_peek_data
greeted_written = refl

Reach-IsLive_example : IsLive all_written
Reach-IsLive_example =
    Reach-IsLive (conf []) loads (λ p. reader_error) (λ code msg. msg) digest encoder pool_conf
      two_slots 0 (accepted 9) upgrading greeted all_written fresh-greeted
      (next here (write 200 refl greeted_written))

length-reply_bytes_example : length (reply_bytes greeting) ≡ reply_size greeting
length-reply_bytes_example = length-reply_bytes greeting
