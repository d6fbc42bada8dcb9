-- ===== src/Websocket/Welcome.antt =====
-- A handshake that succeeds, in src/websocket.c: its reply is in the buffer, and nothing else changes.
use mathlib.Core.Path.{subst}
use webdis.Acl.{client_get_header}
use webdis.Formats.Extract.{JsonText, ReaderAnswer}
use webdis.Prelude.Text.{Bytes, codes}
use webdis.State.{Conf}
use webdis.Websocket.Execute.{processed, ws_process_read_data}
use webdis.Websocket.Handshake.{
  ws_handshake_reply, reply_to, send_reply, ws_compute_handshake, HandshakeReply, or_header,
}
use webdis.Websocket.Live.{IsLive, ws_schedule_write-IsLive, if_true, if_false, some_is, none_is}
use webdis.Websocket.{ws_reading, WsClient, ws_peek_data}
use webdis.Prelude.{
  true, ℕ, ◌≡◌, refl, inl, inr, false, ◌||◌, Option, none, some, [], arith, ◌==◌, Bool-cases,
  length,
}

module _ (sha1 base64 : Bytes → Bytes) (ws t : WsClient) where
  abbrev pub Welcomed : Type 0
  Welcomed = (r : HandshakeReply) × (send_reply sha1 base64 ws r ≡ t)

  reply_to-Welcomed :
      (origin : Bytes) (host : Option Bytes)
      → reply_to sha1 base64 ws origin host ≡ some t
      → Welcomed
  unfolding reply_to
  reply_to-Welcomed origin none e = absurd (none_is e)
  reply_to-Welcomed origin (some host) e =
      elim (Bool-cases ((length host == 0) || (length ws.http_client.path == 0))) [
        | inl z ↦ absurd (none_is (if_true _ _ _ z e))
        | inr z ↦ sent (ws_compute_handshake sha1 base64 ws.http_client) (if_false _ _ _ z e)
      ]
    where
      strings : Bytes → HandshakeReply
      strings h = record { handshake = h; origin = origin; host = host; path = ws.http_client.path }

      sent :
          (o : Option Bytes)
          → elim o [ none ↦ none | some h ↦ some (send_reply sha1 base64 ws (strings h)) ] ≡ some t
          → Welcomed
      sent none x = absurd (none_is x)
      sent (some h) x = (strings h, some_is x)

  pub ws_handshake_reply-Welcomed : ws_handshake_reply sha1 base64 ws ≡ some t → Welcomed
  unfolding ws_handshake_reply
  ws_handshake_reply-Welcomed e =
      reply_to-Welcomed
        (or_header (client_get_header ws.http_client (codes "Origin"))
          (client_get_header ws.http_client (codes "Sec-WebSocket-Origin")))
        (client_get_header ws.http_client (codes "Host")) e

  -- The reply waits to be written, and nothing that has been read is touched.
  pub Welcomed-kept :
      ws.freed ≡ false
      → Welcomed
      → IsLive t × (t.freed ≡ false) × (t.rbuf ≡ ws.rbuf) × (t.scheduled_write ≡ true)
  unfolding send_reply
  Welcomed-kept f (r, e) =
      subst (λ u. IsLive u × (u.freed ≡ false) × (u.rbuf ≡ ws.rbuf) × (u.scheduled_write ≡ true)) e
        (
          ws_schedule_write-IsLive (record ws { wbuf = _ }) f,
          ground arith,
          ground arith,
          ground arith,
        )

module _ (cfg : Conf) (loads : Bytes → Option JsonText) (reader : Bytes → ReaderAnswer)
    (json_ws_error : ℕ → Bytes → Bytes) where
  -- With nothing to read there is no message.
  pub ws_process_read_data-empty :
      (ws : WsClient)
      → ws.rbuf ≡ []
      → ws_process_read_data cfg loads reader json_ws_error ws ≡ processed ws_reading 0 ws
  unfolding ws_process_read_data ws_peek_data
  ws_process_read_data-empty ws e = rw e refl
