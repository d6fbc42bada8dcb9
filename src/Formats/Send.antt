-- ===== src/Formats/Send.antt =====
-- src/formats/common.c: `etag_new`, `format_send_error` and `format_send_reply`: what becomes of a
-- reply and of its command. MD5 is a parameter. Memory is found, so an entity tag is always made.
use webdis.Cmd.{Cmd, World, update, cmd_is_subscribe, cmd_free}
use webdis.Http.{
  HttpResponse, Sending, header, http_response_init, http_response_set_body,
  http_response_set_keep_alive, http_response_set_header, header_copy_value, http_response_write,
  http_response_write_chunk,
}
use webdis.Prelude.Digits.{digit}
use webdis.Prelude.Text.{Bytes, codes, strcmp_eq}
use webdis.State.{Conf}
use webdis.Websocket.{ws_binary_frame}
use webdis.Prelude.{
  ℕ, ◌/◌, ◌%◌, Bool, true, false, not, ◌&&◌, Option, none, some, List, [], ◌∷◌, map, if◌then◌else◌,
}

-- `"%.2x"` at a byte.
abbrev pub hex_pair : ℕ → Bytes → Bytes
hex_pair b s = digit (b / 16) ∷ digit (b % 16) ∷ s

abbrev pub hex_pairs : List ℕ → Bytes → Bytes
hex_pairs [] s = s
hex_pairs (b ∷ bs) s = hex_pair b (hex_pairs bs s)

-- What a reply gives to the outside: a response, or a frame for `ws_frame_and_send_response`.
pub data Effect : Type 0 where
  http : Sending → Effect
  frame : (frame_type : ℕ) (payload : Bytes) → Effect

abbrev pub with_filename : Option Bytes → HttpResponse → HttpResponse
with_filename none r = r
with_filename (some name) r =
    http_response_set_header r (codes "Content-Disposition") name header_copy_value

abbrev pub mime_or : Option Bytes → Bytes → Bytes
mime_or none content_type = content_type
mime_or (some mime) content_type = mime

abbrev pub matches : Option Bytes → Bytes → Bool
matches none etag = false
matches (some tag) etag = strcmp_eq tag etag

-- The first response of a subscription.
unfoldable pub stream_response : Cmd → Bytes → Bytes → HttpResponse
unfolding http_response_init http_response_set_header http_response_set_keep_alive
    http_response_set_body
stream_response cmd p ct =
    let r = record (http_response_init true 200 (codes "OK")) { http_version = cmd.http_version } in
    http_response_set_body
      (header (codes "Transfer-Encoding") (codes "chunked") (
        http_response_set_keep_alive
          (http_response_set_header (with_filename cmd.filename r) (codes "Content-Type") ct
            header_copy_value)
          true))
      (some p)

-- The digest of MD5, sixteen bytes.
module _ (md5 : Bytes → List ℕ) where
  unfoldable pub etag_new : Bytes → Bytes
  etag_new p = b'"' ∷ hex_pairs (md5 p) (b'"' ∷ [])

  -- The only response of another command.
  unfoldable pub reply_response : Cmd → Bytes → Bytes → HttpResponse
  unfolding http_response_init http_response_set_header http_response_set_keep_alive
      http_response_set_body etag_new
  reply_response cmd p ct =
      let etag = etag_new p in
      let r =
        if matches cmd.if_none_match etag
        then http_response_init true 304 (codes "Not Modified")
        else http_response_set_body
            (http_response_set_header
              (http_response_set_header
                (with_filename cmd.filename (http_response_init true 200 (codes "OK")))
                (codes "Content-Type") ct header_copy_value)
              (codes "ETag") etag header_copy_value)
            (some p) in
      http_response_set_keep_alive (record r { http_version = cmd.http_version }) cmd.keep_alive

  module _ (cfg : Conf) where
    unfoldable pub format_send_reply : World → ℕ → Cmd → Bytes → Bytes → World × List Effect
    unfolding cmd_is_subscribe cmd_free stream_response reply_response http_response_write
        http_response_write_chunk
    format_send_reply w h cmd p content_type =
        let ct = mime_or cmd.mime content_type in
        if cmd.is_websocket
        then (
          if cmd_is_subscribe cmd then w else cmd_free cfg w h,
          Effect.frame ws_binary_frame p ∷ [],
        )
        else if cmd_is_subscribe cmd
        then (if cmd.started_responding
            then (w, map Effect.http (http_response_write_chunk cmd.fd p))
            else (
              record w { cmds = update w.cmds h (some (record cmd { started_responding = true })) },
              map Effect.http (http_response_write (stream_response cmd p ct) cmd.fd),
            ))
        else (
          cmd_free cfg w h,
          map Effect.http (http_response_write (reply_response cmd p ct) cmd.fd),
        )

-- `closing` is `close_after_events` of the command's WebSocket.
module _ (cfg : Conf) where
  unfoldable pub error_effects : Bool → Cmd → ℕ → Bytes → List Effect
  unfolding http_response_init http_response_set_keep_alive http_response_write
  error_effects closing cmd code msg =
      if not cmd.is_websocket && not cmd.pub_sub_client
      then map Effect.http (
          http_response_write
            (http_response_set_keep_alive
              (record (http_response_init true code msg) { http_version = cmd.http_version })
              cmd.keep_alive)
            cmd.fd)
      else if cmd.is_websocket && not closing
      then Effect.frame ws_binary_frame msg ∷ []
      else []

  unfoldable pub format_send_error : Bool → World → ℕ → Cmd → ℕ → Bytes → World × List Effect
  unfolding error_effects cmd_free
  format_send_error closing w h cmd code msg = (
    if cmd.is_websocket
        then w
        else if cmd.pub_sub_client
        then record w { client = record (w.client) { reused_cmd = none } }
        else cmd_free cfg w h,
    error_effects closing cmd code msg,
  )
