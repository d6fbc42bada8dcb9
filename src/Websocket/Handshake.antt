-- ===== src/Websocket/Handshake.antt =====
-- The handshake of src/websocket.c: `ws_client_new`, `ws_compute_handshake` and
-- `ws_handshake_reply`. SHA-1 and the base64 encoder are parameters.
use webdis.Acl.{client_get_header}
use webdis.Pool.{Pool, PoolConf, Connecting, Setup, pool_connect}
use webdis.Prelude.Text.{Bytes, codes}
use webdis.State.{HttpClient}
use webdis.Websocket.{WsClient, ws_schedule_write}
use webdis.Prelude.{
  ℕ, ◌+◌, ◌≡◌, false, not, ◌||◌, Option, none, some, List, [], ◌∷◌, ◌++◌, arith, ltb, ◌==◌,
  if◌then◌else◌, length, length-append, take,
}

-- The client that has a connection to Redis of its own, if one could be made; the commands queued
-- on it; the pool.
unfoldable pub ws_client_new :
    PoolConf → Pool → ℕ → Connecting → HttpClient → WsClient × List Setup × Pool
unfolding pool_connect
ws_client_new cfg p db_num answer http_client =
    let (ac, queued, p') = pool_connect cfg p db_num answer in
    (
      record {
        http_client = http_client;
        scheduled_read = false;
        scheduled_write = false;
        rbuf = [];
        wbuf = [];
        ac = ac;
        cmd = none;
        close_after_events = false;
        ran_subscribe = false;
        freed = false;
        sent = [];
        disconnected = [];
      },
      queued,
      p',
    )

abbrev pub magic : Bytes
magic = codes "258EAFA5-E914-47DA-95CA-C5AB0DC85B11"

-- Without a line end that the encoder has put last.
unfoldable pub cut_newline : Bytes → Bytes
cut_newline [] = []
cut_newline (b ∷ []) = if b == 10 then [] else b ∷ []
cut_newline (b ∷ c ∷ bs) = b ∷ cut_newline (c ∷ bs)

abbrev pub template_start : Bytes
template_start =
    codes "HTTP/1.1 101 Switching Protocols\r\nUpgrade: websocket\r\nConnection: Upgrade"

abbrev pub template_accept : Bytes
template_accept = codes "\r\nSec-WebSocket-Accept: "

abbrev pub template_sec_origin : Bytes
template_sec_origin = codes "\r\nSec-WebSocket-Origin: "

abbrev pub template_loc : Bytes
template_loc = codes "\r\nSec-WebSocket-Location: ws://"

abbrev pub template_end : Bytes
template_end = codes "\r\n\r\n"

-- The strings that the reply is put together from.
pub record HandshakeReply : Type 0 where
  pub handshake : Bytes
  pub origin : Bytes
  pub host : Bytes
  pub path : Bytes

unfoldable pub reply_size : HandshakeReply → ℕ
reply_size r =
    length template_start
    + length template_accept
    + length r.handshake
    + (if not (length r.origin == 0) then length template_sec_origin + length r.origin else 0)
    + length template_loc
    + length r.host
    + length r.path
    + length template_end

unfoldable pub reply_bytes : HandshakeReply → Bytes
reply_bytes r =
    template_start
    ++ (template_accept
        ++ (r.handshake
            ++ ((if not (length r.origin == 0) then template_sec_origin ++ r.origin else [])
                ++ (template_loc ++ (r.host ++ (r.path ++ template_end))))))

abbrev pub or_header : Option Bytes → Option Bytes → Bytes
or_header none none = []
or_header none (some v) = v
or_header (some v) o = v

module _ (sha1 : Bytes → Bytes) (base64 : Bytes → Bytes) where
  -- `none` is a key that is not there or has an impossible length.
  unfoldable pub handshake_of : Option Bytes → Option Bytes
  unfolding cut_newline
  handshake_of none = none
  handshake_of (some key) =
      if ltb (length key) 16 || ltb 32 (length key)
      then none
      else some (cut_newline (base64 (sha1 (key ++ magic))))

  unfoldable pub ws_compute_handshake : HttpClient → Option Bytes
  unfolding handshake_of
  ws_compute_handshake c = handshake_of (client_get_header c (codes "Sec-WebSocket-Key"))

  -- From the strings on; `sz` bytes of the buffer are sent.
  unfoldable pub send_reply : WsClient → HandshakeReply → WsClient
  unfolding reply_size reply_bytes ws_schedule_write
  send_reply ws r =
      ws_schedule_write (record ws { wbuf = ws.wbuf ++ take (reply_size r) (reply_bytes r) })

  unfoldable pub reply_to : WsClient → Bytes → Option Bytes → Option WsClient
  unfolding ws_compute_handshake send_reply
  reply_to ws origin none = none
  reply_to ws origin (some host) =
      if (length host == 0) || (length ws.http_client.path == 0)
      then none
      else elim (ws_compute_handshake ws.http_client) [
        | none ↦ none
        | some handshake ↦ some (
            send_reply ws (record {
              handshake = handshake;
              origin = origin;
              host = host;
              path = ws.http_client.path;
            }))
      ]

  -- `none` is -1: the upgrade is refused.
  unfoldable pub ws_handshake_reply : WsClient → Option WsClient
  unfolding client_get_header reply_to
  ws_handshake_reply ws =
      reply_to ws
        (or_header (client_get_header ws.http_client (codes "Origin"))
          (client_get_header ws.http_client (codes "Sec-WebSocket-Origin")))
        (client_get_header ws.http_client (codes "Host"))

-- The reply fills the buffer that is allocated for it, to the last byte.
pub length-reply_bytes : (r : HandshakeReply) → length (reply_bytes r) ≡ reply_size r
unfolding reply_bytes reply_size
length-reply_bytes r =
    let o = if not (length r.origin == 0) then template_sec_origin ++ r.origin else [] in
    ground (
      arith,
      length-append r.handshake (o ++ (template_loc ++ (r.host ++ (r.path ++ template_end)))),
      length-append o (template_loc ++ (r.host ++ (r.path ++ template_end))),
      length-append template_sec_origin r.origin,
      length-append r.host (r.path ++ template_end),
      length-append r.path template_end,
    )
