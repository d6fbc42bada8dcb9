-- ===== src/Formats/Replies.antt =====
-- The callbacks of src/formats/raw.c, msgpack.c and custom-type.c, beside that of json.c: from the reply of hiredis to what
-- is sent. A reply is NULL when the link to Redis is broken.
use webdis.Cmd.{Cmd, World, cmd_is_subscribe, cmd_free}
use webdis.Formats.Custom.{custom_type_reply, Answer}
use webdis.Formats.Json.{Jansson}
use webdis.Formats.JsonReply.{json_reply}
use webdis.Formats.Msgpack.{Pack, msgpack_wrap_redis_reply}
use webdis.Formats.Raw.{raw_wrap}
use webdis.Formats.Send.{Effect, format_send_reply, format_send_error}
use webdis.Http.{
  HttpResponse, header, http_response_init, http_response_set_keep_alive, http_response_write,
}
use webdis.Prelude.Text.{Bytes, codes}
use webdis.Reply.{Reply}
use webdis.State.{Conf}
use webdis.Prelude.{
  All, ℕ, ◌≡◌, refl, Bool, true, false, Option, none, some, List, [], ◌∷◌, map, arith,
  if◌then◌else◌, take,
}

-- The digest of MD5, the bytes that the MessagePack library makes of its calls, and
-- `close_after_events` of the command's WebSocket.
module _ {J : Type 0} (jansson : Jansson J) (md5 : Bytes → List ℕ) (packed : List Pack → Bytes)
    (cfg : Conf) (closing : Bool) where
  unfoldable pub raw_reply : World → ℕ → Cmd → Option Reply → World × List Effect
  unfolding format_send_error format_send_reply raw_wrap
  raw_reply w h cmd none = format_send_error cfg closing w h cmd 503 (codes "Service Unavailable")
  raw_reply w h cmd (some r) =
      let out = raw_wrap r in
      format_send_reply md5 cfg w h cmd (take out.sz out.bytes) (codes "binary/octet-stream")

  unfoldable pub msgpack_reply : World → ℕ → Cmd → Option Reply → World × List Effect
  unfolding format_send_error format_send_reply msgpack_wrap_redis_reply
  msgpack_reply w h cmd none =
      format_send_error cfg closing w h cmd 503 (codes "Service Unavailable")
  msgpack_reply w h cmd (some r) =
      format_send_reply md5 cfg w h cmd (packed (msgpack_wrap_redis_reply cmd r))
        (codes "application/x-msgpack")

  -- The version of the request is not set.
  unfoldable pub bad_request_response : Cmd → HttpResponse
  unfolding http_response_init http_response_set_keep_alive
  bad_request_response cmd =
      http_response_set_keep_alive
        (header (codes "Content-Length") (codes "0")
          (http_response_init true 400 (codes "Bad Request")))
        cmd.keep_alive

  unfoldable pub custom_answer : World → ℕ → Cmd → Answer → World × List Effect
  unfolding format_send_error format_send_reply bad_request_response http_response_write
      cmd_is_subscribe cmd_free
  custom_answer w h cmd (Answer.send_error code msg) =
      format_send_error cfg closing w h cmd code msg
  custom_answer w h cmd (Answer.send_reply p mime) = format_send_reply md5 cfg w h cmd p mime
  custom_answer w h cmd Answer.bad_request = (
    if cmd_is_subscribe cmd then w else cmd_free cfg w h,
    map Effect.http (http_response_write (bad_request_response cmd) cmd.fd),
  )

  -- What each of the four callbacks does with one reply.
  unfoldable pub callbacks : World → ℕ → Cmd → Option Reply → List (World × List Effect)
  unfolding json_reply raw_reply msgpack_reply custom_answer custom_type_reply
  callbacks w h cmd r =
      json_reply jansson md5 cfg closing w h cmd r
      ∷ raw_reply w h cmd r
      ∷ msgpack_reply w h cmd r
      ∷ custom_answer w h cmd (custom_type_reply cmd.mime cmd.separator r)
      ∷ []

  -- A command of an HTTP client that waits for one reply.
  pub record IsSingle (cmd : Cmd) (fd : ℕ) : Type 0 where
    pub plain : cmd.is_websocket ≡ false
    pub not_subscribe : cmd_is_subscribe cmd ≡ false
    pub attached : cmd.fd ≡ some fd

  -- The command is freed, with one response to its descriptor.
  abbrev pub IsOnce : World → ℕ → ℕ → World × List Effect → Type 0
  IsOnce w h fd (w', effects) =
      (w' ≡ cmd_free cfg w h)
      × ((r : HttpResponse) × (effects ≡ Effect.http (record { fd = fd; response = r }) ∷ []))

  module _ (w : World) (h fd : ℕ) (cmd : Cmd) (single : IsSingle cmd fd) where
    not_pub_sub : cmd.pub_sub_client ≡ false
    unfolding cmd_is_subscribe
    not_pub_sub = ground (arith, single.not_subscribe)

    send_reply-IsOnce : (p ct : Bytes) → IsOnce w h fd (format_send_reply md5 cfg w h cmd p ct)
    unfolding format_send_reply http_response_write
    send_reply-IsOnce p ct =
        rw (single.plain, single.not_subscribe, single.attached) (refl, (_, refl))

    send_error-IsOnce :
        (code : ℕ) (msg : Bytes) → IsOnce w h fd (format_send_error cfg closing w h cmd code msg)
    unfolding format_send_error http_response_write
    send_error-IsOnce code msg = rw (single.plain, not_pub_sub, single.attached) (refl, (_, refl))

    custom_answer-IsOnce : (a : Answer) → IsOnce w h fd (custom_answer w h cmd a)
    unfolding custom_answer http_response_write
    custom_answer-IsOnce (Answer.send_error code msg) = send_error-IsOnce code msg
    custom_answer-IsOnce (Answer.send_reply p mime) = send_reply-IsOnce p mime
    custom_answer-IsOnce Answer.bad_request =
        rw (single.not_subscribe, single.attached) (refl, (_, refl))

    -- A command of an HTTP client that waits for one reply is freed, with exactly one response to its
    -- descriptor, by each of the four callbacks, whatever the reply and when the link is broken.
    pub callbacks-IsOnce : (r : Option Reply) → All (IsOnce w h fd) (callbacks w h cmd r)
    unfolding callbacks
    callbacks-IsOnce none =
        let down = send_error-IsOnce 503 (codes "Service Unavailable") in
        (
          down,
          (
            down,
            (down, (custom_answer-IsOnce (custom_type_reply cmd.mime cmd.separator none), tt)),
          ),
        )
    callbacks-IsOnce (some r) =
        let last = custom_answer-IsOnce (custom_type_reply cmd.mime cmd.separator (some r)) in
        (send_reply-IsOnce _ _, (send_reply-IsOnce _ _, (send_reply-IsOnce _ _, (last, tt))))
