-- ===== src/Formats/Answer.antt =====
-- src/formats/common.c with src/http.c: the response to a command as a client understands it.
use webdis.Cmd.{Cmd, World, cmd_is_subscribe, cmd_free}
use webdis.Formats.Send.{
  Effect, with_filename, mime_or, matches, etag_new, reply_response, format_send_reply,
}
use webdis.Http.{
  HttpResponse, Sending, http_response_init, http_response_set_body, http_response_set_keep_alive,
  http_response_set_header, header_copy_value, find_dupe, format_response, http_response_write,
}
use webdis.Http.Length.{IsPlain, message_of}
use webdis.Http.Reader.{Message, lookup_field, read_message}
use webdis.Http.Written.{read_message-format_response}
use webdis.Prelude.Text.{Bytes, codes, strcmp_eq, strncmp_eq, strcasecmp_eq}
use webdis.State.{Conf}
use webdis.Prelude.{
  ℕ, ◌^◌, ◌<◌, ◌≡◌, refl, ◌⊎◌, inl, inr, true, false, Option, none, some, List, [], ◌∷◌, ◌++◌,
  arith, Bool-cases, length,
}
use webdis.Formats.Promise.{
  answer_of, connection_of, promised, is_value, is_value_or_none, connection-is_value,
  etag-is_value,
}

not_modified : (cmd : Cmd) → HttpResponse
unfolding http_response_init http_response_set_keep_alive
not_modified cmd =
    http_response_set_keep_alive
      (record (http_response_init true 304 (codes "Not Modified")) {
        http_version = cmd.http_version;
      })
      cmd.keep_alive

not_modified-IsPlain : (cmd : Cmd) → IsPlain (not_modified cmd)
unfolding not_modified find_dupe lookup_field strncmp_eq strcasecmp_eq strcmp_eq
not_modified-IsPlain cmd = record {
  code_ge = omega arith;
  code_lt = omega arith;
  one_line = refl;
  fields = rw (connection-is_value cmd.keep_alive);
  whole = refl;
  no_length = refl;
  no_length_field = refl;
  announced = inr refl;
  size = omega arith;
}

module _ (md5 : Bytes → List ℕ) (cmd : Cmd) (p ct : Bytes) where
  success : Option Bytes → HttpResponse
  unfolding http_response_init http_response_set_header http_response_set_keep_alive
      http_response_set_body
  success filename =
      http_response_set_keep_alive
        (record (http_response_set_body
          (http_response_set_header
            (http_response_set_header
              (with_filename filename (http_response_init true 200 (codes "OK")))
              (codes "Content-Type") ct header_copy_value)
            (codes "ETag") (etag_new md5 p) header_copy_value)
          (some p)) { http_version = cmd.http_version })
        cmd.keep_alive

  module _ (line : is_value ct ≡ true) (size : length p < 10 ^ 21) where
    success-IsPlain :
        (filename : Option Bytes) → is_value_or_none filename ≡ true → IsPlain (success filename)
    unfolding success find_dupe lookup_field strncmp_eq strcasecmp_eq strcmp_eq
    success-IsPlain none h = record {
      code_ge = omega arith;
      code_lt = omega arith;
      one_line = refl;
      fields = ground (arith, connection-is_value cmd.keep_alive, etag-is_value md5 p);
      whole = refl;
      no_length = refl;
      no_length_field = refl;
      announced = inl refl;
      size = size;
    }
    success-IsPlain (some name) h = record {
      code_ge = omega arith;
      code_lt = omega arith;
      one_line = refl;
      fields = ground (arith, connection-is_value cmd.keep_alive, etag-is_value md5 p);
      whole = refl;
      no_length = refl;
      no_length_field = refl;
      announced = inl refl;
      size = size;
    }

  success-answer_of :
      (filename : Option Bytes)
      → answer_of (message_of (success filename)) ≡ record {
        status = 200;
        connection = some (connection_of cmd.keep_alive);
        content_type = some ct;
        disposition = filename;
        etag = some (etag_new md5 p);
        content = p;
      }
  unfolding success answer_of strcasecmp_eq
  success-answer_of none = refl
  success-answer_of (some name) = refl

not_modified-answer_of :
    (cmd : Cmd)
    → answer_of (message_of (not_modified cmd)) ≡ record {
      status = 304;
      connection = some (connection_of cmd.keep_alive);
      content_type = none;
      disposition = none;
      etag = none;
      content = [];
    }
unfolding not_modified answer_of strcasecmp_eq
not_modified-answer_of cmd = refl

module _ (md5 : Bytes → List ℕ) where
  reply_response-cases :
      (cmd : Cmd) (p ct : Bytes)
      → ((matches cmd.if_none_match (etag_new md5 p) ≡ true)
          × (reply_response md5 cmd p ct ≡ not_modified cmd))
        ⊎ ((matches cmd.if_none_match (etag_new md5 p) ≡ false)
            × (reply_response md5 cmd p ct ≡ success md5 cmd p ct cmd.filename))
  unfolding reply_response not_modified success
  reply_response-cases cmd p ct = elim (Bool-cases (matches cmd.if_none_match (etag_new md5 p))) [
    | inl e ↦ inl (e, rw e)
    | inr e ↦ inr (e, rw e)
  ]

  -- What the client reads of the response.
  read_message-reply_response :
      (cmd : Cmd) (p ct s : Bytes)
      → is_value ct ≡ true
      → is_value_or_none cmd.filename ≡ true
      → length p < 10 ^ 21
      → (m : Message) × (read_message ((format_response (reply_response md5 cmd p ct)).out ++ s)
          ≡ some (m, s))
        × (answer_of m ≡ promised md5 cmd p ct)
  unfolding promised
  read_message-reply_response cmd p ct s line name size = elim (reply_response-cases cmd p ct) [
    | inl (e, same) ↦ (
      message_of (not_modified cmd),
      rw same (read_message-format_response (not_modified cmd) s (not_modified-IsPlain cmd)),
      rw e (not_modified-answer_of cmd),
    )
    | inr (e, same) ↦
        let r = success md5 cmd p ct cmd.filename in
        (
          message_of r,
          rw same (
              read_message-format_response r s
                (success-IsPlain md5 cmd p ct line size cmd.filename name)),
          rw e (success-answer_of md5 cmd p ct cmd.filename),
        )
  ]

  -- A command of an HTTP client that is not a subscription, with a content type and a file name that
  -- fit on their lines and a reply of fewer than 10 ^ 21 bytes, is freed, and exactly one response
  -- goes to its descriptor. A client that reads the response finds what is promised: the bytes of
  -- the reply, with their type and their tag, or, if it has named that tag, that nothing has
  -- changed. What follows the response is left.
  pub format_send_reply-promised :
      (cfg : Conf) (w : World) (h fd : ℕ) (cmd : Cmd) (p content_type s : Bytes)
      → cmd.is_websocket ≡ false
      → cmd_is_subscribe cmd ≡ false
      → cmd.fd ≡ some fd
      → is_value (mime_or cmd.mime content_type) ≡ true
      → is_value_or_none cmd.filename ≡ true
      → length p < 10 ^ 21
      → (sending : Sending) × (m : Message) × (format_send_reply md5 cfg w h cmd p content_type
          ≡ (cmd_free cfg w h, Effect.http sending ∷ []))
        × (sending.fd ≡ fd)
        × (read_message (sending.response.out ++ s) ≡ some (m, s))
        × (answer_of m ≡ promised md5 cmd p (mime_or cmd.mime content_type))
  unfolding format_send_reply http_response_write
  format_send_reply-promised cfg w h fd cmd p content_type s ws sub has_fd line name size =
      let ct = mime_or cmd.mime content_type in
      let (m, read, says) = read_message-reply_response cmd p ct s line name size in
      (
        record { fd = fd; response = format_response (reply_response md5 cmd p ct) },
        m,
        rw (ws, sub, has_fd),
        refl,
        read,
        says,
      )
