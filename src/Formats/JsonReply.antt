-- ===== src/Formats/JsonReply.antt =====
-- src/formats/json.c: the root of every reply, and the text that is sent.
use webdis.Cmd.{Cmd, World}
use webdis.Formats.Json.{
  Jansson, verb_of, string_new, json_info_reply, json_expand_array, json_array_to_keyvalue_reply,
  json_singlestream_list,
}
use webdis.Formats.JsonStreams.{json_xreadstream_list, json_xpending_list, json_georadius_with_list}
use webdis.Formats.Send.{Effect, format_send_reply, format_send_error}
use webdis.Prelude.Int.{pos}
use webdis.Prelude.Text.{Bytes, codes, strcasecmp_eq, strncasecmp_eq}
use webdis.Reply.{Reply, Elements}
use webdis.State.{Conf}
use webdis.Prelude.{
  ℕ, Bool, true, false, ◌&&◌, ◌||◌, Option, none, some, List, ◌∷◌, ◌++◌, if◌then◌else◌,
}

abbrev pub is_array : Reply → Bool
is_array (Reply.array es) = true
is_array _ = false

abbrev pub first_is_array : Elements → Bool
first_is_array Elements.end = false
first_is_array (Elements.item e es) = is_array e

unfoldable pub is_verb : Bytes → Bytes → Bool
unfolding strcasecmp_eq
is_verb verb name = strcasecmp_eq verb name

module _ {J : Type 0} (jansson : Jansson J) where
  open jansson use {
    json_object, json_array, json_true, json_false, json_null, json_integer, json_string,
    json_object_set_new, json_array_append_new, json_dumps,
  }

  -- The value for an array: `none` leaves the root empty.
  unfoldable pub array_value : Bytes → Elements → Option J
  unfolding json_array_to_keyvalue_reply json_singlestream_list json_xreadstream_list
      json_xpending_list json_georadius_with_list json_expand_array strncasecmp_eq is_verb
  array_value verb es =
      if is_verb verb (codes "HGETALL")
      then json_array_to_keyvalue_reply jansson es
      else if is_verb verb (codes "XRANGE")
          || is_verb verb (codes "XREVRANGE")
          || (is_verb verb (codes "XCLAIM") && first_is_array es)
      then some (json_singlestream_list jansson es)
      else if is_verb verb (codes "XREAD") || is_verb verb (codes "XREADGROUP")
      then json_xreadstream_list jansson es
      else if is_verb verb (codes "XPENDING")
      then some (json_xpending_list jansson es)
      else if strncasecmp_eq verb (codes "GEORADIUS") 9 && first_is_array es
      then some (json_georadius_with_list jansson es)
      else some (json_expand_array jansson es)

  abbrev pub set_some : J → Bytes → Option J → J
  set_some o k none = o
  set_some o k (some j) = json_object_set_new o k (some j)

  unfoldable pub status_value : J → Bytes → J
  unfolding string_new
  status_value ok s =
      json_array_append_new (json_array_append_new json_array (some ok)) (string_new jansson s)

  unfoldable pub json_wrap_redis_reply : Cmd → Reply → J
  unfolding verb_of status_value json_info_reply string_new array_value is_verb
  json_wrap_redis_reply cmd (Reply.status s) =
      json_object_set_new json_object (verb_of cmd) (some (status_value json_true s))
  json_wrap_redis_reply cmd (Reply.error s) =
      json_object_set_new json_object (verb_of cmd) (some (status_value json_false s))
  json_wrap_redis_reply cmd (Reply.string s) = json_object_set_new json_object (verb_of cmd) (
      if is_verb (verb_of cmd) (codes "INFO")
      then some (json_info_reply jansson s)
      else string_new jansson s)
  json_wrap_redis_reply cmd (Reply.integer n) =
      json_object_set_new json_object (verb_of cmd) (some (json_integer n))
  json_wrap_redis_reply cmd (Reply.array es) =
      set_some json_object (verb_of cmd) (array_value (verb_of cmd) es)
  json_wrap_redis_reply cmd _ = json_object_set_new json_object (verb_of cmd) (some json_null)

  -- With the JSONP wrapper, if one is asked for.
  unfoldable pub json_string_output : J → Option Bytes → Bytes
  json_string_output j none = json_dumps j
  json_string_output j (some jsonp) = jsonp ++ (b'(' ∷ (json_dumps j ++ codes ");\n"))

  unfoldable pub json_reply :
      (Bytes → List ℕ) → Conf → Bool → World → ℕ → Cmd → Option Reply → World × List Effect
  unfolding format_send_error format_send_reply json_wrap_redis_reply json_string_output
  json_reply md5 cfg closing w h cmd none =
      format_send_error cfg closing w h cmd 503 (codes "Service Unavailable")
  json_reply md5 cfg closing w h cmd (some r) =
      format_send_reply md5 cfg w h cmd (json_string_output (json_wrap_redis_reply cmd r) cmd.jsonp)
        (codes "application/json")

  unfoldable pub json_ws_error : ℕ → Bytes → Bytes
  unfolding json_string_output
  json_ws_error http_status msg =
      json_string_output
        (json_object_set_new
          (json_object_set_new (json_object_set_new json_object (codes "error") (some json_true))
            (codes "message") (json_string msg))
          (codes "http_status") (some (json_integer (pos http_status))))
        none
