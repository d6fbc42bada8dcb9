-- ===== src/Formats/JsonStreams.antt =====
-- src/formats/json.c: the forms of XREAD, XPENDING and GEORADIUS.
use webdis.Formats.Json.{
  Jansson, str_of, string_new, object_set, append_some, json_singlestream_list,
}
use webdis.Prelude.Text.{Bytes, codes}
use webdis.Reply.{Reply, Elements}
use webdis.Prelude.{Option, none, some, leb, if◌then◌else◌, length}

module _ {J : Type 0} (jansson : Jansson J) where
  open jansson use {
    json_object, json_array, json_true, json_false, json_null, json_integer, json_string,
    json_object_set_new, json_array_append_new, json_dumps,
  }

  -- One stream of XREAD.
  unfoldable pub xread_member : J → Reply → J
  unfolding object_set json_singlestream_list
  xread_member o
        (Reply.array (Elements.item (Reply.string sid) (Elements.item (Reply.array msgs) es))) =
      if leb 1 (length sid)
      then object_set jansson o sid (some (json_singlestream_list jansson msgs))
      else o
  xread_member o _ = o

  unfoldable pub xread_onto : J → Elements → J
  unfolding xread_member
  xread_onto o Elements.end = o
  xread_onto o (Elements.item e es) = xread_onto (xread_member o e) es

  -- No streams are no object.
  unfoldable pub json_xreadstream_list : Elements → Option J
  unfolding xread_onto
  json_xreadstream_list Elements.end = none
  json_xreadstream_list (Elements.item e es) = some (xread_onto json_object (Elements.item e es))

  -- A member that is set only for a string, or only for an integer.
  unfoldable pub set_string : Bytes → Reply → J → J
  unfolding string_new
  set_string k (Reply.string s) o = json_object_set_new o k (string_new jansson s)
  set_string k _ o = o

  unfoldable pub set_integer : Bytes → Reply → J → J
  set_integer k (Reply.integer n) o = json_object_set_new o k (some (json_integer n))
  set_integer k _ o = o

  -- One consumer of XPENDING.
  unfoldable pub consumer_member : J → Reply → J
  unfolding object_set string_new
  consumer_member o
        (Reply.array (Elements.item (Reply.string own) (Elements.item (Reply.string msgs) es))) =
      object_set jansson o own (string_new jansson msgs)
  consumer_member o
        (Reply.array (Elements.item (Reply.string own) (Elements.item (Reply.integer msgs) es))) =
      object_set jansson o own (some (json_integer msgs))
  consumer_member o _ = o

  unfoldable pub consumers_onto : J → Elements → J
  unfolding consumer_member
  consumers_onto o Elements.end = o
  consumers_onto o (Elements.item e es) = consumers_onto (consumer_member o e) es

  unfoldable pub set_consumers : Reply → J → J
  unfolding consumers_onto
  set_consumers (Reply.array es) o =
      json_object_set_new o (codes "msgsperconsumer") (some (consumers_onto json_object es))
  set_consumers _ o = o

  -- One message of the long form of XPENDING.
  unfoldable pub pending_entry : Reply → Option J
  unfolding set_string set_integer
  pending_entry
        (Reply.array (
          Elements.item id
            (Elements.item owner (Elements.item elapsed (Elements.item deliveries es))))) =
      some (
        set_integer (codes "deliveries") deliveries (
          set_integer (codes "elapsedtime") elapsed
            (set_string (codes "owner") owner (set_string (codes "id") id json_object))))
  pending_entry _ = none

  unfoldable pub pending_onto : J → Elements → J
  unfolding pending_entry
  pending_onto l Elements.end = l
  pending_onto l (Elements.item e es) = pending_onto (append_some jansson l (pending_entry e)) es

  -- The short form has a number first, and at least four elements.
  unfoldable pub json_xpending_list : Elements → J
  unfolding set_string set_consumers pending_onto
  json_xpending_list
        (Elements.item
          (Reply.integer n)
          (Elements.item idmin (Elements.item idmax (Elements.item consumers es)))) =
      set_consumers consumers (
        set_string (codes "idmax") idmax (
          set_string (codes "idmin") idmin
            (json_object_set_new json_object (codes "msgs") (some (json_integer n)))))
  json_xpending_list es = pending_onto json_array es

  -- What an element of GEORADIUS adds behind the name.
  unfoldable pub geo_member : J → Reply → J
  unfolding string_new
  geo_member o (Reply.integer n) = json_object_set_new o (codes "hash") (some (json_integer n))
  geo_member o (Reply.string s) = json_object_set_new o (codes "dist") (string_new jansson s)
  geo_member o
        (Reply.array
          (Elements.item (Reply.string x) (Elements.item (Reply.string y) Elements.end))) =
      json_object_set_new o (codes "coords") (
        some (
          json_array_append_new (json_array_append_new json_array (string_new jansson x))
            (string_new jansson y)))
  geo_member o _ = o

  unfoldable pub geo_onto : J → Elements → J
  unfolding geo_member
  geo_onto o Elements.end = o
  geo_onto o (Elements.item e es) = geo_onto (geo_member o e) es

  unfoldable pub string_or_null : Option Bytes → Option J
  unfolding string_new
  string_or_null none = none
  string_or_null (some s) = string_new jansson s

  unfoldable pub geo_entry : Reply → Option J
  unfolding geo_onto string_or_null
  geo_entry (Reply.array (Elements.item name es)) =
      some (
        geo_onto (json_object_set_new json_object (codes "name") (string_or_null (str_of name))) es)
  geo_entry _ = none

  unfoldable pub georadius_onto : J → Elements → J
  unfolding geo_entry
  georadius_onto l Elements.end = l
  georadius_onto l (Elements.item e es) = georadius_onto (append_some jansson l (geo_entry e)) es

  unfoldable pub json_georadius_with_list : Elements → J
  unfolding georadius_onto
  json_georadius_with_list es = georadius_onto json_array es
