-- ===== src/Cmd/Extension.antt =====
-- `cmd_select_format` of src/cmd.c: the extension of the URI chooses how the reply is formatted.
use webdis.Cmd.{Format, json_reply, raw_reply, msgpack_reply, custom_type_reply}
use webdis.Prelude.Text.{Bytes, codes, strncmp_eq}
use webdis.Prelude.{
  ℕ, zero, suc, ◌+◌, ◌-◌, ◌&&◌, Option, none, some, List, [], ◌∷◌, ◌==◌, if◌then◌else◌, length,
  get_or, drop,
}

-- One line of the table: the extension, the callback, the content type.
pub record ReplyFormat : Type 0 where
  pub s : Bytes
  pub f : Format
  pub ct : Bytes

abbrev pub reply_format : Bytes → Format → Bytes → ReplyFormat
reply_format s f ct = record { s = s; f = f; ct = ct }

-- The table, for a build with MSGPACK.
abbrev pub funs : List ReplyFormat
funs =
    reply_format (codes "json") json_reply (codes "application/json")
    ∷ reply_format (codes "raw") raw_reply (codes "binary/octet-stream")
    ∷ reply_format (codes "msg") msgpack_reply (codes "application/x-msgpack")
    ∷ reply_format (codes "bin") custom_type_reply (codes "binary/octet-stream")
    ∷ reply_format (codes "txt") custom_type_reply (codes "text/plain")
    ∷ reply_format (codes "html") custom_type_reply (codes "text/html")
    ∷ reply_format (codes "xhtml") custom_type_reply (codes "application/xhtml+xml")
    ∷ reply_format (codes "xml") custom_type_reply (codes "text/xml")
    ∷ reply_format (codes "png") custom_type_reply (codes "image/png")
    ∷ reply_format (codes "jpg") custom_type_reply (codes "image/jpeg")
    ∷ reply_format (codes "jpeg") custom_type_reply (codes "image/jpeg")
    ∷ reply_format (codes "js") json_reply (codes "application/javascript")
    ∷ reply_format (codes "css") custom_type_reply (codes "text/css")
    ∷ []

-- The loop from `uri + i` back to `uri`, which is not looked at: the offset behind the last dot of
-- the last part of the path.
unfoldable pub find_ext : Bytes → ℕ → Option ℕ
find_ext uri zero = none
find_ext uri (suc i) =
    let c = get_or uri (suc i) 0 in
    let before = find_ext uri i in
    if c == b'/' then none else if c == b'.' then some (suc i + 1) else before

-- The loop over the table; `cmd->mime` and `*f_format` keep the last match.
unfoldable pub match_format : Bytes → ℕ → Option ReplyFormat → List ReplyFormat → Option ReplyFormat
match_format ext ext_len found [] = found
match_format ext ext_len found (r ∷ rs) =
    match_format ext ext_len
      (if (ext_len == length r.s) && strncmp_eq ext r.s ext_len then some r else found) rs

-- What is left of the URI's length, the callback, and the content type that is set on the command.
pub record Selected : Type 0 where
  pub uri_len : ℕ
  pub f_format : Format
  pub mime : Option Bytes

abbrev pub forced : Option Bytes → Format → Format
forced none f = f
forced (some t) f = custom_type_reply

unfoldable pub selected : Option Bytes → ℕ → ℕ → Option ReplyFormat → Selected
selected type uri_len ext_len none = record {
  uri_len = uri_len;
  f_format = forced type json_reply;
  mime = none;
}
selected type uri_len ext_len (some r) = record {
  uri_len = uri_len - ext_len - 1;
  f_format = forced type r.f;
  mime = some r.ct;
}

-- `type` is `client->type`. With no dot `ext_len` is -1, which no line of the table has; with an
-- empty extension the function returns before it looks at `type`.
unfoldable pub select_at : Option Bytes → Bytes → ℕ → Option ℕ → Selected
unfolding match_format selected
select_at type uri uri_len none = selected type uri_len 0 none
select_at type uri uri_len (some ext) =
    if uri_len - ext == 0
    then record { uri_len = uri_len; f_format = json_reply; mime = none }
    else selected type uri_len (uri_len - ext)
        (match_format (drop ext uri) (uri_len - ext) none funs)

-- The URI is never empty here, but for a PUT on "/": there the byte before it is the slash that
-- ends the search at once.
unfoldable pub cmd_select_format : Option Bytes → Bytes → ℕ → Selected
unfolding find_ext select_at
cmd_select_format type uri uri_len = select_at type uri uri_len (find_ext uri (uri_len - 1))
