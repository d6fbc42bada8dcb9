-- ===== src/Cmd/Transfer.antt =====
-- `cmd_setup` of src/cmd.c: what a command takes over from its client.
use webdis.Cmd.{Cmd}
use webdis.Prelude.Text.{Bytes, codes, strcasecmp_eq}
use webdis.State.{Header, HttpClient}
use webdis.Prelude.{Bool, true, false, ◌&&◌, Option, none, some, List, [], ◌∷◌, if◌then◌else◌}

-- An absent value is no "Keep-Alive" (the source hands its NULL to `strcasecmp`).
abbrev pub val_is : Option Bytes → Bytes → Bool
val_is none text = false
val_is (some v) text = strcasecmp_eq v text

abbrev pub copied : Option Bytes → Bytes
copied none = []
copied (some v) = v

-- What one header sets.
unfoldable pub setup_header : Cmd → Header → Cmd
setup_header cmd h =
    if strcasecmp_eq h.key (codes "If-None-Match")
    then record cmd { if_none_match = some (copied h.val) }
    else if strcasecmp_eq h.key (codes "Connection") && val_is h.val (codes "Keep-Alive")
    then record cmd { keep_alive = true }
    else cmd

-- The loop over the headers.
unfoldable pub setup_headers : Cmd → List Header → Cmd
unfolding setup_header
setup_headers cmd [] = cmd
setup_headers cmd (h ∷ hs) = setup_headers (setup_header cmd h) hs

abbrev pub or_else : Option Bytes → Option Bytes → Option Bytes
or_else none old = old
or_else (some v) old = some v

abbrev pub given : Option Bytes → Bool → Bool
given none old = old
given (some v) old = true

-- The strings of the query string move from the client to the command.
unfoldable pub cmd_setup : Cmd → HttpClient → Cmd × HttpClient
unfolding setup_headers
cmd_setup cmd client =
    let c = setup_headers (record cmd { keep_alive = client.keep_alive }) client.headers in
    (
      record c {
        mime = or_else client.mime c.mime;
        mime_free = given client.mime c.mime_free;
        jsonp = or_else client.jsonp c.jsonp;
        separator = or_else client.separator c.separator;
        filename = or_else client.filename c.filename;
        fd = some client.fd;
        http_version = client.http_version;
      },
      record client { mime = none; jsonp = none; separator = none; filename = none },
    )
