-- ===== src/Tests/Requests.antt =====
-- Whole requests: src/cmd.c and src/worker.c.
use mathlib.Core.Option.{map}
use webdis.Acl.{find_header, acl_allow_command}
use webdis.Client.{
  http_client_on_query_string, Parsed, http_client_new, http_client_read,
  http_client_on_header_value, http_client_on_header_name, http_client_on_url,
}
use webdis.Formats.Extract.{JsonText, reader_error}
use webdis.Websocket.{ws_peek_data}
use webdis.Websocket.Execute.{ws_process_read_data}
use webdis.Worker.{http_get}
use webdis.Worker.Delivered.{outcome, before_end}
use webdis.Worker.Reading.{
  Read, upgraded, Callback, on_url, on_query_string, on_header_field, on_header_value, Reading,
  worker_can_read, run_callbacks, on_message_complete,
}
use webdis.Worker.Requests.{EndsWith, worker_can_read-request}
use webdis.Worker.Upkeep.{IsListening, Settles, worker_can_read-IsSettled}
use webdis.Cmd.{World, cmd_acl_fail, custom_type_reply}
use webdis.Cmd.Calls.{cmd_run-request}
use webdis.Cmd.Extension.{ReplyFormat, reply_format, match_format, forced}
use webdis.Cmd.Judged.{argv_of}
use webdis.Cmd.Layout.{Front, front_text, front_database, named}
use webdis.Cmd.Parse.{db_from}
use webdis.Cmd.Ready.{result, connection, sent_on}
use webdis.Cmd.Request.{Argument}
use webdis.Cmd.Run.{cmd_run, database_or}
use webdis.Cmd.Suffix.{Suffix, suffix_text, format_of}
use webdis.Cmd.Uri.{done, plus, plain}
use webdis.Prelude.Text.{Bytes, codes, memchr, strncmp_eq, strncasecmp_eq}
use webdis.Tests.Data.{debug_off, conf, pool_conf, accepted, world}
use webdis.Prelude.{
  Option, none, length, false, true, ◌≡◌, refl, some, List, [], ◌∷◌, ◌++◌, if◌then◌else◌, arith,
}

-- PUT /3/LPUSH/k/+.txt?x=1 with a body.
abbrev database : Front
database = some (codes "3", 3)

abbrev key : Argument
key = record {
  text = codes "k";
  bytes = codes "k";
  encodes = plain b'k' (λ e. absurd (omega arith)) (λ e. absurd (omega arith)) done;
  no_slash = refl;
}

abbrev space : Argument
space = record { text = codes "+"; bytes = codes " "; encodes = plus done; no_slash = refl }

abbrev text_plain : ReplyFormat
text_plain = reply_format (codes "txt") custom_type_reply (codes "text/plain")

abbrev extension : Suffix
extension = some (codes "txt", text_plain)

abbrev name : Bytes
name = codes "LPUSH"

abbrev put_uri : Bytes
put_uri =
    front_text database
    ++ (named name (key ∷ space ∷ []) ++ (suffix_text extension ++ codes "?x=1"))

put_uri_text : put_uri ≡ codes "3/LPUSH/k/+.txt?x=1"
put_uri_text = refl

cmd_run-request_example :
    result (cmd_run (conf (debug_off ∷ [])) pool_conf (accepted 9) world put_uri (codes "v")) ≡ (
      if acl_allow_command
        (argv_of name (key ∷ space ∷ []) (codes "v"))
        (conf (debug_off ∷ []))
        world.client
      then sent_on world
          (connection
            (conf (debug_off ∷ []))
            pool_conf
            (accepted 9)
            world
            (database_or (conf (debug_off ∷ [])) pool_conf (accepted 9) (front_database database))
            (argv_of name (key ∷ space ∷ []) (codes "v")))
          (forced world.client.mime (format_of extension))
          (argv_of name (key ∷ space ∷ []) (codes "v"))
      else (cmd_acl_fail, world.sent))
unfolding db_from match_format strncmp_eq
cmd_run-request_example =
    cmd_run-request (conf (debug_off ∷ [])) pool_conf (accepted 9) world database name key
      (space ∷ []) extension (codes "?x=1") (codes "v") (omega arith, refl, refl) (omega arith) refl
      (omega arith) (omega arith, refl, refl, refl) refl refl

-- GET /3/LPUSH/k/+.txt?type=text/html in one read, with a header.
abbrev fresh : World
fresh = record world { client = http_client_new 7 2130706433 }

abbrev parsed : Parsed
parsed = record { connection_close = false; http_major = 1; http_minor = 1; upgrade = false }

abbrev early : List Callback
early =
    on_url (codes "/3/LPUSH/k/+.txt?type=text/html")
    ∷ on_query_string (codes "type=text/html")
    ∷ on_header_field (codes "Host")
    ∷ on_header_value (codes "localhost")
    ∷ []

abbrev get_text : Bytes
get_text = codes "GET /3/LPUSH/k/+.txt?type=text/html HTTP/1.1\r\nHost: localhost\r\n\r\n"

abbrev parser : Bytes → Reading
parser s = record {
  callbacks = early ++ (on_message_complete http_get parsed ∷ []);
  nparsed = length s;
  connection_close = false;
}

abbrev loads : Bytes → Option JsonText
loads s = none

fresh-IsListening : IsListening fresh
unfolding http_client_new
fresh-IsListening = record { whole = refl; http = refl; empty = refl }

abbrev arrived : World
arrived = (http_client_read (conf []) fresh get_text).1

-- The type that the query string asks for is there when the request is run.
asked_for :
    (before_end (conf []) pool_conf (accepted 9) arrived early).client.mime
    ≡ some (codes "text/html")
unfolding run_callbacks http_client_new http_client_on_query_string strncmp_eq
    http_client_on_header_value http_client_on_header_name memchr
asked_for = refl

worker_can_read-request_example :
    (before_end (conf []) pool_conf (accepted 9) arrived early ≡ record fresh {
      client = (before_end (conf []) pool_conf (accepted 9) arrived early).client;
    })
    × EndsWith
        (outcome
          (conf [])
          pool_conf
          (accepted 9)
          (before_end (conf []) pool_conf (accepted 9) arrived early)
          database
          name
          key
          (space ∷ [])
          extension
          (codes "?type=text/html"))
        7
        []
        (run_callbacks (conf []) pool_conf (accepted 9) early arrived).1
        (worker_can_read
          (conf [])
          pool_conf
          (accepted 9)
          loads
          (λ s. reader_error)
          (λ n s. [])
          (λ s. s)
          (λ s. s)
          parser
          fresh
          get_text)
unfolding db_from match_format strncmp_eq http_client_new
worker_can_read-request_example =
    worker_can_read-request (conf []) pool_conf (accepted 9) loads (λ s. reader_error) (λ n s. [])
      (λ s. s) (λ s. s) parser fresh b'G'
      (codes "ET /3/LPUSH/k/+.txt?type=text/html HTTP/1.1\r\nHost: localhost\r\n\r\n") parsed early
      false database name key (space ∷ []) extension (codes "?type=text/html") [] fresh-IsListening
      refl refl tt refl refl refl (omega arith, refl, refl) (omega arith) refl (omega arith)
      (omega arith, refl, refl, refl) refl refl

-- The request for an upgrade.
abbrev upgrading : Bytes → Reading
upgrading s = record {
  callbacks =
      on_url (codes "/.json")
      ∷ on_header_field (codes "Host")
      ∷ on_header_value (codes "localhost")
      ∷ on_header_field (codes "Sec-WebSocket-Key")
      ∷ on_header_value (codes "dGhlIHNhbXBsZSBub25jZQ==")
      ∷ on_message_complete http_get (record parsed { upgrade = true })
      ∷ [];
  nparsed = length s;
  connection_close = false;
}

worker_can_read-IsSettled_example :
    Settles
      (conf [])
      pool_conf
      (accepted 9)
      loads
      (λ s. reader_error)
      (λ n s. [])
      (λ s. s)
      (λ s. s)
      (worker_can_read
        (conf [])
        pool_conf
        (accepted 9)
        loads
        (λ s. reader_error)
        (λ n s. [])
        (λ s. s)
        (λ s. s)
        upgrading
        fresh
        get_text)
unfolding run_callbacks strncmp_eq strncasecmp_eq http_client_new http_client_on_header_value
    http_client_on_header_name http_client_on_url http_client_read
worker_can_read-IsSettled_example =
    worker_can_read-IsSettled (conf []) pool_conf (accepted 9) loads (λ s. reader_error) (λ n s. [])
      (λ s. s) (λ s. s) upgrading fresh get_text fresh-IsListening (λ h. refl)

-- It succeeds: the client is handed over.
handed_over :
    map
      (λ (r : Read). r.next)
      (worker_can_read
        (conf [])
        pool_conf
        (accepted 9)
        loads
        (λ s. reader_error)
        (λ n s. [])
        (λ s. s)
        (λ s. s)
        upgrading
        fresh
        get_text)
    ≡ some upgraded
unfolding worker_can_read strncmp_eq strncasecmp_eq http_client_new find_header
    http_client_on_header_value http_client_on_header_name http_client_on_url ws_process_read_data
    ws_peek_data
handed_over = refl
