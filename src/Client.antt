-- ===== src/Client.antt =====
-- src/client.c: a client's request as the HTTP parser hands it over, piece by piece, and the bytes
-- that are read from its socket. Memory is always found.
pub mod Headers
pub mod Query
pub mod Hangup
use webdis.Cmd.{Cmd, World, update, cmd_free}
use webdis.Prelude.Text.{Bytes, codes, memchr, strncmp_eq, strncasecmp_eq}
use webdis.State.{Header, Conf, LastCb, last_cb_none, last_cb_key, last_cb_val, HttpClient}
use webdis.Prelude.{
  ℕ, zero, suc, ◌+◌, ◌-◌, ◌*◌, ◌/◌, ◌%◌, ◌^◌, ◌≤◌, ◌<◌, min, ◌≡◌, refl, sym, ap, ◌∙◌, ◌≢◌, ◌↔◌, ◌⊎◌,
  inl, inr, Bool, true, false, not, ◌&&◌, ◌||◌, Option, none, some, List, [], ◌∷◌, ◌++◌, map,
  append-nil, append_assoc, arith, ltb, leb, ◌==◌, if◌then◌else◌, ==_iff, ltb→lt, lt→ltb, leb→le,
  Bool-cases, Option-cases, length, get_elem?, set, length-append, length-set, get_elem?-set_self,
  get_elem?-set_ne, get_or, take, drop, take-append, drop-append, replicate, take-append-drop,
  length-take, length-drop, length-replicate, length-map, All, Any,
}

unfoldable pub http_client_on_url : HttpClient → Bytes → HttpClient
http_client_on_url c piece = record c { path = c.path ++ piece }

-- `http_client_on_body` calls it.
unfoldable pub http_client_add_to_body : HttpClient → Bytes → HttpClient
http_client_add_to_body c piece = record c { body = c.body ++ piece }

-- A change of `headers[n-1]`. The parser hands over a name before a value: the list is not empty.
abbrev pub on_last : (Header → Header) → List Header → List Header
on_last f [] = []
on_last f (h ∷ []) = f h ∷ []
on_last f (h ∷ k ∷ hs) = h ∷ on_last f (k ∷ hs)

abbrev pub is_key : LastCb → Bool
is_key last_cb_key = true
is_key _ = false

abbrev pub add_to_key : Bytes → Header → Header
add_to_key piece h = record h { key = h.key ++ piece }

unfoldable pub http_client_on_header_name : HttpClient → Bytes → HttpClient
http_client_on_header_name c piece =
    let grown =
      if is_key c.last_cb then c.headers else c.headers ++ (record { key = []; val = none } ∷ []) in
    record c { headers = on_last (add_to_key piece) grown; last_cb = last_cb_key }

abbrev pub so_far : Option Bytes → Bytes
so_far none = []
so_far (some v) = v

abbrev pub add_to_val : Bytes → Header → Header
add_to_val piece h = record h { val = some (so_far h.val ++ piece) }

abbrev pub last_key : List Header → Bytes
last_key [] = []
last_key (h ∷ []) = h.key
last_key (h ∷ k ∷ hs) = last_key (k ∷ hs)

-- What is written to the client's socket on an `Expect` header.
unfoldable pub continue_bytes : Bytes → Bytes → Bytes
continue_bytes key piece =
    if strncmp_eq (codes "Expect") key (length key)
      && (length piece == 12)
      && strncasecmp_eq piece (codes "100-continue") (length piece)
    then codes "HTTP/1.1 100 Continue\r\n\r\n"
    else []

unfoldable pub asks_keep_alive : Bytes → Bytes → Bool
asks_keep_alive key piece =
    not (strncmp_eq (codes "Expect") key (length key))
    && strncasecmp_eq (codes "Connection") key (length key)
    && (length piece == 10)
    && strncasecmp_eq piece (codes "Keep-Alive") (length piece)

-- With what it writes to the socket.
unfoldable pub http_client_on_header_value : HttpClient → Bytes → HttpClient × Bytes
unfolding continue_bytes asks_keep_alive
http_client_on_header_value c piece =
    let key = last_key c.headers in
    (
      record c {
        headers = on_last (add_to_val piece) c.headers;
        last_cb = last_cb_val;
        keep_alive = c.keep_alive || asks_keep_alive key piece;
      },
      continue_bytes key piece,
    )

unfoldable pub wrap_filename : Bytes → Bytes
wrap_filename val = codes "attachment; filename=\"" ++ (val ++ (b'"' ∷ []))

abbrev pub is_text : Bytes → Bytes → Bool
is_text key text = (length key == length text) && strncmp_eq key text (length text)

-- One pair of the query string.
unfoldable pub apply_parameter : HttpClient → Bytes → Bytes → HttpClient
unfolding wrap_filename
apply_parameter c key val =
    if is_text key (codes "type")
    then record c { mime = some val }
    else if is_text key (codes "jsonp") || is_text key (codes "callback")
    then record c { jsonp = some val }
    else if is_text key (codes "sep")
    then record c { separator = some val }
    else if is_text key (codes "filename")
    then record c { filename = some (wrap_filename val) }
    else c

-- The loop, on what is left of the query string; its length bounds the rounds.
unfoldable pub query_from : ℕ → HttpClient → Bytes → HttpClient
unfolding apply_parameter
query_from zero c p = c
query_from (suc f) c p = elim (memchr p b'=' (length p)) [
  | none ↦ c
  | some eq ↦
      let key = take eq p in
      let rest = drop (eq + 1) p in
      elim (memchr rest b'&' (length rest)) [
        | none ↦ apply_parameter c key rest
        | some amp ↦ query_from f (apply_parameter c key (take amp rest)) (drop (amp + 1) rest)
      ]
]

unfoldable pub http_client_on_query_string : HttpClient → Bytes → HttpClient
unfolding query_from
http_client_on_query_string c s = query_from (length s) c s

-- `separator` is not among what is reset.
unfoldable pub http_client_reset : HttpClient → HttpClient
http_client_reset c = record c {
  headers = [];
  body = [];
  path = [];
  mime = none;
  jsonp = none;
  filename = none;
  request_sz = 0;
  last_cb = last_cb_none;
  broken = c.broken || not c.keep_alive;
}

-- What the HTTP parser knows when a message is complete.
pub record Parsed : Type 0 where
  pub connection_close : Bool
  pub http_major : ℕ
  pub http_minor : ℕ
  pub upgrade : Bool

unfoldable pub note_version : HttpClient → Parsed → HttpClient
note_version c p = record c {
  keep_alive =
      if p.connection_close
      then false
      else if (p.http_major == 1) && (p.http_minor == 1)
      then true
      else c.keep_alive;
  fully_read = c.fully_read || p.connection_close;
  http_version = p.http_minor;
}

unfoldable pub default_path : Option Bytes → Bytes → Bytes
default_path none path = path
default_path (some root) path = if is_text path (codes "/") then root else path

-- `process` is `worker_process_client`, with what it sends.
unfoldable pub http_client_on_message_complete :
    {E : Type 0} → Conf → (World → World × List E) → Parsed → World → World × List E
unfolding note_version default_path http_client_reset
http_client_on_message_complete cfg process p w =
    let c = note_version w.client p in
    if p.upgrade && cfg.websockets
    then (record w { client = record c { is_websocket = true } }, [])
    else (let (w', out) =
          process
            (record w { client = record c { path = default_path cfg.default_root c.path } }) in
        (record w' { client = http_client_reset w'.client }, out))

unfoldable pub http_client_remove_data : HttpClient → ℕ → Option HttpClient
http_client_remove_data c sz =
    if ltb (length c.buffer) sz then none else some (record c { buffer = drop sz c.buffer })

-- The command of a subscription is disconnected and freed with its client.
unfoldable pub drop_reused : Conf → World → Option (ℕ × Cmd) → World
unfolding cmd_free
drop_reused cfg w none = w
drop_reused cfg w (some (h, cmd)) = elim cmd.ac [
  | none ↦ w
  | some ac ↦
      cmd_free cfg
        (record w {
          client = record (w.client) { reused_cmd = none };
          cmds = update w.cmds h (some (record cmd { ac = none }));
          disconnected = w.disconnected ++ (ac ∷ []);
        })
        h
]

abbrev pub found : World → Option ℕ → Option (ℕ × Cmd)
found w none = none
found w (some h) = elim (w.cmds h) [ none ↦ none | some cmd ↦ some (h, cmd) ]

-- The last command may be in flight: it must not write to the socket's number again.
unfoldable pub detach_last : World → Option (ℕ × Cmd) → World
detach_last w none = w
detach_last w (some (h, cmd)) = record w {
  client = record (w.client) { last_cmd = none };
  cmds = update w.cmds h (some (record cmd { fd = none; http_client = false }));
}

-- `chunk` is what `read` gives, empty for 0 and -1. Whether the client is still there, and the
-- world.
unfoldable pub http_client_read : Conf → World → Bytes → Bool × World
unfolding drop_reused detach_last http_client_reset
http_client_read cfg w [] =
    let w1 = drop_reused cfg w (found w w.client.reused_cmd) in
    let w2 = detach_last w1 (found w1 w1.client.last_cmd) in
    (false, record w2 { client = http_client_reset w2.client })
http_client_read cfg w (b ∷ chunk) = (
  true,
  record w {
    client = record (w.client) {
      buffer = w.client.buffer ++ (b ∷ chunk);
      request_sz = w.client.request_sz + length (b ∷ chunk);
    };
  },
)

-- `parser` is `http_parser_execute` with the callbacks above: the bytes that it has taken, the world
-- that the callbacks leave, and what they send.
unfoldable pub http_client_execute :
    {E : Type 0} → (Bytes → World → ℕ × World × List E) → World → ℕ × World × List E
http_client_execute parser w =
    let (nparsed, w1, out) = parser w.client.buffer w in
    (
      nparsed,
      if not w1.client.is_websocket
          then record w1 { client = record (w1.client) { buffer = [] } }
          else w1,
      out,
    )

-- A connection that has just been accepted.
unfoldable pub http_client_new : ℕ → ℕ → HttpClient
http_client_new fd addr = record {
  fd = fd;
  addr = addr;
  buffer = [];
  request_sz = 0;
  last_cb = last_cb_none;
  keep_alive = false;
  broken = false;
  fully_read = false;
  is_websocket = false;
  http_version = 0;
  path = [];
  headers = [];
  body = [];
  mime = none;
  jsonp = none;
  separator = none;
  filename = none;
  reused_cmd = none;
  last_cmd = none;
}
