-- ===== src/Worker/Reading.antt =====
-- `worker_can_read` of src/worker.c: the bytes of a client go through the HTTP parser, and the
-- client is read from again, becomes a WebSocket or is freed. The parser of http-parser is a
-- parameter: which callbacks of src/client.c it makes for a buffer.
use webdis.Client.{
  Parsed, http_client_on_url, http_client_on_query_string, http_client_on_header_name,
  http_client_on_header_value, http_client_add_to_body, http_client_on_message_complete,
  http_client_read, http_client_execute,
}
use webdis.Cmd.{World}
use webdis.Formats.Extract.{JsonText, ReaderAnswer}
use webdis.Http.{Sending}
use webdis.Http.Send.{http_send_error}
use webdis.Pool.{PoolConf, Connecting}
use webdis.Prelude.Text.{Bytes, codes}
use webdis.State.{Conf, HttpClient}
use webdis.Websocket.{ws_error, WsClient}
use webdis.Websocket.Events.{ws_close_if_able}
use webdis.Websocket.Execute.{ran_out, faulted, processed, ws_process_read_data}
use webdis.Websocket.Handshake.{ws_client_new, ws_handshake_reply}
use webdis.Worker.{Method, worker_process_client}
use webdis.Prelude.{
  ℕ, Bool, true, not, ◌&&◌, Option, none, some, List, [], ◌∷◌, ◌++◌, map, ltb, ◌==◌, if◌then◌else◌,
  length,
}

-- One call of a callback, with its bytes or with what the parser knows of the message.
pub data Callback : Type 0 where
  on_url on_query_string on_header_field on_header_value on_body : Bytes → Callback
  on_message_complete : Method → Parsed → Callback

-- What `http_parser_execute` makes of a buffer: its callbacks in their order, the bytes that it
-- takes, and whether it has seen that the connection is to be closed.
pub record Reading : Type 0 where
  pub callbacks : List Callback
  pub nparsed : ℕ
  pub connection_close : Bool

-- Bytes that are written to a descriptor at once, or a response.
pub data Output : Type 0 where
  interim : ℕ → Bytes → Output
  response : Sending → Output

-- What a read has come to. `http_client_free` is the end of a client; with `closed` its descriptor
-- is closed too.
pub data Next : Type 0 where
  closed freed monitored upgraded : Next

pub record Read : Type 0 where
  pub world : World
  pub out : List Output
  pub ws : Option WsClient
  pub next : Next

abbrev pub on_world_client : World → (HttpClient → HttpClient) → World
on_world_client w f = record w { client = f w.client }

abbrev pub break : World → World
break w = on_world_client w (λ c. record c { broken = true })

abbrev pub interim_of : ℕ → Bytes → List Output
interim_of fd [] = []
interim_of fd (b ∷ bs) = interim fd (b ∷ bs) ∷ []

module _ (cfg : Conf) (pcfg : PoolConf) (answer : Connecting) where
  -- The callbacks that `http_client_new` registers with the parser.
  unfoldable pub run_callback : Callback → World → World × List Output
  unfolding http_client_on_message_complete
  run_callback (on_url s) w = (on_world_client w (λ c. http_client_on_url c s), [])
  run_callback (on_query_string s) w =
      (on_world_client w (λ c. http_client_on_query_string c s), [])
  run_callback (on_header_field s) w = (on_world_client w (λ c. http_client_on_header_name c s), [])
  run_callback (on_header_value s) w =
      let (c, bytes) = http_client_on_header_value w.client s in
      (record w { client = c }, interim_of w.client.fd bytes)
  run_callback (on_body s) w = (on_world_client w (λ c. http_client_add_to_body c s), [])
  run_callback (on_message_complete method p) w =
      http_client_on_message_complete cfg
        (λ w'.
          let (w'', sends) = worker_process_client cfg pcfg answer method w' in
          (w'', map response sends))
        p w

  unfoldable pub run_callbacks : List Callback → World → World × List Output
  unfolding run_callback
  run_callbacks [] w = (w, [])
  run_callbacks (k ∷ ks) w =
      let (w1, out1) = run_callback k w in
      let (w2, out2) = run_callbacks ks w1 in (w2, out1 ++ out2)

  unfoldable pub run_reading : Reading → World → ℕ × World × List Output
  unfolding run_callbacks
  run_reading r w = let (w', out) = run_callbacks r.callbacks w in (r.nparsed, w', out)

  -- From the test of `broken` on.
  unfoldable pub finish : World → List Output → Option WsClient → Read
  finish w out ws = record {
    world = w;
    out = out;
    ws = ws;
    next =
        if w.client.broken
        then (if w.client.is_websocket then closed else freed)
        else if w.client.is_websocket
        then upgraded
        else monitored;
  }

  -- An error response, before the test of `broken`.
  unfoldable pub refuse : World → List Output → ℕ → Bytes → Read
  unfolding finish http_send_error
  refuse w out code msg =
      let (c, sends) = http_send_error w.client code msg in
      finish (record w { client = c }) (out ++ map response sends) none

  -- The tests on what has been parsed and read.
  unfoldable pub judge : Reading → ℕ → World → List Output → Read
  unfolding finish refuse
  judge r ret w out =
      if not (r.nparsed == ret)
      then refuse w out 400 (codes "Bad Request")
      else if ltb cfg.http_max_request_size w.client.request_sz
      then refuse w out 413 (codes "Request Entity Too Large")
      else finish w out none

  module _ (loads : Bytes → Option JsonText) (reader : Bytes → ReaderAnswer)
      (json_ws_error : ℕ → Bytes → Bytes) (sha1 base64 : Bytes → Bytes) where
    -- The handshake, or its failure: then the connection of the WebSocket client is given up.
    unfoldable pub welcome : World → List Output → WsClient → Option WsClient → Option Read
    unfolding finish ws_close_if_able
    welcome w out ws none = some (finish (break w) out (some (ws_close_if_able ws)))
    welcome w out ws (some ws1) = elim (ws_process_read_data cfg loads reader json_ws_error ws1) [
      | ran_out ↦ none
      | faulted ↦ none
      | processed state n ws2 ↦
          some (elim state [
            | ws_error ↦ finish (break w) out (some ws2)
            | s ↦ finish w out (some ws2)
          ])
    ]

    -- The HTTP client becomes a WebSocket client. What its buffer still holds is freed.
    unfoldable pub upgrade : World → List Output → Option Read
    unfolding ws_client_new ws_handshake_reply welcome
    upgrade w out =
        let (ws, queued, pool) = ws_client_new pcfg w.pool cfg.database answer w.client in
        let c = record (w.client) { buffer = [] } in
        let w1 = record w { client = c; queued = w.queued ++ queued; pool = pool } in
        let ws1 = record ws { http_client = c } in
        welcome w1 out ws1 (ws_handshake_reply sha1 base64 ws1)

    -- What follows the parser's run: `ret` bytes have been read.
    unfoldable pub after_execute : Reading → ℕ → World → List Output → Option Read
    unfolding finish judge upgrade
    after_execute r ret w out =
        if r.connection_close && w.client.fully_read
        then some (finish (break w) out none)
        else if w.client.is_websocket
        then upgrade w out
        else some (judge r ret w out)

    -- What follows `http_client_read`, where it has read `ret` bytes.
    unfoldable pub read_on : (Bytes → Reading) → ℕ → World → Option Read
    unfolding http_client_execute run_reading after_execute finish
    read_on parser ret w =
        if w.client.is_websocket
        then some (finish w [] none)
        else (let (nparsed, w1, out) = http_client_execute (λ b. run_reading (parser b)) w in
            after_execute (parser w.client.buffer) ret w1 out)

    -- `chunk` is what `read` gives, empty for 0 and -1. `none` is a fault in the WebSocket code.
    unfoldable pub worker_can_read : (Bytes → Reading) → World → Bytes → Option Read
    unfolding http_client_read read_on
    worker_can_read parser w chunk =
        let (there, w1) = http_client_read cfg w chunk in
        if there
        then read_on parser (length chunk) w1
        else some (record { world = w1; out = []; ws = none; next = closed })
