-- ===== src/Worker/Upkeep.antt =====
-- What becomes of a client after a read, in `worker_can_read` of src/worker.c.
use mathlib.Core.Path.{subst}
use webdis.Client.{http_client_read, http_client_execute}
use webdis.Cmd.{World}
use webdis.Formats.Extract.{JsonText, ReaderAnswer}
use webdis.Http.Send.{http_send_error}
use webdis.Pool.{PoolConf, Connecting}
use webdis.Prelude.Text.{Bytes, codes}
use webdis.State.{Conf}
use webdis.Websocket.{WsClient}
use webdis.Websocket.Events.{ws_close_if_able}
use webdis.Websocket.Handshake.{ws_client_new, ws_handshake_reply}
use webdis.Websocket.Welcome.{
  ws_handshake_reply-Welcomed, Welcomed-kept, ws_process_read_data-empty,
}
use webdis.Worker.Reading.{
  Reading, Output, closed, freed, monitored, upgraded, Read, run_callbacks, run_reading, finish,
  break, refuse, welcome, upgrade, after_execute, judge, read_on, worker_can_read,
}
use webdis.Prelude.{
  ℕ, ◌≡◌, refl, sym, ◌∙◌, inl, inr, Bool, true, false, ◌&&◌, Option, none, some, List, [], ◌∷◌,
  ◌++◌, ltb, ◌==◌, if◌then◌else◌, Bool-cases, Option-cases, length,
}

-- A client of HTTP that waits for more: nothing of what it sent is left in its buffer.
pub record IsListening (w : World) : Type 0 where
  pub whole : w.client.broken ≡ false
  pub http : w.client.is_websocket ≡ false
  pub empty : w.client.buffer ≡ []

-- A client is gone, with no WebSocket client left behind it, or waits for more, or is handed over
-- to a WebSocket client that is there and waits to write.
pub data IsSettled (r : Read) : Type 0 where
  left : r.next ≡ closed → r.ws ≡ none → IsSettled r
  refused : (ws : WsClient) → r.next ≡ closed → r.ws ≡ some ws → ws.freed ≡ true → IsSettled r
  ended : r.next ≡ freed → r.ws ≡ none → IsSettled r
  waits : r.next ≡ monitored → r.ws ≡ none → IsListening r.world → IsSettled r
  passed_on :
      (ws : WsClient)
      → r.next ≡ upgraded
      → r.ws ≡ some ws
      → r.world.client.broken ≡ false
      → ws.freed ≡ false
      → ws.scheduled_write ≡ true
      → IsSettled r

pub if-true {ℓ} : {A : Type ℓ} (b : Bool) (x y : A) → b ≡ true → (if b then x else y) ≡ x
if-true b x y e = rw e refl

pub if-false {ℓ} : {A : Type ℓ} (b : Bool) (x y : A) → b ≡ false → (if b then x else y) ≡ y
if-false b x y e = rw e refl

-- The world after the parser's run, for what follows.
record IsParsed (w : World) : Type 0 where
  empty : w.client.is_websocket ≡ false → w.client.buffer ≡ []
  whole : w.client.is_websocket ≡ true → w.client.broken ≡ false

module _ (cfg : Conf) (pcfg : PoolConf) (answer : Connecting) where
  finish-IsSettled :
      (w : World) (out : List Output)
      → w.client.is_websocket ≡ false
      → w.client.buffer ≡ []
      → IsSettled (finish cfg pcfg answer w out none)
  unfolding finish
  finish-IsSettled w out h e = elim (Bool-cases w.client.broken) [
    | inl b ↦ ended (rw (b, h) refl) refl
    | inr b ↦ waits (rw (b, h) refl) refl (record { whole = b; http = h; empty = e })
  ]

  finish-broken :
      (w : World) (out : List Output)
      → w.client.broken ≡ true
      → IsSettled (finish cfg pcfg answer w out none)
  unfolding finish
  finish-broken w out b = elim (Bool-cases w.client.is_websocket) [
    | inl h ↦ left (rw (b, h) refl) refl
    | inr h ↦ ended (rw (b, h) refl) refl
  ]

  refuse-IsSettled :
      (w : World) (out : List Output) (code : ℕ) (msg : Bytes)
      → w.client.is_websocket ≡ false
      → w.client.buffer ≡ []
      → IsSettled (refuse cfg pcfg answer w out code msg)
  unfolding refuse http_send_error
  refuse-IsSettled w out code msg h e =
      let (c, sends) = http_send_error w.client code msg in
      finish-IsSettled (record w { client = c }) _ h e

  judge-IsSettled :
      (r : Reading) (ret : ℕ) (w : World) (out : List Output)
      → w.client.is_websocket ≡ false
      → w.client.buffer ≡ []
      → IsSettled (judge cfg pcfg answer r ret w out)
  unfolding judge
  judge-IsSettled r ret w out h e = elim (Bool-cases (r.nparsed == ret)) [
    | inl n ↦ elim (Bool-cases (ltb cfg.http_max_request_size w.client.request_sz)) [
      | inl l ↦ rw (n, l) (refuse-IsSettled w out 413 (codes "Request Entity Too Large") h e)
      | inr l ↦ rw (n, l) (finish-IsSettled w out h e)
    ]
    | inr n ↦ rw n (refuse-IsSettled w out 400 (codes "Bad Request") h e)
  ]

  module _ (loads : Bytes → Option JsonText) (reader : Bytes → ReaderAnswer)
      (json_ws_error : ℕ → Bytes → Bytes) (sha1 base64 : Bytes → Bytes) where
    -- The read comes to an end, and a settled one.
    abbrev pub Settles : Option Read → Type 0
    Settles o = (r : Read) × (o ≡ some r) × IsSettled r

    closed_ws :
        (ws : WsClient)
        → ws.scheduled_read ≡ false
        → ws.scheduled_write ≡ false
        → (ws_close_if_able ws).freed ≡ true
    unfolding ws_close_if_able
    closed_ws ws sr sw = rw (sr, sw) refl

    welcome-IsSettled :
        (w : World) (out : List Output) (ws : WsClient)
        → w.client.is_websocket ≡ true
        → w.client.broken ≡ false
        → ws.freed ≡ false
        → ws.rbuf ≡ []
        → ws.scheduled_read ≡ false
        → ws.scheduled_write ≡ false
        → Settles (
            welcome cfg pcfg answer loads reader json_ws_error sha1 base64 w out ws
              (ws_handshake_reply sha1 base64 ws))
    unfolding welcome finish
    welcome-IsSettled w out ws h b f e sr sw =
        elim (Option-cases (ws_handshake_reply sha1 base64 ws)) [
          | inl n ↦
              rw (n, welcome)
                (_, refl, refused (ws_close_if_able ws) (rw h refl) refl (closed_ws ws sr sw))
          | inr (t, s) ↦
              let (live, there, empty, scheduled) =
                Welcomed-kept sha1 base64 ws t f (ws_handshake_reply-Welcomed sha1 base64 ws t s) in
              rw
                (
                  s,
                  welcome,
                  ws_process_read_data-empty cfg loads reader json_ws_error t (empty ∙ e),
                )
                (_, refl, passed_on t (rw (b, h) refl) refl b there scheduled)
        ]

    upgrade-IsSettled :
        (w : World) (out : List Output)
        → w.client.is_websocket ≡ true
        → w.client.broken ≡ false
        → Settles (upgrade cfg pcfg answer loads reader json_ws_error sha1 base64 w out)
    unfolding upgrade ws_client_new
    upgrade-IsSettled w out h b =
        let (ws, queued, pool) = ws_client_new pcfg w.pool cfg.database answer w.client in
        let c = record (w.client) { buffer = [] } in
        let w1 = record w { client = c; queued = w.queued ++ queued; pool = pool } in
        welcome-IsSettled w1 out (record ws { http_client = c }) h b refl refl refl refl

    after_execute-IsSettled :
        (r : Reading) (ret : ℕ) (w : World) (out : List Output)
        → IsParsed w
        → Settles (after_execute cfg pcfg answer loads reader json_ws_error sha1 base64 r ret w out)
    unfolding after_execute
    after_execute-IsSettled r ret w out p =
        elim (Bool-cases (r.connection_close && w.client.fully_read)) [
          | inl c ↦ rw (c, after_execute) (_, refl, finish-broken (break w) out refl)
          | inr c ↦ elim (Bool-cases w.client.is_websocket) [
            | inl h ↦
                subst Settles (sym (if-false _ _ _ c ∙ if-true _ _ _ h))
                  (upgrade-IsSettled w out h (p.whole h))
            | inr h ↦
                subst Settles (sym (if-false _ _ _ c ∙ if-false _ _ _ h))
                  (_, refl, judge-IsSettled r ret w out h (p.empty h))
          ]
        ]

    execute-IsParsed :
        (r : Bytes → Reading) (w : World)
        → ((run_callbacks cfg pcfg answer (r w.client.buffer).callbacks w).0.client.is_websocket
              ≡ true
            → (run_callbacks cfg pcfg answer (r w.client.buffer).callbacks w).0.client.broken
              ≡ false)
        → IsParsed (http_client_execute (λ b. run_reading cfg pcfg answer (r b)) w).1
    unfolding http_client_execute run_reading
    execute-IsParsed r w orderly =
        let w' = (run_callbacks cfg pcfg answer (r w.client.buffer).callbacks w).0 in
        elim (Bool-cases w'.client.is_websocket) [
          | inl h ↦ rw h (record { empty = λ z. absurd (cc); whole = λ z. orderly h })
          | inr h ↦ rw h (record { empty = λ z. refl; whole = λ z. absurd (cc) })
        ]

    read_on-IsSettled :
        (parser : Bytes → Reading) (ret : ℕ) (w : World)
        → w.client.is_websocket ≡ false
        → ((run_callbacks cfg pcfg answer
                (parser w.client.buffer).callbacks
                w).0.client.is_websocket
              ≡ true
            → (run_callbacks cfg pcfg answer (parser w.client.buffer).callbacks w).0.client.broken
              ≡ false)
        → Settles (read_on cfg pcfg answer loads reader json_ws_error sha1 base64 parser ret w)
    unfolding read_on
    read_on-IsSettled parser ret w h orderly =
        let (nparsed, w1, out) =
          http_client_execute (λ s. run_reading cfg pcfg answer (parser s)) w in
        subst Settles (sym (if-false _ _ _ h)) (
          after_execute-IsSettled (parser w.client.buffer) ret w1 out
            (execute-IsParsed parser w orderly))

    -- A client that listens, after a read of any bytes, whatever the parser makes of them: when the
    -- parser hands over no request for an upgrade behind one that ends the connection, the read
    -- comes to an end, with no fault in the WebSocket code. The client is gone, and so is its
    -- WebSocket client if the handshake was refused; or it listens again; or it is handed over to a
    -- WebSocket client that waits for its reply to be written.
    pub worker_can_read-IsSettled :
        (parser : Bytes → Reading) (w : World) (chunk : Bytes)
        → IsListening w
        → (let w1 = (http_client_read cfg w chunk).1 in
            let w2 = (run_callbacks cfg pcfg answer (parser w1.client.buffer).callbacks w1).0 in
            w2.client.is_websocket ≡ true → w2.client.broken ≡ false)
        → Settles
            (worker_can_read cfg pcfg answer loads reader json_ws_error sha1 base64 parser w chunk)
    unfolding worker_can_read http_client_read
    worker_can_read-IsSettled parser w [] l orderly = (_, refl, left refl refl)
    worker_can_read-IsSettled parser w (b ∷ chunk) l orderly =
        read_on-IsSettled parser (length (b ∷ chunk)) (http_client_read cfg w (b ∷ chunk)).1 l.http
          orderly
