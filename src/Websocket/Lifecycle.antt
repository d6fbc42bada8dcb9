-- ===== src/Websocket/Lifecycle.antt =====
-- A WebSocket connection from its handshake to its end: the events of src/websocket.c, in any order.
use mathlib.Core.Path.{subst}
use webdis.Formats.Extract.{JsonText, ReaderAnswer}
use webdis.Prelude.Text.{Bytes}
use webdis.State.{Conf}
use webdis.Websocket.Events.{after_read, is_empty, ws_can_read, ws_can_write}
use webdis.Websocket.Execute.{Processed, ran_out, faulted, processed, ws_process_read_data}
use webdis.Websocket.Handshake.{ws_handshake_reply, ws_client_new}
use webdis.Pool.{Pool, PoolConf, Connecting}
use webdis.State.{HttpClient}
use webdis.Websocket.Welcome.{ws_handshake_reply-Welcomed, Welcomed-kept}
use webdis.Websocket.Loop.{NoneLeft-not_complete, Settled, ws_process_read_data-Settled}
use webdis.Websocket.{
  WsState, ws_msg_complete, WsClient, ws_monitor_input, ws_frame_and_send_response,
}
use webdis.Prelude.{
  ℕ, ◌≡◌, refl, sym, ◌∙◌, ◌≢◌, inl, inr, true, false, not, ◌||◌, Option, none, some, ◌++◌, arith,
  ◌==◌, Bool-cases, drop,
}
use webdis.Websocket.Live.{
  IsLive, gone, reads, writes, ws_close_if_able-IsLive, ws_monitor_input-IsLive,
  ws_schedule_write-IsLive, after_read-IsLive, if_true, if_false, some_is, none_is,
}

module _ (cfg : Conf) (loads : Bytes → Option JsonText) (reader : Bytes → ReaderAnswer)
    (json_ws_error : ℕ → Bytes → Bytes) where
  -- What the event loop and Redis do to a client: `chunk` is what can be read, `n` what is
  -- written, and a reply is sent as a frame. A read or a write that faults has no next state, and a
  -- reply is one that comes while the client is there; what a later one would find is left out.
  pub data Event (ws : WsClient) : WsClient → Type 0 where
    read :
        {t : WsClient} (chunk : Bytes)
        → ws.scheduled_read ≡ true
        → ws_can_read cfg loads reader json_ws_error ws chunk ≡ some t
        → Event ws t
    write :
        {t : WsClient} (n : ℕ)
        → ws.scheduled_write ≡ true
        → ws_can_write cfg loads reader json_ws_error ws n ≡ some t
        → Event ws t
    reply :
        {t : WsClient} (type : ℕ) (p : Bytes)
        → ws.freed ≡ false
        → t ≡ ws_frame_and_send_response ws type p
        → Event ws t

  -- What the two callbacks do with what the loop over the messages has come to.
  abbrev then_do : (WsState → WsClient → WsClient) → Processed → Option WsClient
  then_do after p = elim p [
    | ran_out ↦ none
    | faulted ↦ none
    | processed state n ws2 ↦ some (after state ws2)
  ]

  then_do-IsLive :
      (after : WsState → WsClient → WsClient) (ws : WsClient) (p : Processed) (t : WsClient)
      → ((s : WsState) (u : WsClient) → s ≢ ws_msg_complete → u.freed ≡ false → IsLive (after s u))
      → Settled ws p
      → ws.freed ≡ false
      → then_do after p ≡ some t
      → IsLive t
  then_do-IsLive after ws ran_out t h s f e = absurd (none_is e)
  then_do-IsLive after ws faulted t h s f e = absurd (none_is e)
  then_do-IsLive after ws (processed state n u) t h s f e =
      subst IsLive (some_is e) (h state u (NoneLeft-not_complete state u s.0) (s.1.freed ∙ f))

  read-IsLive :
      (ws : WsClient) (chunk : Bytes) (t : WsClient)
      → ws.freed ≡ false
      → ws_can_read cfg loads reader json_ws_error ws chunk ≡ some t
      → IsLive t
  unfolding ws_can_read
  read-IsLive ws chunk t f e =
      let ws1 = record ws { scheduled_read = false; rbuf = ws.rbuf ++ chunk } in
      elim (Bool-cases (is_empty chunk || ws.close_after_events)) [
        | inl c ↦ subst IsLive (some_is (if_true _ _ _ c e)) (ws_close_if_able-IsLive ws1 f)
        | inr c ↦
            then_do-IsLive after_read ws1 (ws_process_read_data cfg loads reader json_ws_error ws1)
              t after_read-IsLive (ws_process_read_data-Settled cfg loads reader json_ws_error ws1)
              f (if_false _ _ _ c e)
      ]

  write-IsLive :
      (ws : WsClient) (n : ℕ) (t : WsClient)
      → ws.freed ≡ false
      → ws_can_write cfg loads reader json_ws_error ws n ≡ some t
      → IsLive t
  unfolding ws_can_write
  write-IsLive ws n t f e =
      let ws1 = record ws { scheduled_write = false; wbuf = drop n ws.wbuf } in
      elim (Bool-cases (n == 0)) [
        | inl z ↦
            subst IsLive (some_is (if_true _ _ _ z e))
              (ws_close_if_able-IsLive (record ws { scheduled_write = false }) f)
        | inr z ↦ elim (Bool-cases (not (is_empty (drop n ws.wbuf)))) [
          | inl m ↦
              subst IsLive (some_is (if_true _ _ _ m (if_false _ _ _ z e)))
                (ws_schedule_write-IsLive ws1 f)
          | inr m ↦ elim (Bool-cases ws.close_after_events) [
            | inl c ↦
                subst IsLive (some_is (if_true _ _ _ c (if_false _ _ _ m (if_false _ _ _ z e))))
                  (ws_close_if_able-IsLive ws1 f)
            | inr c ↦
                then_do-IsLive (λ s u. ws_monitor_input u) ws1
                  (ws_process_read_data cfg loads reader json_ws_error ws1) t
                  (λ s u k g. ws_monitor_input-IsLive u g)
                  (ws_process_read_data-Settled cfg loads reader json_ws_error ws1) f
                  (if_false _ _ _ c (if_false _ _ _ m (if_false _ _ _ z e)))
          ]
        ]
      ]

  reply-IsLive :
      (ws : WsClient) (type : ℕ) (p : Bytes)
      → ws.freed ≡ false
      → IsLive (ws_frame_and_send_response ws type p)
  unfolding ws_frame_and_send_response
  reply-IsLive ws type p f = ws_schedule_write-IsLive (record ws { wbuf = _ }) f

  not_gone_read : (ws : WsClient) → IsLive ws → ws.scheduled_read ≡ true → ws.freed ≡ false
  not_gone_read ws (gone f r w) h = absurd (ground arith)
  not_gone_read ws (reads f r) h = f
  not_gone_read ws (writes f w) h = f

  not_gone_write : (ws : WsClient) → IsLive ws → ws.scheduled_write ≡ true → ws.freed ≡ false
  not_gone_write ws (gone f r w) h = absurd (ground arith)
  not_gone_write ws (reads f r) h = f
  not_gone_write ws (writes f w) h = f

  Event-IsLive : {ws t : WsClient} → Event ws t → IsLive ws → IsLive t
  Event-IsLive {ws} {t} (read chunk h e) v = read-IsLive ws chunk t (not_gone_read ws v h) e
  Event-IsLive {ws} {t} (write n h e) v = write-IsLive ws n t (not_gone_write ws v h) e
  Event-IsLive {ws} {t} (reply type p f e) v = subst IsLive (sym e) (reply-IsLive ws type p f)

  pub data Reach (ws : WsClient) : WsClient → Type 0 where
    here : Reach ws ws
    next : {t u : WsClient} → Reach ws t → Event t u → Reach ws u

  Reach-keeps_IsLive : {ws t : WsClient} → Reach ws t → IsLive ws → IsLive t
  Reach-keeps_IsLive here v = v
  Reach-keeps_IsLive (next r e) v = Event-IsLive e (Reach-keeps_IsLive r v)

-- From a handshake that succeeds on, in every order of reads and writes of the socket that do not
-- fault on a null pointer and of replies of Redis that come while the client is there: a WebSocket
-- client waits for a read or a write of its socket until it is freed, and is freed only when it waits
-- for none. No connection is left without an event, and no event of the socket finds a client that
-- is gone.
pub Reach-IsLive :
    (cfg : Conf) (loads : Bytes → Option JsonText) (reader : Bytes → ReaderAnswer)
    (json_ws_error : ℕ → Bytes → Bytes) (sha1 base64 : Bytes → Bytes) (pcfg : PoolConf) (p : Pool)
    (db_num : ℕ) (answer : Connecting) (http_client : HttpClient) (ws t : WsClient)
    → ws_handshake_reply sha1 base64 (ws_client_new pcfg p db_num answer http_client).0 ≡ some ws
    → Reach cfg loads reader json_ws_error ws t
    → IsLive t
unfolding ws_client_new
Reach-IsLive cfg loads reader json_ws_error sha1 base64 pcfg p db_num answer http_client ws t e r =
    Reach-keeps_IsLive cfg loads reader json_ws_error r
      (Welcomed-kept sha1 base64 (ws_client_new pcfg p db_num answer http_client).0 ws refl (
        ws_handshake_reply-Welcomed sha1 base64 (ws_client_new pcfg p db_num answer http_client).0
          ws e)).0
