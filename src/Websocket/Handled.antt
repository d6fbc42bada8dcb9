-- ===== src/Websocket/Handled.antt =====
-- What the handling of a message, `ws_execute` above all, leaves alone in a connection.
use webdis.Formats.Extract.{JsonText, ReaderAnswer, Extract, refused, dropped, fault, command}
use webdis.Cmd.{Cmd, Format, cmd_is_subscribe_args, cmd_is_unsubscribe_args}
use webdis.Acl.{acl_allow_command}
use webdis.Prelude.Text.{Bytes}
use webdis.State.{Conf}
use webdis.Websocket.Execute.{
  persist, ws_send, ws_run, ws_run_extracted, ws_extract, ws_format, ws_execute, handle,
}
use webdis.Websocket.{ws_text_frame, ws_binary_frame, ws_ping, WsMsg, WsClient, ws_connection_close}
use webdis.Prelude.{
  ℕ, refl, inl, inr, Bool, true, not, ◌&&◌, ◌||◌, Option, none, some, List, arith, ◌==◌, Bool-cases,
  Option-cases, take,
}
use webdis.Websocket.Keeps.{
  Keeps, Keeps-refl, Keeps-trans, Keeps-closing, Keeps-ws_frame_and_send_response,
}

-- The property of a connection that may be missing, or of the one that a handler returns.
abbrev pub WhenDone {ℓ} : {A : Type ℓ} → (A → Type 0) → Option A → Type 0
WhenDone P none = Unit
WhenDone P (some a) = P a

module _ (cfg : Conf) (loads : Bytes → Option JsonText) (reader : Bytes → ReaderAnswer)
    (json_ws_error : ℕ → Bytes → Bytes) where
  Keeps-ws_send :
      (ws : WsClient) (format : Format) (cmd : Cmd) → WhenDone (Keeps ws) (ws_send ws format cmd)
  unfolding ws_send
  Keeps-ws_send ws format cmd = elim (Option-cases cmd.ac) [
    | inl e ↦ rw (e, ws_send) tt
    | inr (ac, e) ↦
        rw (e, ws_send) (record { freed = refl; read = refl; write = λ h. h; rbuf = omega arith })
  ]

  Keeps-ws_run :
      (ws : WsClient) (format : Format) (cmd : Cmd)
      → WhenDone (Keeps ws) (ws_run cfg loads reader json_ws_error ws format cmd)
  unfolding ws_run
  Keeps-ws_run ws format cmd =
      elim (Bool-cases (acl_allow_command (take cmd.count cmd.argv) cfg ws.http_client)) [
        | inr denied ↦ rw denied (Keeps-ws_frame_and_send_response ws 1 _)
        | inl ok ↦ elim (Bool-cases late) [
          | inl l ↦ rw (ok, l) (Keeps-ws_frame_and_send_response ws 1 _)
          | inr l ↦ rw (ok, l) (Keeps-ws_send ws format cmd)
        ]
      ]
    where
      late : Bool
      late =
          ws.ran_subscribe && not (cmd_is_subscribe_args cmd) && not (cmd_is_unsubscribe_args cmd)

  Keeps-persist :
      (ws : WsClient) (args : List Bytes) (c : Option Cmd) → Keeps ws (persist ws args c).1
  unfolding persist
  Keeps-persist ws args none = record {
    freed = refl;
    read = refl;
    write = λ h. h;
    rbuf = omega arith;
  }
  Keeps-persist ws args (some old) = record {
    freed = refl;
    read = refl;
    write = λ h. h;
    rbuf = omega arith;
  }

  Keeps-ws_run_extracted :
      (ws : WsClient) (format : Format) (e : Extract)
      → WhenDone (λ r. Keeps ws r.1) (ws_run_extracted cfg loads reader json_ws_error ws format e)
  unfolding ws_run_extracted
  Keeps-ws_run_extracted ws format refused = Keeps-refl ws
  Keeps-ws_run_extracted ws format dropped = record {
    freed = refl;
    read = refl;
    write = λ h. h;
    rbuf = omega arith;
  }
  Keeps-ws_run_extracted ws format fault = tt
  Keeps-ws_run_extracted ws format (command args) =
      let (cmd, ws') = persist ws args ws.cmd in
      answered ws' (ws_run cfg loads reader json_ws_error ws' format cmd)
        (Keeps-persist ws args ws.cmd) (Keeps-ws_run ws' format cmd)
    where
      answered :
          (ws' : WsClient) (o : Option WsClient)
          → Keeps ws ws'
          → WhenDone (Keeps ws') o
          → WhenDone {A = Bool × WsClient}
              (λ r. Keeps ws r.1)
              (elim o [ none ↦ none | some w ↦ some (true, w) ])
      answered ws' none h k = tt
      answered ws' (some w) h k = Keeps-trans ws ws' w h k

  Keeps-ws_execute :
      (ws : WsClient) (msg : WsMsg)
      → WhenDone (λ r. Keeps ws r.1) (ws_execute cfg loads reader json_ws_error ws msg)
  unfolding ws_execute
  Keeps-ws_execute ws msg = elim (Option-cases (ws_format ws.http_client.path)) [
    | inl e ↦ rw (e, ws_execute) (Keeps-refl ws)
    | inr (format, e) ↦
        rw (e, ws_execute)
          (Keeps-ws_run_extracted ws format
            (ws_extract cfg loads reader json_ws_error format msg.payload))
  ]

  -- The four branches on the type of a message.
  pub Keeps-handle :
      (ws : WsClient) (msg : Option WsMsg)
      → WhenDone (λ r. Keeps ws r.2) (handle cfg loads reader json_ws_error ws msg)
  unfolding handle
  Keeps-handle ws none = Keeps-refl ws
  Keeps-handle ws (some msg) =
      elim (Bool-cases (msg.type == ws_text_frame || msg.type == ws_binary_frame)) [
        | inl text ↦
            rw text (
              executed (ws_execute cfg loads reader json_ws_error ws msg) (Keeps-ws_execute ws msg))
        | inr text ↦ elim (Bool-cases (msg.type == ws_ping)) [
          | inl ping ↦ rw (text, ping) (Keeps-ws_frame_and_send_response ws 10 msg.payload)
          | inr ping ↦ elim (Bool-cases (msg.type == ws_connection_close)) [
            | inl close ↦ rw (text, ping, close) (Keeps-closing ws 8 msg.payload)
            | inr close ↦ rw (text, ping, close) (Keeps-refl ws)
          ]
        ]
      ]
    where
      executed :
          (o : Option (Bool × WsClient))
          → WhenDone (λ r. Keeps ws r.1) o
          → WhenDone {A = Bool × ℕ × WsClient}
              (λ r. Keeps ws r.2)
              (elim o [ none ↦ none | some (ok, ws') ↦ some (ok, 1, ws') ])
      executed none h = tt
      executed (some (ok, ws')) h = h
