-- ===== src/Websocket/Execute.antt =====
-- `ws_execute` and `ws_process_read_data` of src/websocket.c.
use webdis.Acl.{acl_allow_command}
use webdis.Cmd.Transfer.{cmd_setup}
use webdis.Cmd.{
  Cmd, Format, json_reply, raw_reply, empty_cmd, cmd_is_subscribe_args, cmd_is_unsubscribe_args,
}
use webdis.Formats.Extract.{
  Extract, refused, dropped, fault, command, JsonText, ReaderAnswer, json_ws_extract,
  raw_ws_extract,
}
use webdis.Formats.Raw.{raw_ws_error}
use webdis.Prelude.Text.{Bytes, codes, strncmp_eq}
use webdis.State.{Conf}
use webdis.Websocket.{
  WsState, ws_error, ws_msg_complete, ws_text_frame, ws_binary_frame, ws_connection_close, ws_ping,
  ws_pong, WsMsg, WsClient, ws_frame_and_send_response, ws_peek_data,
}
use webdis.Prelude.{
  ℕ, zero, suc, ◌+◌, Bool, true, false, not, ◌&&◌, ◌||◌, Option, none, some, List, [], ◌∷◌, ◌++◌,
  ◌==◌, if◌then◌else◌, length, take,
}

-- The format of a connection, by the path of its handshake.
unfoldable pub ws_format : Bytes → Option Format
ws_format path =
    if ((length path == 1) && strncmp_eq path (codes "/") 1) || strncmp_eq path (codes "/.json") 6
    then some json_reply
    else if strncmp_eq path (codes "/.raw") 5
    then some raw_reply
    else none

abbrev pub forbidden : Bytes
forbidden = codes "Forbidden"

abbrev pub not_allowed_after_subscribe : Bytes
not_allowed_after_subscribe = codes "Command not allowed after subscribe"

-- The command of the connection after a message with arguments `args`. A first one takes the
-- client's strings and the connection to Redis; a later one only gives its arguments to the first.
-- `last_cmd` is set by the first (handle 0 is the connection's command), and cleared by the
-- `cmd_free` of each later one.
unfoldable pub persist : WsClient → List Bytes → Option Cmd → Cmd × WsClient
unfolding empty_cmd
persist ws args none =
    let fresh = record (empty_cmd (length args)) { argv = args; is_websocket = true } in
    let (cmd, client) = cmd_setup fresh (record (ws.http_client) { last_cmd = some 0 }) in
    let cmd' = record cmd { ac = ws.ac; pub_sub_client = true } in
    (cmd', record ws { http_client = client; cmd = some cmd' })
persist ws args (some old) =
    let cmd' = record old { argv = args; count = length args; pub_sub_client = true } in
    (cmd', record ws { http_client = record (ws.http_client) { last_cmd = none }; cmd = some cmd' })

-- `cmd_send`; a connection that could not be made is a null pointer that hiredis reads through.
unfoldable pub ws_send : WsClient → Format → Cmd → Option WsClient
ws_send ws format cmd = elim cmd.ac [
  | none ↦ none
  | some ac ↦ some (record ws {
    sent =
        ws.sent
        ++ (record { ac = ac; format = format; cmd = 0; argv = take cmd.count cmd.argv } ∷ []);
    ran_subscribe = cmd_is_subscribe_args cmd;
  })
]

-- What a loop over the messages has come to.
pub data Processed : Type 0 where
  ran_out : Processed
  faulted : Processed
  processed : WsState → ℕ → WsClient → Processed

-- The configuration; the parsers of jansson and hiredis; and `json_ws_error`, the text of which
-- jansson writes.
module _ (cfg : Conf) (loads : Bytes → Option JsonText) (reader : Bytes → ReaderAnswer)
    (json_ws_error : ℕ → Bytes → Bytes) where
  unfoldable pub ws_extract : Format → Bytes → Extract
  ws_extract json_reply p = json_ws_extract loads p
  ws_extract _ p = raw_ws_extract reader p

  abbrev pub ws_forbidden : Format → Bytes
  ws_forbidden json_reply = json_ws_error 403 forbidden
  ws_forbidden _ = raw_ws_error forbidden

  -- From the check of the access rules on.
  unfoldable pub ws_run : WsClient → Format → Cmd → Option WsClient
  ws_run ws format cmd =
      if not (acl_allow_command (take cmd.count cmd.argv) cfg ws.http_client)
      then some (ws_frame_and_send_response ws ws_binary_frame (ws_forbidden format))
      else if ws.ran_subscribe
          && not (cmd_is_subscribe_args cmd)
          && not (cmd_is_unsubscribe_args cmd)
      then some (ws_frame_and_send_response ws ws_binary_frame not_allowed_after_subscribe)
      else ws_send ws format cmd

  unfoldable pub ws_run_extracted : WsClient → Format → Extract → Option (Bool × WsClient)
  ws_run_extracted ws format refused = some (false, ws)
  ws_run_extracted ws format dropped =
      some (false, record ws { http_client = record (ws.http_client) { last_cmd = none } })
  ws_run_extracted ws format fault = none
  ws_run_extracted ws format (command args) =
      let (cmd, ws') = persist ws args ws.cmd in
      elim (ws_run ws' format cmd) [ none ↦ none | some ws'' ↦ some (true, ws'') ]

  -- Whether it returned 0, and the connection; `none` is a read through a null pointer.
  unfoldable pub ws_execute : WsClient → WsMsg → Option (Bool × WsClient)
  ws_execute ws msg = elim (ws_format ws.http_client.path) [
    | none ↦ some (false, ws)
    | some format ↦ ws_run_extracted ws format (ws_extract format msg.payload)
  ]

  -- The branches on the type of a message, with how many it adds to `out_processed`.
  unfoldable pub handle : WsClient → Option WsMsg → Option (Bool × ℕ × WsClient)
  handle ws none = some (true, 0, ws)
  handle ws (some msg) =
      let executed : Option (Bool × ℕ × WsClient) = elim (ws_execute ws msg) [
        | none ↦ none
        | some (ok, ws') ↦ some (ok, 1, ws')
      ] in
      if msg.type == ws_text_frame || msg.type == ws_binary_frame
      then executed
      else if msg.type == ws_ping
      then some (true, 0, ws_frame_and_send_response ws ws_pong msg.payload)
      else if msg.type == ws_connection_close
      then some (
        true,
        0,
        ws_frame_and_send_response (record ws { close_after_events = true }) ws_connection_close
            msg.payload,
      )
      else some (true, 0, ws)

  -- The loop: a look at the buffer, and one message for each round of the fuel.
  unfoldable pub process : ℕ → WsClient → ℕ → Processed
  process zero ws n =
      let (state, msg, ws1) = ws_peek_data ws false in
      elim state [ ws_msg_complete ↦ ran_out | s ↦ processed s n ws1 ]
  process (suc f) ws n =
      let (state, msg, ws1) = ws_peek_data ws false in
      elim state [
        | ws_msg_complete ↦
            (let (again, extracted, ws2) = ws_peek_data ws1 true in
              elim (handle ws2 extracted) [
                | none ↦ faulted
                | some (ok, k, ws3) ↦ elim ok [
                  | true ↦ process f ws3 (n + k)
                  | false ↦ processed ws_error (n + k) ws3
                ]
              ])
        | s ↦ processed s n ws1
      ]

  -- Each message takes at least one byte of the buffer.
  unfoldable pub ws_process_read_data : WsClient → Processed
  unfolding process
  ws_process_read_data ws = process (length ws.rbuf) ws 0
