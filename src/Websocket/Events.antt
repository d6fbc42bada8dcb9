-- ===== src/Websocket/Events.antt =====
-- The callbacks of src/websocket.c, which libevent calls.
use webdis.Formats.Extract.{JsonText, ReaderAnswer}
use webdis.Prelude.Text.{Bytes}
use webdis.State.{Conf}
use webdis.Websocket.Execute.{ran_out, faulted, processed, ws_process_read_data}
use webdis.Websocket.{
  WsState, ws_error, ws_reading, ws_msg_complete, WsClient, ws_schedule_write, ws_monitor_input,
}
use webdis.Prelude.{
  ℕ, Bool, true, false, not, ◌||◌, Option, none, some, List, [], ◌∷◌, ◌++◌, ◌==◌, if◌then◌else◌,
  drop,
}

abbrev pub own_context : Option ℕ → List ℕ
own_context none = []
own_context (some ac) = ac ∷ []

-- The connection to Redis is given up, the command is freed, and the object is gone.
unfoldable pub ws_client_free : WsClient → WsClient
ws_client_free ws = record ws {
  close_after_events = true;
  ac = none;
  cmd = none;
  freed = true;
  disconnected = ws.disconnected ++ own_context ws.ac;
}

unfoldable pub ws_close_if_able : WsClient → WsClient
unfolding ws_client_free
ws_close_if_able ws =
    let closing = record ws { close_after_events = true } in
    if ws.scheduled_read || ws.scheduled_write then closing else ws_client_free closing

abbrev pub is_empty : Bytes → Bool
is_empty [] = true
is_empty (b ∷ bs) = false

-- What `ws_can_read` does with the state after the messages.
abbrev pub after_read : WsState → WsClient → WsClient
after_read ws_reading ws = ws_monitor_input ws
after_read ws_error ws = ws_close_if_able ws
after_read ws_msg_complete ws = ws

module _ (cfg : Conf) (loads : Bytes → Option JsonText) (reader : Bytes → ReaderAnswer)
    (json_ws_error : ℕ → Bytes → Bytes) where
  -- `chunk` is what `evbuffer_read` adds to the buffer; it is empty where that returns 0 or -1.
  -- `none` is a read through a null pointer.
  unfoldable pub ws_can_read : WsClient → Bytes → Option WsClient
  unfolding ws_close_if_able ws_monitor_input
  ws_can_read ws chunk =
      let ws1 = record ws { scheduled_read = false; rbuf = ws.rbuf ++ chunk } in
      if is_empty chunk || ws.close_after_events
      then some (ws_close_if_able ws1)
      else elim (ws_process_read_data cfg loads reader json_ws_error ws1) [
        | ran_out ↦ none
        | faulted ↦ none
        | processed state n ws2 ↦ some (after_read state ws2)
      ]

  -- `n` is what `evbuffer_write_atmost` returns, 0 for an error too.
  unfoldable pub ws_can_write : WsClient → ℕ → Option WsClient
  unfolding ws_close_if_able ws_monitor_input ws_schedule_write
  ws_can_write ws n =
      let ws1 = record ws { scheduled_write = false; wbuf = drop n ws.wbuf } in
      if n == 0
      then some (ws_close_if_able (record ws { scheduled_write = false }))
      else if not (is_empty (drop n ws.wbuf))
      then some (ws_schedule_write ws1)
      else if ws.close_after_events
      then some (ws_close_if_able ws1)
      else elim (ws_process_read_data cfg loads reader json_ws_error ws1) [
        | ran_out ↦ none
        | faulted ↦ none
        | processed state k ws2 ↦ some (ws_monitor_input ws2)
      ]
