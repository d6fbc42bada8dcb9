-- ===== src/Websocket/Live.antt =====
-- What a WebSocket client waits for after the operations of src/websocket.c that schedule or close.
use webdis.Websocket.Events.{ws_close_if_able, after_read}
use webdis.Websocket.{
  WsState, ws_error, ws_reading, ws_msg_complete, WsClient, ws_schedule_write, ws_monitor_input,
}
use webdis.Prelude.{
  ◌≡◌, refl, ◌≢◌, inl, inr, Bool, true, false, none, some, arith, if◌then◌else◌, Bool-cases,
}

-- Something is scheduled for a client, and nothing is for one that is freed.
pub data IsLive (ws : WsClient) : Type 0 where
  gone : ws.freed ≡ true → ws.scheduled_read ≡ false → ws.scheduled_write ≡ false → IsLive ws
  reads : ws.freed ≡ false → ws.scheduled_read ≡ true → IsLive ws
  writes : ws.freed ≡ false → ws.scheduled_write ≡ true → IsLive ws

module _ (ws : WsClient) (f : ws.freed ≡ false) where
  close_reads : ws.scheduled_read ≡ true → IsLive (ws_close_if_able ws)
  unfolding ws_close_if_able
  close_reads r = reads (ground arith) (ground arith)

  close_writes : ws.scheduled_write ≡ true → IsLive (ws_close_if_able ws)
  unfolding ws_close_if_able
  close_writes w = writes (ground arith) (ground arith)

  close_gone : ws.scheduled_read ≡ false → ws.scheduled_write ≡ false → IsLive (ws_close_if_able ws)
  unfolding ws_close_if_able
  close_gone r w = gone (ground arith) (ground arith) (ground arith)

  pub ws_close_if_able-IsLive : IsLive (ws_close_if_able ws)
  ws_close_if_able-IsLive = elim (Bool-cases ws.scheduled_read) [
    | inl r ↦ close_reads r
    | inr r ↦ elim (Bool-cases ws.scheduled_write) [
      | inl w ↦ close_writes w
      | inr w ↦ close_gone r w
    ]
  ]

  pub ws_monitor_input-IsLive : IsLive (ws_monitor_input ws)
  unfolding ws_monitor_input
  ws_monitor_input-IsLive = reads (ground arith) (ground arith)

  pub ws_schedule_write-IsLive : IsLive (ws_schedule_write ws)
  unfolding ws_schedule_write
  ws_schedule_write-IsLive = writes (ground arith) (ground arith)

pub after_read-IsLive :
    (s : WsState) (ws : WsClient)
    → s ≢ ws_msg_complete
    → ws.freed ≡ false
    → IsLive (after_read s ws)
after_read-IsLive ws_reading ws n f = ws_monitor_input-IsLive ws f
after_read-IsLive ws_error ws n f = ws_close_if_able-IsLive ws f
after_read-IsLive ws_msg_complete ws n f = absurd (n refl)

pub if_true {ℓ} :
    {A : Type ℓ} (b : Bool) (x y : A) {z : A} → b ≡ true → (if b then x else y) ≡ z → x ≡ z
if_true true x y h e = e
if_true false x y h e = absurd (cc)

pub if_false {ℓ} :
    {A : Type ℓ} (b : Bool) (x y : A) {z : A} → b ≡ false → (if b then x else y) ≡ z → y ≡ z
if_false true x y h e = absurd (cc)
if_false false x y h e = e

pub some_is : {a b : WsClient} → some a ≡ some b → a ≡ b
some_is e = cc

pub none_is : {b : WsClient} → ¬ (none ≡ some b)
none_is e = cc
