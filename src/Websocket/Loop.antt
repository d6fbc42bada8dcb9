-- ===== src/Websocket/Loop.antt =====
-- What the loop of `ws_process_read_data` (src/websocket.c) comes to.
use webdis.Formats.Extract.{JsonText, ReaderAnswer}
use webdis.Prelude.Text.{Bytes}
use webdis.State.{Conf}
use webdis.Websocket.Execute.{
  Processed, ran_out, faulted, processed, handle, process, ws_process_read_data,
}
use webdis.Websocket.Keeps.{
  Keeps, Keeps-trans, reading-unchanged, ws_peek_data-Look, Keeps-Look, Drains, Drains-Look,
}
use webdis.Websocket.Handled.{WhenDone, Keeps-handle}
use webdis.Websocket.{WsState, ws_error, ws_reading, ws_msg_complete, WsClient, ws_peek_data}
use webdis.Prelude.{
  ap, ◌∙◌, ℕ, zero, suc, ◌+◌, ◌≤◌, ◌≡◌, refl, ◌≢◌, Bool, true, false, Option, none, some, arith,
  length,
}

-- When more is wanted, what is left in the buffer is no complete message.
abbrev pub NoneLeft : WsState → WsClient → Type 0
NoneLeft ws_msg_complete ws = ⊥
NoneLeft ws_reading ws = (ws_peek_data ws false).0 ≡ ws_reading
NoneLeft ws_error ws = Unit

pub NoneLeft-not_complete : (s : WsState) (ws : WsClient) → NoneLeft s ws → s ≢ ws_msg_complete
NoneLeft-not_complete ws_msg_complete ws h e = h
NoneLeft-not_complete ws_reading ws h e = cc e
NoneLeft-not_complete ws_error ws h e = cc e

-- What the loop comes to: it does not run out of fuel, and when it returns for more, no complete
-- message is left in the buffer.
abbrev pub Settled : WsClient → Processed → Type 0
Settled ws ran_out = ⊥
Settled ws faulted = Unit
Settled ws (processed state n ws') = NoneLeft state ws' × Keeps ws ws'

Settled-trans : (a b : WsClient) (p : Processed) → Keeps a b → Settled b p → Settled a p
Settled-trans a b ran_out h s = s
Settled-trans a b faulted h s = tt
Settled-trans a b (processed state n c) h s = (s.0, Keeps-trans a b c h s.1)

looked-Keeps : (ws : WsClient) → Keeps ws (ws_peek_data ws false).2
looked-Keeps ws = Keeps-Look ws (ws_peek_data ws) false (ws_peek_data-Look ws)

looked-NoneLeft :
    (ws : WsClient)
    → (ws_peek_data ws false).0 ≡ ws_reading
    → NoneLeft ws_reading (ws_peek_data ws false).2
looked-NoneLeft ws e =
    ap (λ u. (ws_peek_data u false).0)
      (reading-unchanged ws (ws_peek_data ws) (ws_peek_data-Look ws) e)
    ∙ e

drained :
    (ws : WsClient) → (ws_peek_data ws false).0 ≡ ws_msg_complete → Drains ws (ws_peek_data ws)
drained ws c = Drains-Look ws (ws_peek_data ws) (ws_peek_data-Look ws) c

module _ (cfg : Conf) (loads : Bytes → Option JsonText) (reader : Bytes → ReaderAnswer)
    (json_ws_error : ℕ → Bytes → Bytes) where
  -- The rest of a round, on what the message has come to.
  abbrev next_round : ℕ → ℕ → Option (Bool × ℕ × WsClient) → Processed
  next_round f n o = elim o [
    | none ↦ faulted
    | some (ok, k, ws3) ↦ elim ok [
      | true ↦ process cfg loads reader json_ws_error f ws3 (n + k)
      | false ↦ processed ws_error (n + k) ws3
    ]
  ]

  next_round-Settled :
      (f n : ℕ) (ws : WsClient) (o : Option (Bool × ℕ × WsClient))
      → ((ws3 : WsClient) (k : ℕ)
          → length ws3.rbuf ≤ f
          → Settled ws3 (process cfg loads reader json_ws_error f ws3 k))
      → length ws.rbuf ≤ f
      → WhenDone (λ r. Keeps ws r.2) o
      → Settled ws (next_round f n o)
  next_round-Settled f n ws none again h k = tt
  next_round-Settled f n ws (some (true, m, ws3)) again h k =
      Settled-trans ws ws3 _ k (again ws3 (n + m) (omega arith))
  next_round-Settled f n ws (some (false, m, ws3)) again h k = (tt, k)

  process-Settled :
      (f : ℕ) (ws : WsClient) (n : ℕ)
      → length ws.rbuf ≤ f
      → Settled ws (process cfg loads reader json_ws_error f ws n)
  unfolding process
  process-Settled zero ws n h = go (ws_peek_data ws false).0 refl
    where
      go :
          (s : WsState)
          → (ws_peek_data ws false).0 ≡ s
          → Settled ws (process cfg loads reader json_ws_error zero ws n)
      go ws_msg_complete e = absurd (omega (arith, (drained ws e).shorter))
      go ws_error e = rw (e, process) (tt, looked-Keeps ws)
      go ws_reading e = rw (e, process) (looked-NoneLeft ws e, looked-Keeps ws)
  process-Settled (suc f) ws n h =
      go (ws_peek_data ws false).0 refl (λ ws3 k. process-Settled f ws3 k)
    where
      go :
          (s : WsState)
          → (ws_peek_data ws false).0 ≡ s
          → ((ws3 : WsClient) (k : ℕ)
              → length ws3.rbuf ≤ f
              → Settled ws3 (process cfg loads reader json_ws_error f ws3 k))
          → Settled ws (process cfg loads reader json_ws_error (suc f) ws n)
      go ws_error e again = rw (e, process) (tt, looked-Keeps ws)
      go ws_reading e again = rw (e, process) (looked-NoneLeft ws e, looked-Keeps ws)
      go ws_msg_complete e again =
          let d = drained ws e in
          let ws2 = (ws_peek_data ws true).2 in
          let k = Keeps-Look ws (ws_peek_data ws) true (ws_peek_data-Look ws) in
          let o = handle cfg loads reader json_ws_error ws2 (ws_peek_data ws true).1 in
          rw (e, process, d.unchanged)
            (Settled-trans ws ws2 (next_round f n o) k (
              next_round-Settled f n ws2 o again (omega (arith, d.shorter))
                (Keeps-handle cfg loads reader json_ws_error ws2 (ws_peek_data ws true).1)))

  pub ws_process_read_data-Settled :
      (ws : WsClient) → Settled ws (ws_process_read_data cfg loads reader json_ws_error ws)
  unfolding ws_process_read_data
  ws_process_read_data-Settled ws = process-Settled (length ws.rbuf) ws 0 (omega arith)
