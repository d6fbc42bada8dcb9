-- ===== src/Websocket/Keeps.antt =====
-- What a look at the buffer of a connection leaves alone.
use webdis.Prelude.Text.{Bytes}
use webdis.Websocket.{
  ws_error, ws_reading, ws_msg_complete, WsClient, ws_frame_and_send_response, take_frame,
  no_mask_reason, ext_len, payload_len, ws_connection_close, peek_frame, peek_bytes, ws_peek_data,
  Peeked,
}
use webdis.Prelude.{
  ap, sym, ◌∙◌, ℕ, ◌+◌, ◌-◌, ◌%◌, ◌≤◌, ◌<◌, ◌≡◌, refl, ◌∙◌, inl, inr, Bool, true, false, none, [],
  ◌∷◌, arith, ltb, Bool-cases, length, length-drop,
}

-- What the reading of messages leaves alone: no event that is scheduled is lost, no read is
-- scheduled, and the client is not freed.
pub record Keeps (a b : WsClient) : Type 0 where
  pub freed : b.freed ≡ a.freed
  pub read : b.scheduled_read ≡ a.scheduled_read
  pub write : a.scheduled_write ≡ true → b.scheduled_write ≡ true
  pub rbuf : length b.rbuf ≤ length a.rbuf

pub Keeps-refl : (a : WsClient) → Keeps a a
Keeps-refl a = record { freed = refl; read = refl; write = λ h. h; rbuf = omega arith }

pub Keeps-trans : (a b c : WsClient) → Keeps a b → Keeps b c → Keeps a c
Keeps-trans a b c h k = record {
  freed = k.freed ∙ h.freed;
  read = k.read ∙ h.read;
  write = λ e. k.write (h.write e);
  rbuf = omega arith;
}

pub Keeps-ws_frame_and_send_response :
    (ws : WsClient) (t : ℕ) (p : Bytes) → Keeps ws (ws_frame_and_send_response ws t p)
unfolding ws_frame_and_send_response
Keeps-ws_frame_and_send_response ws t p = record {
  freed = ground arith;
  read = ground arith;
  write = λ h. ground arith;
  rbuf = ground arith;
}

Keeps-take_frame :
    (ws : WsClient) (x : Bool) (first len ext : ℕ) (rest : Bytes)
    → Keeps ws (take_frame ws x first len ext rest).2
unfolding take_frame
Keeps-take_frame ws true first len ext rest = record {
  freed = refl;
  read = refl;
  write = λ h. h;
  rbuf = omega (arith, length-drop (len + (6 + ext)) ws.rbuf);
}
Keeps-take_frame ws false first len ext rest = Keeps-refl ws

-- The three ways that a look at the buffer can go, for a look and an extraction alike.
pub data Look (ws : WsClient) (r : Bool → Peeked) : Type 0 where
  waits : ((x : Bool) → r x ≡ (ws_reading, none, ws)) → Look ws r
  refuses :
      (t : ℕ) (p : Bytes)
      → ((x : Bool)
          → r x ≡ (
            ws_error,
            none,
            ws_frame_and_send_response (record ws { close_after_events = true }) t p,
          ))
      → Look ws r
  takes :
      (first len ext : ℕ) (rest : Bytes)
      → 0 < length ws.rbuf
      → ((x : Bool) → r x ≡ take_frame ws x first len ext rest)
      → Look ws r

peek_frame-Look :
    (ws : WsClient) (sz first second : ℕ) (rest : Bytes)
    → 0 < length ws.rbuf
    → Look ws (λ x. peek_frame ws x sz first second rest)
unfolding peek_frame
peek_frame-Look ws sz first second rest h =
    let len = second % 128 in
    elim (Bool-cases (ltb second 128)) [
      | inl m ↦ refuses ws_connection_close no_mask_reason (λ x. rw m)
      | inr m ↦ elim (Bool-cases (ltb sz (6 + ext_len len))) [
        | inl a ↦ waits (λ x. rw (m, a))
        | inr a ↦ elim (Bool-cases (ltb (sz - (6 + ext_len len)) (payload_len len rest))) [
          | inl b ↦ waits (λ x. rw (m, a, b))
          | inr b ↦ takes first (payload_len len rest) (ext_len len) rest h (λ x. rw (m, a, b))
        ]
      ]
    ]

peek_bytes-Look : (ws : WsClient) (r : Bytes) → ws.rbuf ≡ r → Look ws (λ x. peek_bytes ws x r)
unfolding peek_bytes
peek_bytes-Look ws [] e = waits (λ x. refl)
peek_bytes-Look ws (a ∷ []) e = waits (λ x. refl)
peek_bytes-Look ws (a ∷ b ∷ rest) e =
    peek_frame-Look ws (length rest + 2) a b rest (rw e (omega arith))

pub ws_peek_data-Look : (ws : WsClient) → Look ws (ws_peek_data ws)
unfolding ws_peek_data
ws_peek_data-Look ws = peek_bytes-Look ws ws.rbuf refl

pub Keeps-closing :
    (ws : WsClient) (t : ℕ) (p : Bytes)
    → Keeps ws (ws_frame_and_send_response (record ws { close_after_events = true }) t p)
Keeps-closing ws t p =
    let closing = record ws { close_after_events = true } in
    Keeps-trans ws closing _
      (record { freed = refl; read = refl; write = λ h. h; rbuf = omega arith })
      (Keeps-ws_frame_and_send_response closing t p)

pub Keeps-Look : (ws : WsClient) (r : Bool → Peeked) (x : Bool) → Look ws r → Keeps ws (r x).2
Keeps-Look ws r x (waits e) = rw (e x) (Keeps-refl ws)
Keeps-Look ws r x (refuses t p e) = rw (e x) (Keeps-closing ws t p)
Keeps-Look ws r x (takes first len ext rest h e) =
    rw (e x) (Keeps-take_frame ws x first len ext rest)

-- A look that wants more changes nothing.
pub reading-unchanged :
    (ws : WsClient) (r : Bool → Peeked) → Look ws r → (r false).0 ≡ ws_reading → (r false).2 ≡ ws
unfolding take_frame
reading-unchanged ws r (waits e) s = ap (λ (q : Peeked). q.2) (e false)
reading-unchanged ws r (refuses t p e) s =
    let other : ws_error ≡ ws_reading = sym (ap (λ (q : Peeked). q.0) (e false)) ∙ s in
    absurd (cc other)
reading-unchanged ws r (takes first len ext rest h e) s = ap (λ (q : Peeked). q.2) (e false)

-- A complete message that is seen is there to be extracted, which takes bytes off the buffer.
pub record Drains (ws : WsClient) (r : Bool → Peeked) : Type 0 where
  pub unchanged : (r false).2 ≡ ws
  pub shorter : length (r true).2.rbuf < length ws.rbuf

take_frame-Drains :
    (ws : WsClient) (r : Bool → Peeked) (first len ext : ℕ) (rest : Bytes)
    → 0 < length ws.rbuf
    → ((x : Bool) → r x ≡ take_frame ws x first len ext rest)
    → Drains ws r
unfolding take_frame
take_frame-Drains ws r first len ext rest h e = record {
  unchanged = rw (e false) refl;
  shorter = rw (e true) (omega (arith, length-drop (len + (6 + ext)) ws.rbuf));
}

pub Drains-Look :
    (ws : WsClient) (r : Bool → Peeked) → Look ws r → (r false).0 ≡ ws_msg_complete → Drains ws r
Drains-Look ws r (waits e) c = absurd (cc (e false))
Drains-Look ws r (refuses t p e) c = absurd (cc (e false))
Drains-Look ws r (takes first len ext rest h e) c = take_frame-Drains ws r first len ext rest h e
