-- ===== src/Websocket/Receiving.antt =====
-- `ws_peek_data` of src/websocket.c against a client's frames by RFC 6455.
use webdis.Prelude.Bytes.{bit_xor_twice}
use webdis.Prelude.Text.{Bytes}
use webdis.Websocket.Rfc.{Key, IsFrame, masked, key_bytes, length_bytes, eight_bytes, client_frame}
use webdis.Websocket.{
  ws_reading, ws_msg_complete, WsClient, byte_at, mask_from, ws_msg_new, ws_msg_add, ext_len,
  payload_len, Peeked, take_frame, peek_frame, peek_bytes, ws_peek_data,
}
use native.Mathlib.Decide.{dec_lt}
use mathlib.Core.Path.{subst}
use webdis.Prelude.{
  ℕ, suc, ◌+◌, ◌-◌, ◌/◌, ◌%◌, ◌^◌, ◌≤◌, ◌<◌, ◌≡◌, refl, sym, ap, ◌∙◌, Bool, true, false, some, [],
  ◌∷◌, ◌++◌, append_assoc, arith, ltb, leb, if◌then◌else◌, length, length-append, take, drop,
  take-append, drop-append, All,
}

drop-add-append : (xs ys : Bytes) (n : ℕ) → drop (length xs + n) (xs ++ ys) ≡ drop n ys
drop-add-append [] ys n = ap (λ k. drop k ys) (omega arith)
drop-add-append (x ∷ xs) ys n =
    let e : suc (length xs) + n ≡ suc (length xs + n) = omega arith in
    rw e (drop-add-append xs ys n)

length-masked : (a b c d : ℕ) (p : Bytes) → length (masked a b c d p) ≡ length p
unfolding masked
length-masked a b c d [] = refl
length-masked a b c d (x ∷ p) = ap suc (length-masked b c d a p)

-- The program's index into the mask goes round like the key of the RFC.
mask_from-masked :
    (i a b c d : ℕ) (mask p : Bytes)
    → byte_at mask (i % 4) ≡ a
    → byte_at mask ((i + 1) % 4) ≡ b
    → byte_at mask ((i + 2) % 4) ≡ c
    → byte_at mask ((i + 3) % 4) ≡ d
    → (a < 256) × (b < 256) × (c < 256) × (d < 256)
    → All (λ x. x < 256) p
    → mask_from i mask (masked a b c d p) ≡ p
unfolding masked mask_from
mask_from-masked i a b c d mask [] ea eb ec ed h o = refl
mask_from-masked i a b c d mask (x ∷ p) ea eb ec ed h o =
    let s1 : (i + 1 + 1) % 4 ≡ (i + 2) % 4 = omega arith in
    let s2 : (i + 1 + 2) % 4 ≡ (i + 3) % 4 = omega arith in
    let s3 : (i + 1 + 3) % 4 ≡ i % 4 = omega arith in
    rw (ea, bit_xor_twice x a o.0 h.0)
      (ap (◌∷◌ x) (
        mask_from-masked (i + 1) b c d a mask p eb (rw s1 ec) (rw s2 ed) (rw s3 ea)
          (h.1, h.2, h.3, h.0) o.1))

unmask_key :
    (opcode : ℕ) (k : Key) (p : Bytes)
    → IsFrame opcode k p
    → mask_from 0 (key_bytes k) (masked k.k0 k.k1 k.k2 k.k3 p) ≡ p
unmask_key opcode k p f =
    mask_from-masked 0 k.k0 k.k1 k.k2 k.k3 (key_bytes k) p refl refl refl refl f.key f.octets

-- A frame whose length stands in the bytes `e`, with `tail` behind it.
module _ (opcode : ℕ) (k : Key) (p tail e : Bytes) (f : IsFrame opcode k p) where
  abbrev under : Bytes
  under = masked k.k0 k.k1 k.k2 k.k3 p

  abbrev body : Bytes
  body = key_bytes k ++ (under ++ tail)

  drop-mask : drop (length e + 4) (e ++ body) ≡ under ++ tail
  drop-mask = drop-add-append e body 4

  take-under : take (length p) (under ++ tail) ≡ under
  take-under =
      ap (λ n. take n (under ++ tail)) (sym (length-masked k.k0 k.k1 k.k2 k.k3 p))
      ∙ take-append under tail

  drop-frame : drop (length e + (4 + length p)) (e ++ body) ≡ tail
  drop-frame =
      drop-add-append e body (4 + length p)
      ∙ ap (λ n. drop n body) four
      ∙ ap (λ n. drop n (under ++ tail)) (sym (length-masked k.k0 k.k1 k.k2 k.k3 p))
      ∙ drop-append under tail
    where
      four : 4 + length p ≡ suc (suc (suc (suc (length p))))
      four = omega arith

  drop-rbuf :
      (first second : ℕ) → drop (length p + (6 + length e)) (first ∷ second ∷ (e ++ body)) ≡ tail
  drop-rbuf first second = ap (λ n. drop n (first ∷ second ∷ (e ++ body))) two ∙ drop-frame
    where
      two : length p + (6 + length e) ≡ suc (suc (length e + (4 + length p)))
      two = omega arith

  take_frame-whole :
      (ws : WsClient) (first second : ℕ)
      → ws.rbuf ≡ first ∷ second ∷ (e ++ body)
      → take_frame ws true first (length p) (length e) (e ++ body) ≡ (
        if leb 128 first then ws_msg_complete else ws_reading,
        some (record { type = first % 16; payload = p; total_sz = length p + (6 + length e) }),
        record ws { rbuf = tail },
      )
  unfolding take_frame ws_msg_new ws_msg_add
  take_frame-whole ws first second r = rw (
    drop-mask,
    take-under,
    drop-append e body,
    unmask_key opcode k p f,
    r,
    drop-rbuf first second,
  )

  length-body : length (e ++ body) ≡ length e + (4 + length p + length tail)
  length-body =
      omega
        (arith, length-append e body, length-append under tail, length-masked k.k0 k.k1 k.k2 k.k3 p)

  peek_frame-whole :
      (ws : WsClient) (extract : Bool) (first second : ℕ)
      → 128 ≤ second
      → ext_len (second % 128) ≡ length e
      → payload_len (second % 128) (e ++ body) ≡ length p
      → peek_frame ws extract (length (e ++ body) + 2) first second (e ++ body)
        ≡ take_frame ws extract first (length p) (length e) (e ++ body)
  unfolding peek_frame
  peek_frame-whole ws extract first second h he hp =
      let m : ltb second 128 ≡ false = ground arith in
      let a : ltb (length (e ++ body) + 2) (6 + length e) ≡ false = ground (arith, length-body) in
      let b : ltb (length (e ++ body) + 2 - (6 + length e)) (length p) ≡ false =
        ground (arith, length-body) in
      rw (m, he, hp, a, b)

-- How the length stands in the header: the second byte, and the bytes `e` behind it.
record Header (n second : ℕ) (e : Bytes) : Type 0 where
  split : length_bytes n ≡ second ∷ e
  masked_bit : 128 ≤ second
  ext : ext_len (second % 128) ≡ length e
  value : (rest : Bytes) → payload_len (second % 128) (e ++ rest) ≡ n

header_of : (n : ℕ) → n < 2 ^ 63 → (second : ℕ) × (e : Bytes) × Header n second e
header_of n h = elim (dec_lt 125 n) [
  | no a ↦ (
    128 + n,
    [],
    record {
      split = ground arith;
      masked_bit = omega arith;
      ext = ground arith;
      value = λ rest. ground arith;
    },
  )
  | yes a ↦ elim (dec_lt n 65536) [
    | yes b ↦ (
      254,
      (n / 256) ∷ (n % 256) ∷ [],
      record {
        split = ground arith;
        masked_bit = omega arith;
        ext = refl;
        value = λ rest. omega arith;
      },
    )
    | no b ↦ (
      255,
      eight_bytes n,
      record {
        split = ground arith;
        masked_bit = omega arith;
        ext = refl;
        value = λ rest. omega arith;
      },
    )
  ]
]

first_byte :
    (fin : Bool) (opcode : ℕ)
    → opcode < 16
    → let first = (if fin then 128 else 0) + opcode in (first % 16 ≡ opcode) × (leb 128 first ≡ fin)
first_byte true opcode h = (omega arith, ground arith)
first_byte false opcode h = (omega arith, ground arith)

-- What `ws_peek_data` makes of a client's frame at the front of the read buffer.
abbrev pub Extracted : Bool → ℕ → Bytes → Bytes → WsClient → Peeked → Type 0
Extracted fin opcode p tail ws (state, msg, ws') =
    (state ≡ (if fin then ws_msg_complete else ws_reading))
    × ((n : ℕ) × (msg ≡ some (record { type = opcode; payload = p; total_sz = n })))
    × (ws' ≡ record ws { rbuf = tail })

peek_bytes-header :
    (fin : Bool) (opcode : ℕ) (k : Key) (p tail : Bytes) (ws : WsClient) (first second : ℕ)
    (e : Bytes) (f : IsFrame opcode k p)
    → Header (length p) second e
    → ws.rbuf ≡ first ∷ second ∷ (e ++ body opcode k p tail e f)
    → first % 16 ≡ opcode
    → leb 128 first ≡ fin
    → Extracted fin opcode p tail ws (ws_peek_data ws true)
unfolding ws_peek_data peek_bytes
peek_bytes-header fin opcode k p tail ws first second e f hd r eo ef =
    subst (Extracted fin opcode p tail ws) (sym whole)
      (rw ef, (length p + (6 + length e), rw eo), refl)
  where
    whole : ws_peek_data ws true ≡ (
      if leb 128 first then ws_msg_complete else ws_reading,
      some (record { type = first % 16; payload = p; total_sz = length p + (6 + length e) }),
      record ws { rbuf = tail },
    )
    whole =
        ap (peek_bytes ws true) r
        ∙ peek_frame-whole opcode k p tail e f ws true first second hd.masked_bit hd.ext
            (hd.value (body opcode k p tail e f))
        ∙ take_frame-whole opcode k p tail e f ws first second r

-- Every frame that a client writes by RFC 6455, of any length, is extracted whole: its type, its
-- unmasked payload, and nothing of what follows it, which stays in the buffer. A final frame is a
-- complete message; after any other more is wanted.
pub ws_peek_data-client_frame :
    (fin : Bool) (opcode : ℕ) (k : Key) (p tail : Bytes) (ws : WsClient)
    → IsFrame opcode k p
    → ws.rbuf ≡ client_frame fin opcode k p ++ tail
    → Extracted fin opcode p tail ws (ws_peek_data ws true)
ws_peek_data-client_frame fin opcode k p tail ws f r =
    let (second, e, hd) = header_of (length p) f.length_lt in
    let first = (if fin then 128 else 0) + opcode in
    let (eo, ef) = first_byte fin opcode f.opcode_lt in
    let frame =
      append_assoc (length_bytes (length p)) (key_bytes k ++ masked k.k0 k.k1 k.k2 k.k3 p) tail in
    peek_bytes-header fin opcode k p tail ws first second e f hd
      (r ∙ ap (λ l. first ∷ l) (frame ∙ ap (λ l. l ++ body opcode k p tail e f) hd.split)) eo ef
