-- ===== src/Slog/Line.antt =====
-- The lines of src/slog.c and the buffer that they are put together in.
use webdis.Prelude.Digits.{digit, digits_onto, decimal}
use webdis.Prelude.Text.{Bytes}
use webdis.Slog.{
  level_number, LogLevel, LogFsyncMode, log_fsync_auto, log_fsync_millis, log_fsync_all, Log,
  limit_message, time_text, line_of, sync, slog_internal, slog_enabled, slog,
}
use webdis.Prelude.{
  ℕ, zero, suc, ◌+◌, ◌/◌, ◌%◌, ◌≤◌, ◌<◌, ◌≡◌, refl, sym, ap, ◌∙◌, inl, inr, not, ◌&&◌, Option, List,
  [], ◌∷◌, ◌++◌, append-nil, leb, arith, ltb, ◌==◌, if◌then◌else◌, Bool-cases, length,
  length-append, take, length-take, take-all,
}

length-digits_onto :
    (base f n : ℕ) (acc : Bytes) → length (digits_onto base f n acc) ≤ f + 1 + length acc
unfolding digits_onto
length-digits_onto base zero n acc = omega arith
length-digits_onto base (suc f) n acc = elim (Bool-cases (ltb n base)) [
  | inl e ↦ rw e (omega arith)
  | inr e ↦
      let h = length-digits_onto base f (n / base) (digit (n % base) ∷ acc) in rw e (omega arith)
]

length-decimal_le : (n : ℕ) → length (decimal n) ≤ 21
unfolding decimal
length-decimal_le n = length-digits_onto 10 20 n []

take-take {ℓ} : {A : Type ℓ} → (m n : ℕ) (xs : List A) → m ≤ n → take m (take n xs) ≡ take m xs
take-take zero n xs h = refl
take-take (suc m) zero xs h = absurd (omega arith)
take-take (suc m) (suc n) [] h = refl
take-take (suc m) (suc n) (x ∷ xs) h = ap (λ l. x ∷ l) (take-take m n xs (omega arith))

-- The first 124 bytes, of the first `sz` if that is not 0.
limit_message_lem :
    (body : Bytes) (sz : ℕ)
    → limit_message body sz ≡ take 124 (if sz == 0 then body else take sz body)
unfolding limit_message
limit_message_lem body sz = elim (Bool-cases (sz == 0)) [
  | inl z ↦ elim (Bool-cases (ltb 125 (length body + 1))) [
    | inl e ↦ rw (z, e) refl
    | inr e ↦ rw (z, e) (take-all body (omega arith) ∙ sym (take-all body {n = 124} (ground arith)))
  ]
  | inr z ↦ elim (Bool-cases (ltb 125 (sz + 1))) [
    | inl e ↦ rw (z, e) (sym (take-take 124 sz body (ground arith)))
    | inr e ↦
        rw (z, e) (sym (take-all (take sz body) {n = 124} (ground (arith, length-take sz body))))
  ]
]

length-line_of :
    (self : ℕ) (time : Bytes) (level : LogLevel) (msg : Bytes)
    → length time < 64
    → length msg ≤ 124
    → length (line_of self time level msg) < 248
unfolding line_of
length-line_of self time level msg t m =
    let d = length-decimal_le self in simp (length-append) (omega arith)

-- The line of a message.
abbrev pub whole_line : Log → LogLevel → Bytes → ℕ → Option Bytes → Bytes
whole_line log level body sz now =
    line_of log.self (time_text now) level (take 124 (if sz == 0 then body else take sz body))

sync-written : (log : Log) → (sync log).written ≡ log.written
unfolding sync
sync-written log = go log.mode refl
  where
    go : (m : LogFsyncMode) → log.mode ≡ m → (sync log).written ≡ log.written
    go log_fsync_auto e = rw e refl
    go log_fsync_millis e = rw e refl
    go log_fsync_all e = rw e refl

-- When the time takes fewer than 64 bytes, as the buffer for it does: a message of an enabled level
-- is written to a log that is open, in one call of `write` that is given the whole line and its
-- size, which is below that of the buffer; the line has the first 124 bytes of the message, whose
-- size is `sz` unless that is 0. Any other message is not written.
pub slog-whole_line :
    (log : Log) (level : LogLevel) (body : Bytes) (sz : ℕ) (now : Option Bytes)
    → length (time_text now) < 64
    → (length (whole_line log level body sz now) < 248)
      × ((slog log level body sz now).written
          ≡ log.written
            ++ (if slog_enabled log level && not (log.fd == 0)
                then (whole_line log level body sz now, length (whole_line log level body sz now))
                  ∷ []
                else []))
unfolding slog slog_internal slog_enabled
slog-whole_line log level body sz now t =
    let m = take 124 (if sz == 0 then body else take sz body) in
    let short =
      length-line_of log.self (time_text now) level m t
        (omega (arith, length-take 124 (if sz == 0 then body else take sz body))) in
    let text : line_of log.self (time_text now) level (limit_message body sz)
        ≡ whole_line log level body sz now =
      ap (line_of log.self (time_text now) level) (limit_message_lem body sz) in
    let full : take 247 (whole_line log level body sz now) ≡ whole_line log level body sz now =
      take-all (whole_line log level body sz now) {n = 247} (omega arith) in
    (
      short,
      elim (Bool-cases (leb (level_number level) log.verbosity)) [
        | inl e ↦ elim (Bool-cases (log.fd == 0)) [
          | inl z ↦ rw (e, z) (sym (append-nil log.written))
          | inr z ↦ rw (e, z, sync-written, text, full) refl
        ]
        | inr e ↦ rw e (sym (append-nil log.written))
      ],
    )
