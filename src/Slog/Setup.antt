-- ===== src/Slog/Setup.antt =====
-- src/slog.c: the file of the log, and the timer of its `fsync`.
use native.Mathlib.Nat.{mod-eq_of_lt}
use webdis.Prelude.Int.{ℤ, pos, negsuc, to_int}
use webdis.Slog.{LogFsyncMode, log_fsync_millis, Log}
use webdis.Prelude.{
  ℕ, zero, suc, ◌+◌, ◌*◌, ◌/◌, ◌%◌, ◌<◌, ◌^◌, lt→ltb, ◌≡◌, Option, none, some, arith,
}

-- `log.fd`, and the descriptors that are open. -1 is `none`.
pub record LogFile : Type 0 where
  pub fd : Option ℕ
  pub closed : Option ℕ

abbrev pub or_stderr : Option ℕ → Option ℕ
or_stderr none = some 2
or_stderr (some fd) = some fd

-- `opened` is what `open` answers. The configuration always names a file. `closed` is the
-- descriptor that is closed by the call.
unfoldable pub slog_init : Option ℕ → LogFile → LogFile
slog_init opened log = record { fd = or_stderr opened; closed = log.fd }

unfoldable pub slog_fsync_tick : Log → Log
slog_fsync_tick log = record log { fsyncs = log.fsyncs + 1 }

abbrev pub opposite : ℕ → ℤ
opposite zero = pos 0
opposite (suc n) = negsuc n

-- Division and remainder of an `int` by a positive number.
abbrev pub quotient : ℤ → ℕ → ℤ
quotient (pos n) d = pos (n / d)
quotient (negsuc n) d = opposite (suc n / d)

abbrev pub remainder : ℤ → ℕ → ℤ
remainder (pos n) d = pos (n % d)
remainder (negsuc n) d = opposite (suc n % d)

abbrev pub thousandfold : ℤ → ℤ
thousandfold (pos n) = to_int (pos (n * 1000))
thousandfold (negsuc n) = to_int (negsuc (n * 1000 + 999))

-- `fsync_tv`: seconds and microseconds; `none` when there is no timer. The product wraps.
unfoldable pub slog_fsync_init : LogFsyncMode → ℤ → Option (ℤ × ℤ)
slog_fsync_init log_fsync_millis period_millis =
    let period_usec = thousandfold period_millis in
    some (quotient period_usec 1000000, remainder period_usec 1000000)
slog_fsync_init mode period_millis = none

-- The timer has the period of the configuration, when its microseconds fit an `int`.
slog_fsync_init-period :
    (n : ℕ)
    → n * 1000 < 2 ^ 31
    → slog_fsync_init log_fsync_millis (pos n) ≡ some (pos (n / 1000), pos (n % 1000 * 1000))
unfolding slog_fsync_init
slog_fsync_init-period n h =
    let small : n * 1000 % 2 ^ 32 ≡ n * 1000 = mod-eq_of_lt (omega (arith, h)) in
    let seconds : n * 1000 / 1000000 ≡ n / 1000 = omega arith in
    let rest : n * 1000 % 1000000 ≡ n % 1000 * 1000 = omega arith in
    rw (small, lt→ltb (n * 1000) (2 ^ 31) h, seconds, rest)
