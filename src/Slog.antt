-- ===== src/Slog.antt =====
-- src/slog.c: the messages that are written to the log.
pub mod Line
pub mod Setup
use webdis.Prelude.Digits.{decimal}
use webdis.Prelude.Text.{Bytes, codes}
use webdis.Prelude.{
  ℕ, ◌+◌, Bool, not, Option, none, some, List, [], ◌∷◌, ◌++◌, ltb, leb, ◌==◌, if◌then◌else◌, length,
  take,
}

pub data LogLevel : Type 0 where
  webdis_error webdis_warning webdis_notice webdis_info webdis_debug webdis_trace : LogLevel

unfoldable pub level_number : LogLevel → ℕ
level_number webdis_error = 0
level_number webdis_warning = 1
level_number webdis_notice = 2
level_number webdis_info = 3
level_number webdis_debug = 4
level_number webdis_trace = 8

-- The character of "EWNIDT" for a level.
unfoldable pub letter_of : LogLevel → ℕ
letter_of webdis_error = b'E'
letter_of webdis_warning = b'W'
letter_of webdis_notice = b'N'
letter_of webdis_info = b'I'
letter_of webdis_debug = b'D'
letter_of webdis_trace = b'T'

pub data LogFsyncMode : Type 0 where
  log_fsync_auto log_fsync_millis log_fsync_all : LogFsyncMode

-- `written` has, for each `write`, the string in the buffer and the size that is given to `write`;
-- `fsyncs` counts the calls of `fsync`.
pub record Log : Type 0 where
  pub self : ℕ
  pub fd : ℕ
  pub verbosity : ℕ
  pub mode : LogFsyncMode
  pub written : List (Bytes × ℕ)
  pub fsyncs : ℕ

-- A body is the bytes before its NUL. 125 is the size of `msg`.
unfoldable pub limit_message : Bytes → ℕ → Bytes
limit_message body sz =
    let size = (if sz == 0 then length body else sz) + 1 in
    take (if ltb 125 size then 124 else if sz == 0 then length body else sz) body

-- What `strftime` writes of the local time, if there is one.
unfoldable pub time_text : Option Bytes → Bytes
time_text none = codes "(NO TIME AVAILABLE)"
time_text (some t) = t

unfoldable pub line_of : ℕ → Bytes → LogLevel → Bytes → Bytes
line_of self time level msg =
    b'['
    ∷ (decimal self
        ++ (b']' ∷ b' ' ∷ (time ++ (b' ' ∷ letter_of level ∷ b' ' ∷ (msg ++ (10 ∷ []))))))

unfoldable pub sync : Log → Log
sync log = elim log.mode [ log_fsync_all ↦ record log { fsyncs = log.fsyncs + 1 } | m ↦ log ]

-- 248 is the size of `line`, of which `snprintf` fills all but a byte; what it returns is the size
-- of the whole string.
unfoldable pub slog_internal : Log → LogLevel → Bytes → ℕ → Option Bytes → Log
slog_internal log level body sz now =
    let text = line_of log.self (time_text now) level (limit_message body sz) in
    if log.fd == 0
    then log
    else sync (record log { written = log.written ++ ((take 247 text, length text) ∷ []) })

unfoldable pub slog_enabled : Log → LogLevel → Bool
slog_enabled log level = leb (level_number level) log.verbosity

unfoldable pub slog : Log → LogLevel → Bytes → ℕ → Option Bytes → Log
slog log level body sz now =
    if leb (level_number level) log.verbosity then slog_internal log level body sz now else log
