-- ===== src/Tests/Logs.antt =====
-- The log: src/slog.c, and the answers to AUTH in src/pool.c.
use webdis.Pool.AuthLog.{auth_replies}
use webdis.Prelude.Int.{pos, negsuc}
use webdis.Prelude.Text.{Bytes, codes}
use webdis.Reply.{Reply}
use webdis.Slog.{Log, log_fsync_auto, log_fsync_millis, slog, level_number, slog_internal, sync}
use webdis.Slog.Setup.{slog_init, slog_fsync_init}
use webdis.Prelude.{false, Option, none, some, List, [], ◌∷◌, ◌≡◌, refl, length}

abbrev log : Log
log = record { self = 42; fd = 2; verbosity = 3; mode = log_fsync_auto; written = []; fsyncs = 0 }

-- A connection that is lost, a failure, and a success.
abbrev replies : List (Option Bytes × Option Reply)
replies =
    (none, none)
    ∷ (none, some (Reply.error (codes "WRONGPASS")))
    ∷ (none, some (Reply.status (codes "OK")))
    ∷ []

one_line : length (auth_replies (record { log = log; auth_logged = false }) replies).log.written ≡ 1
unfolding auth_replies slog level_number slog_internal sync
one_line = refl

-- A log that cannot be opened twice in a row: the standard error is closed, and is the log.
closed_log :
    slog_init none (slog_init none (record { fd = none; closed = none }))
    ≡ record { fd = some 2; closed = some 2 }
unfolding slog_init
closed_log = refl

-- A period of 36 minutes is a negative number of microseconds.
negative_period : slog_fsync_init log_fsync_millis (pos 2160000) ≡ some (negsuc 2133, negsuc 967295)
unfolding slog_fsync_init
negative_period = refl
