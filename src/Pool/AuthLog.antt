-- ===== src/Pool/AuthLog.antt =====
-- src/pool.c: what the log is told of the answers to AUTH. The pools of all the workers share the
-- flag `auth_logged`; a call under its lock is one step.
use webdis.Formats.Json.{c_string}
use webdis.Prelude.Text.{Bytes, codes}
use webdis.Reply.{Reply}
use webdis.Slog.{Log, LogLevel, webdis_error, webdis_info, slog}
use webdis.Prelude.{
  ◌+◌, ◌-◌, ◌≡◌, ◌∙◌, ap, refl, Bool, true, false, Option, none, some, List, [], ◌∷◌, ◌++◌, length,
  take, if◌then◌else◌, take-all, length-append, arith,
}

pub record AuthLog : Type 0 where
  pub log : Log
  pub auth_logged : Bool

-- `format` is `before` and `%s`; `msg_size - 1` bytes of the text fit into the buffer.
unfoldable pub pool_log_auth : Log → LogLevel → Bytes → Bytes → Option Bytes → Log
unfolding slog c_string
pool_log_auth log level before str now =
    let format_len = length before + 2 in
    let msg_size = format_len - 2 + length (c_string str) + 1 in
    slog log level (take (msg_size - 1) (before ++ c_string str)) (msg_size - 1) now

abbrev pub log_answer : Log → Option Bytes → Reply → Log
log_answer log now (Reply.error str) =
    pool_log_auth log webdis_error (codes "Authentication failed: ") str now
log_answer log now (Reply.status str) =
    pool_log_auth log webdis_info (codes "Authentication succeeded: ") str now
log_answer log now r = log

-- A reply is `none` when the connection is lost.
unfoldable pub pool_on_auth_complete : Option Bytes → AuthLog → Option Reply → AuthLog
unfolding pool_log_auth
pool_on_auth_complete now s none = s
pool_on_auth_complete now s (some r) =
    if s.auth_logged then s else record { log = log_answer s.log now r; auth_logged = true }

-- One reply after the other, with the time of each, whichever worker it is for.
unfoldable pub auth_replies : AuthLog → List (Option Bytes × Option Reply) → AuthLog
unfolding pool_on_auth_complete
auth_replies s [] = s
auth_replies s ((now, r) ∷ rs) = auth_replies (pool_on_auth_complete now s r) rs

-- The first reply that is there.
unfoldable pub first_reply : List (Option Bytes × Option Reply) → Option (Option Bytes × Reply)
first_reply [] = none
first_reply ((now, none) ∷ rs) = first_reply rs
first_reply ((now, some r) ∷ rs) = some (now, r)

-- What the log is told, without the buffer.
unfoldable pub announce : Log → Option (Option Bytes × Reply) → Log
announce log none = log
announce log (some (now, Reply.error str)) =
    let text = codes "Authentication failed: " ++ c_string str in
    slog log webdis_error text (length text) now
announce log (some (now, Reply.status str)) =
    let text = codes "Authentication succeeded: " ++ c_string str in
    slog log webdis_info text (length text) now
announce log (some (now, r)) = log

-- The buffer holds the whole text.
pool_log_auth-whole :
    (log : Log) (level : LogLevel) (before str : Bytes) (now : Option Bytes)
    → pool_log_auth log level before str now
      ≡ slog log level (before ++ c_string str) (length (before ++ c_string str)) now
unfolding pool_log_auth
pool_log_auth-whole log level before str now =
    let size : length before + 2 - 2 + length (c_string str) + 1 - 1
        ≡ length (before ++ c_string str) =
      omega (arith, length-append before (c_string str)) in
    rw size (
      ap (λ t. slog log level t (length (before ++ c_string str)) now)
        (take-all (before ++ c_string str) (omega arith)))

-- Once a reply has been logged, no other one is.
auth_replies-logged :
    (log : Log) (rs : List (Option Bytes × Option Reply))
    → auth_replies (record { log = log; auth_logged = true }) rs
      ≡ record { log = log; auth_logged = true }
unfolding auth_replies
auth_replies-logged log [] = refl
auth_replies-logged log ((now, none) ∷ rs) = auth_replies-logged log rs
auth_replies-logged log ((now, some r) ∷ rs) = auth_replies-logged log rs

log_answer-announce :
    (log : Log) (now : Option Bytes) (r : Reply)
    → log_answer log now r ≡ announce log (some (now, r))
unfolding announce
log_answer-announce log now (Reply.error str) = pool_log_auth-whole log webdis_error _ str now
log_answer-announce log now (Reply.status str) = pool_log_auth-whole log webdis_info _ str now
log_answer-announce log now r = refl

-- From a server that has logged no answer yet: whatever the replies to the AUTH commands of all
-- the connections of all the workers, and in whatever order they come, the log is told of the first
-- one alone, with its whole text, as an error or as a success; a first reply that is neither an
-- error nor a status keeps all the others out of the log.
pub auth_replies-announce :
    (log : Log) (rs : List (Option Bytes × Option Reply))
    → (auth_replies (record { log = log; auth_logged = false }) rs).log
      ≡ announce log (first_reply rs)
unfolding auth_replies first_reply announce
auth_replies-announce log [] = refl
auth_replies-announce log ((now, none) ∷ rs) = auth_replies-announce log rs
auth_replies-announce log ((now, some r) ∷ rs) =
    ap (λ s. s.log) (auth_replies-logged (log_answer log now r) rs) ∙ log_answer-announce log now r
