-- ===== src/Tests/Settings.antt =====
-- The access rules of the configuration, the callbacks and the log: src/conf.c, src/formats and
-- src/slog.c.
use webdis.Acl.{cidr_ok}
use webdis.Cmd.{Cmd, empty_cmd, cmd_is_subscribe}
use webdis.Conf.{Json, Libc, conf_string_or_envvar, conf_parse_acl, mask_of}
use webdis.Conf.Cidr.{same_prefix, conf_parse_acl-cidr_ok}
use webdis.Formats.Msgpack.{Pack, msgpack_wrap_redis_reply, pack_reply}
use webdis.Formats.MsgpackReply.{value_of, one, IsPackable, read_values-msgpack_wrap_redis_reply}
use webdis.Formats.MsgpackValue.{read_values, size_values}
use webdis.Formats.Replies.{callbacks, IsOnce, IsSingle, callbacks-IsOnce}
use webdis.Http.Reader.{read_digits}
use webdis.Prelude.Int.{pos}
use webdis.Prelude.Text.{codes, strcmp_eq, strncasecmp_eq, memchr}
use webdis.Reply.{Reply, Elements}
use webdis.Prelude.Digits.{decimal}
use webdis.Slog.{
  level_number, slog_internal, sync, line_of, letter_of, limit_message, Log, webdis_notice,
  log_fsync_all, time_text, slog_enabled, slog,
}
use webdis.Slog.Line.{whole_line, slog-whole_line}
use webdis.Tests.Trees.{small}
use webdis.Tests.Data.{conf, world}
use webdis.Prelude.{
  length, not, ◌&&◌, ℕ, ◌++◌, ◌<◌, Option, List, ◌≡◌, refl, inl, false, none, some, [], ◌∷◌, arith,
  ◌==◌, if◌then◌else◌, All,
}

-- An object whose "ip" is $NETWORK, which stands for 10.1.0.0/16 in the environment.
json : Json ℕ
unfolding strcmp_eq
json = record {
  object_get = λ j k. if strcmp_eq k (codes "ip") then some 1 else none;
  string_value = λ j. if j == 1 then some (codes "$NETWORK") else none;
  array_values = λ j. none;
}

libc : Libc
unfolding read_digits
libc = record {
  getenv = λ name. some (codes "10.1.0.0/16");
  atoi = λ s. pos (read_digits 10 0 s).0;
  inet_addr = λ s. 167837696;
  base64_encode = λ s. s;
  shift_beyond = λ n. 0;
}

expanded : conf_string_or_envvar json libc (some (codes "$NETWORK")) ≡ codes "10.1.0.0/16"
unfolding libc conf_string_or_envvar
expanded = refl

conf_parse_acl-cidr_ok_example :
    cidr_ok (conf_parse_acl json libc 0) 167903233 ≡ same_prefix 16 167903233 167837696
unfolding json libc
conf_parse_acl-cidr_ok_example =
    conf_parse_acl-cidr_ok 16 (omega arith) (omega arith) json libc 0 (codes "$NETWORK")
      (codes "10.1.0.0") (codes "16") 167903233 refl expanded refl refl (omega arith) (omega arith)

-- 10.2.0.1 is outside.
outside : cidr_ok (conf_parse_acl json libc 0) 167903233 ≡ false
unfolding json libc cidr_ok conf_parse_acl memchr
outside = refl

-- A block of no bits is about one address.
no_bits : mask_of json libc 0 ≡ 4294967295
no_bits = refl

hgetall : Cmd
unfolding empty_cmd
hgetall = record (empty_cmd 2) { argv = codes "HGETALL" ∷ codes "h" ∷ []; fd = some 7 }

hash : Reply
hash = Reply.array (
    Elements.item (Reply.string (codes "k"))
      (Elements.item (Reply.string (codes "v")) Elements.end))

hash-IsPackable : IsPackable (codes "HGETALL") hash
unfolding hash strncasecmp_eq
hash-IsPackable = inl (refl, tt)

read_values-msgpack_wrap_redis_reply_example :
    read_values 9 1 (msgpack_wrap_redis_reply hgetall hash) ≡ some (one (value_of hgetall hash), [])
unfolding hgetall hash value_of size_values strncasecmp_eq
read_values-msgpack_wrap_redis_reply_example =
    read_values-msgpack_wrap_redis_reply hgetall hash 9 hash-IsPackable (omega arith)

-- An odd number of elements leaves the object without its value.
odd_hash :
    read_values 9 1 (
      msgpack_wrap_redis_reply hgetall
        (Reply.array (Elements.item (Reply.string (codes "k")) Elements.end)))
    ≡ none
unfolding hgetall read_values msgpack_wrap_redis_reply strncasecmp_eq
odd_hash = refl

-- Values that are integers are left out of an object that announces them.
integer_hash :
    pack_reply (codes "HGETALL") (
      Reply.array (
        Elements.item
          (Reply.string (codes "k"))
          (Elements.item (Reply.integer (pos 1)) Elements.end)))
    ≡ Pack.pack_map 1 ∷ []
unfolding pack_reply strncasecmp_eq
integer_hash = refl

-- An integer beyond an `int` is cut.
cut_integer : pack_reply (codes "GET") (Reply.integer (pos 4294967297)) ≡ Pack.pack_int (pos 1) ∷ []
unfolding pack_reply
cut_integer = refl

-- A line without a colon, as INFO has for its sections, is counted but not packed.
info_section :
    pack_reply (codes "INFO") (Reply.string (codes "# Server\r\nport:1\r\n"))
    ≡ Pack.pack_map 2
      ∷ Pack.pack_raw 14
      ∷ Pack.pack_raw_body (codes "# Server\r\nport")
      ∷ Pack.pack_raw 1
      ∷ Pack.pack_raw_body (codes "1")
      ∷ []
unfolding pack_reply strncasecmp_eq memchr
info_section = refl

hgetall-IsSingle : IsSingle small (λ p. []) (λ p. []) (conf []) false hgetall 7
unfolding hgetall cmd_is_subscribe strncasecmp_eq
hgetall-IsSingle = record { plain = refl; not_subscribe = refl; attached = refl }

callbacks-IsOnce_example :
    All
      (IsOnce small (λ p. []) (λ p. []) (conf []) false world 0 7)
      (callbacks small (λ p. []) (λ p. []) (conf []) false world 0 hgetall (some hash))
callbacks-IsOnce_example =
    callbacks-IsOnce small (λ p. []) (λ p. []) (conf []) false world 0 7 hgetall hgetall-IsSingle
      (some hash)

-- Process 42, and the levels up to the notices.
abbrev log : Log
log = record { self = 42; fd = 2; verbosity = 2; mode = log_fsync_all; written = []; fsyncs = 0 }

abbrev now : Option (List ℕ)
now = some (codes "01 Jan 00:00:00")

notice :
    (slog log webdis_notice (codes "Too many connections") 0 now).written
    ≡ (codes "[42] 01 Jan 00:00:00 N Too many connections\n", 44) ∷ []
unfolding slog level_number slog_internal sync line_of decimal time_text letter_of limit_message
notice = refl

slog-whole_line_example :
    (length (whole_line log webdis_notice (codes "hello") 4 now) < 248)
    × ((slog log webdis_notice (codes "hello") 4 now).written
        ≡ log.written
          ++ (if slog_enabled log webdis_notice && not (log.fd == 0)
              then (
                whole_line log webdis_notice (codes "hello") 4 now,
                length (whole_line log webdis_notice (codes "hello") 4 now),
              )
                ∷ []
              else []))
unfolding time_text
slog-whole_line_example = slog-whole_line log webdis_notice (codes "hello") 4 now (omega arith)
