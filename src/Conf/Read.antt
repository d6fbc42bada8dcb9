-- ===== src/Conf/Read.antt =====
-- `conf_read` of src/conf.c: one member of the file after the other.
use webdis.Conf.{Libc}
use webdis.Conf.Settings.{
  Value, json_object, json_integer, json_true, json_false, Settings, Accounts, defaults, or_default,
  members, with_string, with_int, with_flag, set_redis_auth, set_max_request_size, set_acl,
  set_log_fsync, set_verbosity,
}
use webdis.Prelude.Int.{ℤ, to_int}
use webdis.Prelude.Text.{Bytes, codes, strcmp_eq}
use webdis.Prelude.{Bool, true, false, Option, none, some, List, [], ◌∷◌, if◌then◌else◌}

module _ {J : Type 0} (view : J → Value J) (libc : Libc) (ids : Accounts) where
  abbrev pub string : (Bytes → Settings → Settings) → Value J → Settings → Settings
  string = with_string view libc ids

  abbrev pub int : (ℤ → Settings → Settings) → Value J → Settings → Settings
  int = with_int view libc ids

  abbrev pub flag : (Bool → Settings → Settings) → Value J → Settings → Settings
  flag = with_flag view libc ids

  -- No environment for a flag or a number of a struct.
  unfoldable pub set_ssl_enabled : Value J → Settings → Settings
  set_ssl_enabled json_true c = record c { ssl_enabled = true }
  set_ssl_enabled json_false c = record c { ssl_enabled = false }
  set_ssl_enabled v c = c

  unfoldable pub set_keep_alive_sec : Value J → Settings → Settings
  set_keep_alive_sec (json_integer n) c = record c { keep_alive_sec = to_int n }
  set_keep_alive_sec v c = c

  unfoldable pub ssl_member : Bytes → Value J → Settings → Settings
  unfolding set_ssl_enabled
  ssl_member key v c =
      if strcmp_eq key (codes "enabled")
      then set_ssl_enabled v c
      else if strcmp_eq key (codes "ca_cert_bundle")
      then string (λ s c. record c { ca_cert_bundle = some s }) v c
      else if strcmp_eq key (codes "path_to_certs")
      then string (λ s c. record c { path_to_certs = some s }) v c
      else if strcmp_eq key (codes "client_cert")
      then string (λ s c. record c { client_cert_pem = some s }) v c
      else if strcmp_eq key (codes "client_key")
      then string (λ s c. record c { client_key_pem = some s }) v c
      else if strcmp_eq key (codes "redis_sni")
      then string (λ s c. record c { redis_sni = some s }) v c
      else c

  unfoldable pub conf_parse_ssl : List (Bytes × J) → Settings → Settings
  unfolding ssl_member
  conf_parse_ssl [] c = c
  conf_parse_ssl ((key, j) ∷ ms) c = conf_parse_ssl ms (ssl_member key (view j) c)

  unfoldable pub conf_parse_hiredis : List (Bytes × J) → Settings → Settings
  unfolding set_keep_alive_sec
  conf_parse_hiredis [] c = c
  conf_parse_hiredis ((key, j) ∷ ms) c =
      conf_parse_hiredis ms
        (if strcmp_eq key (codes "keep_alive_sec") then set_keep_alive_sec (view j) c else c)

  unfoldable pub set_ssl : Value J → Settings → Settings
  unfolding conf_parse_ssl
  set_ssl (json_object ms) c = conf_parse_ssl ms c
  set_ssl v c = c

  unfoldable pub set_hiredis : Value J → Settings → Settings
  unfolding conf_parse_hiredis
  set_hiredis (json_object ms) c = conf_parse_hiredis ms c
  set_hiredis v c = c

  -- The second half of the tests. A key that is not known is warned of.
  unfoldable pub read_late_member : Bytes → Value J → Settings → Settings
  unfolding set_log_fsync set_verbosity set_ssl set_hiredis
  read_late_member key v c =
      if strcmp_eq key (codes "logfile")
      then string (λ s c. record c { logfile = s }) v c
      else if strcmp_eq key (codes "log_fsync")
      then set_log_fsync view libc ids v c
      else if strcmp_eq key (codes "verbosity")
      then set_verbosity view libc ids v c
      else if strcmp_eq key (codes "daemonize")
      then flag (λ b c. record c { daemonize = b }) v c
      else if strcmp_eq key (codes "pidfile")
      then string (λ s c. record c { pidfile = s }) v c
      else if strcmp_eq key (codes "websockets")
      then flag (λ b c. record c { websockets = b }) v c
      else if strcmp_eq key (codes "database")
      then int (λ n c. record c { database = n }) v c
      else if strcmp_eq key (codes "pool_size")
      then int (λ n c. record c { pool_size_per_thread = n }) v c
      else if strcmp_eq key (codes "default_root")
      then string (λ s c. record c { default_root = some s }) v c
      else if strcmp_eq key (codes "ssl")
      then set_ssl v c
      else if strcmp_eq key (codes "hiredis")
      then set_hiredis v c
      else c

  -- The body of the loop.
  unfoldable pub read_member : Bytes → Value J → Settings → Settings
  unfolding set_redis_auth set_max_request_size set_acl read_late_member
  read_member key v c =
      if strcmp_eq key (codes "redis_host")
      then string (λ s c. record c { redis_host = s }) v c
      else if strcmp_eq key (codes "redis_port")
      then int (λ n c. record c { redis_port = n }) v c
      else if strcmp_eq key (codes "redis_auth")
      then set_redis_auth view libc ids v c
      else if strcmp_eq key (codes "http_host")
      then string (λ s c. record c { http_host = s }) v c
      else if strcmp_eq key (codes "http_port")
      then int (λ n c. record c { http_port = n }) v c
      else if strcmp_eq key (codes "http_max_request_size")
      then set_max_request_size view libc ids v c
      else if strcmp_eq key (codes "threads")
      then int (λ n c. record c { http_threads = n }) v c
      else if strcmp_eq key (codes "acl")
      then set_acl view libc ids v c
      else if strcmp_eq key (codes "user")
      then string (λ s c. record c { user = or_default c.user (ids.user_of s) }) v c
      else if strcmp_eq key (codes "group")
      then string (λ s c. record c { group = or_default c.group (ids.group_of s) }) v c
      else read_late_member key v c

  unfoldable pub read_members : List (Bytes × J) → Settings → Settings
  unfolding read_member
  read_members [] c = c
  read_members ((key, j) ∷ ms) c = read_members ms (read_member key (view j) c)

  -- The file, if it could be loaded; it may hold another value than an object.
  unfoldable pub conf_read : Option J → Settings
  unfolding defaults read_members
  conf_read none = defaults ids
  conf_read (some j) = read_members (members view libc ids (view j)) (defaults ids)
