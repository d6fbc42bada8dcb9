-- ===== src/Conf/Settings.antt =====
-- `conf_read` of src/conf.c: the settings, from the members of the configuration file.
use webdis.Conf.{Json, Libc, conf_string_or_envvar, conf_parse_acls}
use webdis.Pool.{Auth}
use webdis.Prelude.Int.{ℤ, pos, negsuc, to_int}
use webdis.Prelude.Text.{Bytes, codes, strcmp_eq, strcasecmp_eq}
use webdis.Slog.{LogFsyncMode, log_fsync_auto, log_fsync_millis, log_fsync_all}
use webdis.State.{Acl}
use webdis.Prelude.{
  ℕ, ◌-◌, ◌*◌, ◌%◌, ◌^◌, Bool, true, false, Option, none, some, List, [], ◌∷◌, ltb, if◌then◌else◌,
}

-- What jansson says of a value: its type and what is inside. The members of an object are in the
-- order of `json_object_iter`.
pub data Value (J : Type 0) : Type 0 where
  json_object : List (Bytes × J) → Value J
  json_array : List J → Value J
  json_string : Bytes → Value J
  json_integer : ℤ → Value J
  json_true json_false json_null json_real : Value J

-- The options of hiredis, the log and SSL (for a build with it) are structs in the source.
pub record Settings : Type 0 where
  pub redis_host : Bytes
  pub redis_port : ℤ
  pub redis_auth : Option Auth
  pub http_host : Bytes
  pub http_port : ℤ
  pub http_threads : ℤ
  pub http_max_request_size : ℕ
  pub pool_size_per_thread : ℤ
  pub daemonize : Bool
  pub pidfile : Bytes
  pub websockets : Bool
  pub database : ℤ
  pub perms : List Acl
  pub user : ℕ
  pub group : ℕ
  pub logfile : Bytes
  pub verbosity : ℕ
  pub log_fsync_mode : LogFsyncMode
  pub log_fsync_period_millis : ℤ
  pub keep_alive_sec : ℤ
  pub ssl_enabled : Bool
  pub ca_cert_bundle : Option Bytes
  pub path_to_certs : Option Bytes
  pub client_cert_pem : Option Bytes
  pub client_key_pem : Option Bytes
  pub redis_sni : Option Bytes
  pub default_root : Option Bytes

-- `getuid`, `getgid`, `getpwnam` and `getgrnam`.
pub record Accounts : Type 0 where
  pub uid : ℕ
  pub gid : ℕ
  pub user_of : Bytes → Option ℕ
  pub group_of : Bytes → Option ℕ

unfoldable pub defaults : Accounts → Settings
defaults ids = record {
  redis_host = codes "127.0.0.1";
  redis_port = pos 6379;
  redis_auth = none;
  http_host = codes "0.0.0.0";
  http_port = pos 7379;
  http_threads = pos 4;
  http_max_request_size = 128 * 1024 * 1024;
  pool_size_per_thread = pos 2;
  daemonize = false;
  pidfile = codes "webdis.pid";
  websockets = false;
  database = pos 0;
  perms = [];
  user = ids.uid;
  group = ids.gid;
  logfile = codes "webdis.log";
  verbosity = 2;
  log_fsync_mode = log_fsync_auto;
  log_fsync_period_millis = pos 0;
  keep_alive_sec = pos 0;
  ssl_enabled = false;
  ca_cert_bundle = none;
  path_to_certs = none;
  client_cert_pem = none;
  client_key_pem = none;
  redis_sni = none;
  default_root = none;
}

-- The cast to `size_t`.
abbrev pub to_size : ℤ → ℕ
to_size (pos n) = n % 2 ^ 64
to_size (negsuc n) = 2 ^ 64 - 1 - n % 2 ^ 64

-- `tmp < 0 ? WEBDIS_ERROR : (tmp > WEBDIS_TRACE ? WEBDIS_TRACE : tmp)`.
unfoldable pub clamp_verbosity : ℤ → ℕ
clamp_verbosity (pos n) = if ltb 8 n then 8 else n
clamp_verbosity (negsuc n) = 0

abbrev pub or_default : ℕ → Option ℕ → ℕ
or_default old none = old
or_default old (some id) = id

module _ {J : Type 0} (view : J → Value J) (libc : Libc) (ids : Accounts) where
  -- `json_object_get`: the keys of an object are different.
  abbrev pub member_of : List (Bytes × J) → Bytes → Option J
  member_of [] k = none
  member_of ((j, v) ∷ ms) k = if strcmp_eq j k then some v else member_of ms k

  abbrev pub members : Value J → List (Bytes × J)
  members (json_object ms) = ms
  members v = []

  abbrev pub string_of : Value J → Option Bytes
  string_of (json_string s) = some s
  string_of v = none

  abbrev pub items : Value J → Option (List J)
  items (json_array js) = some js
  items v = none

  abbrev pub json : Json J
  json = record {
    object_get = λ j k. member_of (members (view j)) k;
    string_value = λ j. string_of (view j);
    array_values = λ j. items (view j);
  }

  abbrev pub env : Bytes → Bytes
  env s = conf_string_or_envvar json libc (some s)

  -- A setting that takes a string, a number, a flag, or one of these in a string; any other value
  -- is warned of, and left out.
  abbrev pub with_string : (Bytes → Settings → Settings) → Value J → Settings → Settings
  with_string f (json_string s) c = f (env s) c
  with_string f v c = c

  abbrev pub with_int : (ℤ → Settings → Settings) → Value J → Settings → Settings
  with_int f (json_integer n) c = f (to_int n) c
  with_int f (json_string s) c = f (libc.atoi (env s)) c
  with_int f v c = c

  abbrev pub with_flag : (Bool → Settings → Settings) → Value J → Settings → Settings
  with_flag f json_true c = f true c
  with_flag f json_false c = f false c
  with_flag f (json_string s) c = f (strcasecmp_eq (env s) (codes "true")) c
  with_flag f v c = c

  abbrev pub string_pair : Option Bytes → Option Bytes → Option Auth
  string_pair (some u) (some p) =
      some (record { use_legacy_auth = false; username = env u; password = env p })
  string_pair u p = none

  -- Anything but two strings disables the authentication.
  unfoldable pub conf_auth_username_password : List J → Option Auth
  conf_auth_username_password (u ∷ p ∷ []) = string_pair (string_of (view u)) (string_of (view p))
  conf_auth_username_password js = none

  unfoldable pub conf_auth_legacy : Bytes → Option Auth
  conf_auth_legacy password =
      some (record { use_legacy_auth = true; username = []; password = password })

  unfoldable pub set_redis_auth : Value J → Settings → Settings
  unfolding conf_auth_legacy conf_auth_username_password
  set_redis_auth (json_string s) c = record c { redis_auth = conf_auth_legacy (env s) }
  set_redis_auth (json_array js) c = record c { redis_auth = conf_auth_username_password js }
  set_redis_auth v c = c

  unfoldable pub set_max_request_size : Value J → Settings → Settings
  set_max_request_size (json_integer n) c = record c { http_max_request_size = to_size n }
  set_max_request_size (json_string s) c = record c {
    http_max_request_size = to_size (libc.atoi (env s));
  }
  set_max_request_size v c = c

  unfoldable pub set_acl : Value J → Settings → Settings
  set_acl (json_array js) c = record c { perms = conf_parse_acls json libc js }
  set_acl v c = c

  abbrev pub positive : ℤ → Bool
  positive (pos n) = ltb 0 n
  positive (negsuc n) = false

  -- The string is taken as it is, with no environment.
  unfoldable pub set_log_fsync : Value J → Settings → Settings
  set_log_fsync (json_string s) c =
      if strcmp_eq s (codes "auto")
      then record c { log_fsync_mode = log_fsync_auto }
      else if strcmp_eq s (codes "all")
      then record c { log_fsync_mode = log_fsync_all }
      else c
  set_log_fsync (json_integer n) c =
      if positive n
      then record c { log_fsync_mode = log_fsync_millis; log_fsync_period_millis = to_int n }
      else c
  set_log_fsync v c = c

  unfoldable pub set_verbosity : Value J → Settings → Settings
  unfolding clamp_verbosity
  set_verbosity (json_integer n) c = record c { verbosity = clamp_verbosity (to_int n) }
  set_verbosity v c = c
