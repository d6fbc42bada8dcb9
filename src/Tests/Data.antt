-- ===== src/Tests/Data.antt =====
-- The configuration and the client that the tests share.
use webdis.Cmd.{World}
use webdis.Pool.{Pool, PoolConf, Connecting}
use webdis.Prelude.Text.{codes}
use webdis.State.{Header, Acl, Conf, last_cb_none, HttpClient}
use webdis.Prelude.{ℕ, ◌+◌, true, false, none, some, List, [], ◌∷◌}

-- As in webdis.json: DEBUG is off for everybody, and on for a user from 127.0.0.1/32.
abbrev pub debug_off : Acl
debug_off = record {
  cidr_enabled = false;
  subnet = 0;
  mask = 0;
  http_basic_auth = none;
  enabled = [];
  disabled = codes "DEBUG" ∷ [];
}

abbrev pub debug_on : Acl
debug_on = record {
  cidr_enabled = true;
  subnet = 2130706433;
  mask = 4294967295;
  http_basic_auth = some (codes "dXNlcjpwYXNzd29yZA==");
  enabled = codes "DEBUG" ∷ [];
  disabled = [];
}

abbrev pub getset_off : Acl
getset_off = record debug_off { disabled = codes "GETSET" ∷ [] }

abbrev pub conf : List Acl → Conf
conf perms = record {
  database = 0;
  websockets = true;
  perms = perms;
  default_root = none;
  http_max_request_size = 134217728;
}

abbrev pub authorization : Header
authorization = record {
  key = codes "authorization";
  val = some (codes "Basic dXNlcjpwYXNzd29yZA==");
}

abbrev pub local_client : HttpClient
local_client = record {
  fd = 7;
  addr = 2130706433;
  buffer = [];
  request_sz = 0;
  last_cb = last_cb_none;
  keep_alive = true;
  broken = false;
  fully_read = true;
  is_websocket = false;
  http_version = 1;
  path = codes "/";
  headers = authorization ∷ [];
  body = [];
  mime = none;
  jsonp = none;
  separator = none;
  filename = none;
  reused_cmd = none;
  last_cmd = none;
}

abbrev pub pool_conf : PoolConf
pool_conf = record { redis_auth = none; ssl_enabled = false }

abbrev pub accepted : ℕ → Connecting
accepted n = record { handle = 100 + n; err = false; ssl_ok = true }

abbrev pub refused_connection : Connecting
refused_connection = record { handle = 100; err = true; ssl_ok = true }

abbrev pub two_slots : Pool
two_slots = record { count = 2; cur = 0; ac = some 100 ∷ some 101 ∷ []; reconnects = 0 }

abbrev pub world : World
world = record {
  client = local_client;
  pool = two_slots;
  cmds = λ h. none;
  next = 0;
  sent = [];
  queued = [];
  disconnected = [];
}
