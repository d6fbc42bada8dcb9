-- ===== src/State.antt =====
-- The structs that the components share: src/http.h (`http_header`), src/acl.h, src/conf.h,
-- src/client.h and src/cmd.h. A flag is a Bool, a string its bytes, a nullable pointer an Option.
-- A `struct cmd *` is a handle: `last_cmd` and `reused_cmd` name commands of the heap in Cmd.
use webdis.Prelude.{ℕ, Bool, Option, List}
use webdis.Prelude.Text.{Bytes}

-- A key with its value. The value is absent until the parser's value callback has run.
pub record Header : Type 0 where
  pub key : Bytes
  pub val : Option Bytes

-- `in_addr_t` values are numbers below 2 ^ 32.
pub record Acl : Type 0 where
  pub cidr_enabled : Bool
  pub subnet : ℕ
  pub mask : ℕ
  pub http_basic_auth : Option Bytes
  pub enabled : List Bytes
  pub disabled : List Bytes

-- The fields of `struct conf` that requests read; `perms` is the linked list of blocks.
pub record Conf : Type 0 where
  pub database : ℕ
  pub websockets : Bool
  pub perms : List Acl
  pub default_root : Option Bytes
  pub http_max_request_size : ℕ

pub data LastCb : Type 0 where
  last_cb_none last_cb_key last_cb_val : LastCb

pub record HttpClient : Type 0 where
  pub fd : ℕ
  pub addr : ℕ
  pub buffer : Bytes
  pub request_sz : ℕ
  pub last_cb : LastCb
  pub keep_alive : Bool
  pub broken : Bool
  pub fully_read : Bool
  pub is_websocket : Bool
  pub http_version : ℕ
  pub path : Bytes
  pub headers : List Header
  pub body : Bytes
  pub mime : Option Bytes
  pub jsonp : Option Bytes
  pub separator : Option Bytes
  pub filename : Option Bytes
  pub reused_cmd : Option ℕ
  pub last_cmd : Option ℕ
