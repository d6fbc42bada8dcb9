-- ===== src/Cmd.antt =====
-- src/cmd.c: a request becomes a command for Redis. The commands live in a heap of handles, so
-- that the pointers between a client and its commands are modelled.
pub mod Uri
pub mod Extension
pub mod Transfer
pub mod Parse
pub mod Run
pub mod Slashes
pub mod Request
pub mod Bounds
pub mod SameName
pub mod Safety
pub mod Answered
pub mod Layout
pub mod Suffix
pub mod Filled
pub mod Ready
pub mod Judged
pub mod Calls
pub mod Kept
pub mod Heap
pub mod Verdict
pub mod Allocation
use webdis.Acl.{acl_allow_command}
use webdis.Pool.{Pool, Setup}
use webdis.Prelude.Text.{Bytes, codes, strncasecmp_eq, strcasecmp_eq}
use webdis.State.{Header, Conf, HttpClient}
use webdis.Prelude.{
  ℕ, zero, suc, ◌+◌, ◌-◌, ◌*◌, ◌/◌, ◌%◌, ◌^◌, ◌≤◌, ◌<◌, min, ◌≡◌, refl, sym, ap, ◌∙◌, ◌≢◌, ◌↔◌, ◌⊎◌,
  inl, inr, Bool, true, false, not, ◌&&◌, ◌||◌, Option, none, some, List, [], ◌∷◌, ◌++◌, map,
  append-nil, append_assoc, arith, ltb, leb, ◌==◌, if◌then◌else◌, ==_iff, ltb→lt, lt→ltb, leb→le,
  Bool-cases, Option-cases, length, get_elem?, set, length-append, length-set, get_elem?-set_self,
  get_elem?-set_ne, get_or, take, drop, replicate, take-append-drop, length-take, length-drop,
  length-replicate, length-map, All, Any,
}

-- The callbacks that format a reply.
pub data Format : Type 0 where
  json_reply raw_reply msgpack_reply custom_type_reply : Format

pub data Response : Type 0 where
  cmd_sent cmd_param_error cmd_acl_fail cmd_redis_unavail : Response

-- `argv` has the slots that `cmd_new` allocates; an empty one is a NULL of length 0. `http_client`
-- and `pub_sub_client` say whether the pointer to the client is set; `fd` is `none` for -1.
pub record Cmd : Type 0 where
  pub fd : Option ℕ
  pub count : ℕ
  pub argv : List Bytes
  pub mime : Option Bytes
  pub mime_free : Bool
  pub filename : Option Bytes
  pub if_none_match : Option Bytes
  pub jsonp : Option Bytes
  pub separator : Option Bytes
  pub keep_alive : Bool
  pub started_responding : Bool
  pub is_websocket : Bool
  pub http_version : ℕ
  pub database : ℕ
  pub http_client : Bool
  pub pub_sub_client : Bool
  pub ac : Option ℕ

-- One call of `redisAsyncCommandArgv`: the connection, the callback, its command, the arguments.
pub record Sent : Type 0 where
  pub ac : ℕ
  pub format : Format
  pub cmd : ℕ
  pub argv : List Bytes

-- What a request of one client can change. `cmds` is the heap; `next` is the next free handle.
pub record World : Type 0 where
  pub client : HttpClient
  pub pool : Pool
  pub cmds : ℕ → Option Cmd
  pub next : ℕ
  pub sent : List Sent
  pub queued : List Setup
  pub disconnected : List ℕ

abbrev pub update : (ℕ → Option Cmd) → ℕ → Option Cmd → ℕ → Option Cmd
update cmds h c k = if k == h then c else cmds k

unfoldable pub empty_cmd : ℕ → Cmd
empty_cmd count = record {
  fd = some 0;
  count = count;
  argv = replicate count [];
  mime = none;
  mime_free = false;
  filename = none;
  if_none_match = none;
  jsonp = none;
  separator = none;
  keep_alive = false;
  started_responding = false;
  is_websocket = false;
  http_version = 0;
  database = 0;
  http_client = true;
  pub_sub_client = false;
  ac = none;
}

-- The handle of the new command, which is the client's last one from now on.
unfoldable pub cmd_new : World → ℕ → ℕ × World
unfolding empty_cmd
cmd_new w count = (
  w.next,
  record w {
    client = record (w.client) { last_cmd = some w.next };
    cmds = update w.cmds w.next (some (empty_cmd count));
    next = w.next + 1;
  },
)

-- The name of the command is `argv[0]`, and `argv_len[0]` its length.
abbrev pub name_of : List Bytes → Bytes
name_of [] = []
name_of (name ∷ args) = name

abbrev pub has_name : Bytes → List Bytes → Bool
has_name name argv =
    (length (name_of argv) == length name) && strncasecmp_eq (name_of argv) name (length name)

unfoldable pub cmd_is_subscribe_args : Cmd → Bool
cmd_is_subscribe_args cmd =
    leb 2 cmd.count
    && (has_name (codes "subscribe") cmd.argv || has_name (codes "psubscribe") cmd.argv)

unfoldable pub cmd_is_unsubscribe_args : Cmd → Bool
cmd_is_unsubscribe_args cmd =
    leb 2 cmd.count
    && (has_name (codes "unsubscribe") cmd.argv || has_name (codes "punsubscribe") cmd.argv)

unfoldable pub cmd_is_subscribe : Cmd → Bool
unfolding cmd_is_subscribe_args
cmd_is_subscribe cmd = cmd.pub_sub_client || cmd_is_subscribe_args cmd

abbrev pub is_handle : Option ℕ → ℕ → Bool
is_handle none h = false
is_handle (some k) h = k == h

-- `c->http_client->last_cmd` is cleared if it is this command.
unfoldable pub detach_last_cmd : Cmd → ℕ → HttpClient → HttpClient
detach_last_cmd cmd h client =
    if cmd.http_client && is_handle client.last_cmd h
    then record client { last_cmd = none }
    else client

-- `pool_free_context` is called for the connections that are not the pool's.
unfoldable pub free_own_context : Conf → Cmd → List ℕ
unfolding cmd_is_subscribe
free_own_context cfg cmd = elim cmd.ac [
  | none ↦ []
  | some ac ↦ if not (cmd.database == cfg.database) || cmd_is_subscribe cmd then ac ∷ [] else []
]

unfoldable pub free_found : Conf → World → ℕ → Option Cmd → World
unfolding detach_last_cmd free_own_context
free_found cfg w h none = w
free_found cfg w h (some cmd) = record w {
  client = detach_last_cmd cmd h w.client;
  cmds = update w.cmds h none;
  disconnected = w.disconnected ++ free_own_context cfg cmd;
}

-- With `cmd_free_argv`: the handle names nothing any more.
unfoldable pub cmd_free : Conf → World → ℕ → World
unfolding free_found
cmd_free cfg w h = free_found cfg w h (w.cmds h)
