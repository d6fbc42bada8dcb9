-- ===== src/Pool.antt =====
-- src/pool.c: the worker's pool of connections to Redis. A connection is a handle; the slots of
-- `ac` hold `none` for NULL. What the program asks of hiredis and of the timers is recorded.
pub mod Rotation
pub mod Counts
pub mod Slots
pub mod Steps
pub mod AuthLog
use webdis.Prelude.{
  ℕ, zero, suc, ◌+◌, ◌%◌, ◌==◌, Bool, true, false, not, ◌&&◌, ◌-◌, Option, none, some, List, [],
  ◌∷◌, ◌++◌, if◌then◌else◌, get_or, set, length, replicate,
}
use webdis.Prelude.Text.{Bytes}

-- `reconnects` counts the timers of `pool_schedule_reconnect` that are set.
pub record Pool : Type 0 where
  pub count : ℕ
  pub cur : ℕ
  pub ac : List (Option ℕ)
  pub reconnects : ℕ

unfoldable pub pool_new : ℕ → Pool
pool_new count = record { count = count; cur = 0; ac = replicate count none; reconnects = 0 }

unfoldable pub pool_schedule_reconnect : Pool → Pool
pool_schedule_reconnect p = record p { reconnects = p.reconnects + 1 }

-- The loop of `pool_on_connect` over the slots.
unfoldable pub add_to_first_free : List (Option ℕ) → ℕ → List (Option ℕ)
add_to_first_free [] ac = []
add_to_first_free (none ∷ slots) ac = some ac ∷ slots
add_to_first_free (some x ∷ slots) ac = some x ∷ add_to_first_free slots ac

-- `attached` says that `ac->data` is the pool; `failed` is `status == REDIS_ERR || ac->err`.
unfoldable pub pool_on_connect : Pool → ℕ → Bool → Bool → Pool
unfolding add_to_first_free pool_schedule_reconnect
pool_on_connect p ac attached failed =
    if attached
    then (if failed then pool_schedule_reconnect p else record p { ac = add_to_first_free p.ac ac })
    else p

abbrev pub holds : Option ℕ → ℕ → Bool
holds none ac = false
holds (some x) ac = x == ac

-- The loop of `pool_on_disconnect` over the slots.
unfoldable pub remove_from_pool : List (Option ℕ) → ℕ → List (Option ℕ)
remove_from_pool [] ac = []
remove_from_pool (slot ∷ slots) ac =
    if holds slot ac then none ∷ slots else slot ∷ remove_from_pool slots ac

unfoldable pub pool_on_disconnect : Pool → ℕ → Bool → Pool
unfolding remove_from_pool pool_schedule_reconnect
pool_on_disconnect p ac attached =
    if attached then pool_schedule_reconnect (record p { ac = remove_from_pool p.ac ac }) else p

-- The `do … while` of `pool_get_context`: the fuel bounds the rounds.
unfoldable pub rotate : ℕ → ℕ → Pool → Option (Option ℕ × Pool)
rotate zero orig p = none
rotate (suc f) orig p =
    let cur = (p.cur + 1) % p.count in
    let p' = record p { cur = cur } in
    let again = rotate f orig p' in
    elim (get_or p.ac cur none) [
      | some ac ↦ some (some ac, p')
      | none ↦ if cur == orig then some (none, p') else again
    ]

-- `none` means that the fuel ran out.
unfoldable pub pool_get_context : Pool → Option (Option ℕ × Pool)
unfolding rotate
pool_get_context p = rotate p.count p.cur (record p { cur = p.cur + 1 })

pub record Auth : Type 0 where
  pub use_legacy_auth : Bool
  pub username : Bytes
  pub password : Bytes

-- The fields of `struct conf` that the pool reads, `ssl` for a build with HAVE_SSL.
pub record PoolConf : Type 0 where
  pub redis_auth : Option Auth
  pub ssl_enabled : Bool

-- What hiredis answers to `redisAsyncConnect` or `redisAsyncConnectUnix` (with `ac->err`), and
-- whether `redisInitiateSSLWithContext` would succeed.
pub record Connecting : Type 0 where
  pub handle : ℕ
  pub err : Bool
  pub ssl_ok : Bool

-- The commands that `pool_connect` queues on a new connection.
pub data Setup : Type 0 where
  auth_password : Bytes → Setup
  auth_user : Bytes → Bytes → Setup
  select : ℕ → Setup

unfoldable pub auth_setup : Option Auth → List Setup
auth_setup none = []
auth_setup (some a) =
    (if a.use_legacy_auth then auth_password a.password else auth_user a.username a.password) ∷ []

-- The connection, or `none` for NULL; the commands queued on it; the pool. The callbacks are set
-- on a connection that is returned: `pool_on_connect` and `pool_on_disconnect` answer for it.
unfoldable pub pool_connect : PoolConf → Pool → ℕ → Connecting → Option ℕ × List Setup × Pool
unfolding auth_setup pool_schedule_reconnect
pool_connect cfg p db_num ac =
    if ac.err
    then (none, [], pool_schedule_reconnect p)
    else if cfg.ssl_enabled && not ac.ssl_ok
    then (none, [], pool_schedule_reconnect p)
    else (
      some ac.handle,
      auth_setup cfg.redis_auth ++ (if db_num == 0 then [] else select db_num ∷ []),
      p,
    )

-- A pool with the number of its connections that are not answered yet.
pub record Connections : Type 0 where
  pub pool : Pool
  pub pending : ℕ

abbrev pub is_some : Option ℕ → Bool
is_some none = false
is_some (some x) = true

-- One attached connection is asked for: `pool_connect(p, database, 1)`.
unfoldable pub connect_attached : PoolConf → ℕ → Connections → Connecting → Connections
unfolding pool_connect
connect_attached cfg db s ac =
    let (made, queued, p) = pool_connect cfg s.pool db ac in
    record { pool = p; pending = if is_some made then s.pending + 1 else s.pending }

-- The timer of `pool_schedule_reconnect` fires.
unfoldable pub pool_can_connect : PoolConf → ℕ → Connections → Connecting → Connections
unfolding connect_attached
pool_can_connect cfg db s ac =
    connect_attached cfg db
      (record s { pool = record (s.pool) { reconnects = s.pool.reconnects - 1 } }) ac

-- The loop of `worker_pool_connect` (src/worker.c); hiredis answers call `i` by `answers i`.
unfoldable pub worker_pool_connect : ℕ → PoolConf → ℕ → (ℕ → Connecting) → Connections → Connections
unfolding connect_attached
worker_pool_connect zero cfg db answers s = s
worker_pool_connect (suc n) cfg db answers s =
    worker_pool_connect n cfg db answers (connect_attached cfg db s (answers n))

-- `worker_new` and the start of `worker_main` (src/worker.c).
unfoldable pub worker_start : ℕ → PoolConf → ℕ → (ℕ → Connecting) → Connections
unfolding worker_pool_connect pool_new
worker_start count cfg db answers =
    worker_pool_connect count cfg db answers (record { pool = pool_new count; pending = 0 })
