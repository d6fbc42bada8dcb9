-- ===== src/Pool/Steps.antt =====
-- What happens to the connections of a worker, of src/pool.c and src/worker.c, as steps.
use webdis.Pool.{
  PoolConf, Connecting, Connections, pool_on_connect, pool_on_disconnect, pool_connect,
  pool_can_connect, worker_start,
}
use webdis.Pool.Counts.{connected, count}
use webdis.Prelude.{ℕ, ◌+◌, ◌-◌, ◌≤◌, ◌<◌, ◌≡◌, Bool, true, false, not, ◌&&◌, ◌||◌, length}

-- A worker's connections, with the number of unattached ones that could not be made so far, and of
-- attached ones that are up and have found no slot.
pub record Tally : Type 0 where
  pub conns : Connections
  pub failures : ℕ
  pub stray : ℕ

-- `pool_connect(p, db_num, 0)`, for one request or a WebSocket client: the pool may get a timer.
unfoldable pub connect_unattached : PoolConf → ℕ → Connections → Connecting → Connections
unfolding pool_connect
connect_unattached cfg db_num s ac = record s { pool = (pool_connect cfg s.pool db_num ac).2 }

-- `pool_connect` has returned NULL.
abbrev pub fails : PoolConf → Connecting → Bool
fails cfg ac = ac.err || (cfg.ssl_enabled && not ac.ssl_ok)

abbrev pub with_conns : Tally → Connections → Tally
with_conns s c = record s { conns = c }

abbrev pub came_up : Connections → ℕ → Bool → Connections
came_up c ac failed = record {
  pool = pool_on_connect c.pool ac true failed;
  pending = c.pending - 1;
}

-- What the event loop and the requests do to a worker's connections. `pool_get_context` moves `cur`
-- alone (Pool.Rotation).
pub data Step (cfg : PoolConf) (db : ℕ) (s : Tally) : Tally → Type 0 where
  timer :
      {t : Tally} (ac : Connecting)
      → 0 < s.conns.pool.reconnects
      → t ≡ with_conns s (pool_can_connect cfg db s.conns ac)
      → Step cfg db s t
  refused :
      {t : Tally} (ac : ℕ)
      → 0 < s.conns.pending
      → t ≡ with_conns s (came_up s.conns ac true)
      → Step cfg db s t
  stored :
      {t : Tally} (ac : ℕ)
      → 0 < s.conns.pending
      → connected s.conns.pool.ac < length s.conns.pool.ac
      → t ≡ with_conns s (came_up s.conns ac false)
      → Step cfg db s t
  strayed :
      {t : Tally} (ac : ℕ)
      → 0 < s.conns.pending
      → length s.conns.pool.ac ≤ connected s.conns.pool.ac
      → t ≡ record (with_conns s (came_up s.conns ac false)) { stray = s.stray + 1 }
      → Step cfg db s t
  lost :
      {t : Tally} (ac : ℕ)
      → 0 < count ac s.conns.pool.ac
      → t ≡ with_conns s (record (s.conns) { pool = pool_on_disconnect s.conns.pool ac true })
      → Step cfg db s t
  stray_lost :
      {t : Tally} (ac : ℕ)
      → 0 < s.stray
      → count ac s.conns.pool.ac ≡ 0
      → t
        ≡ record (with_conns s
            (record (s.conns) { pool = pool_on_disconnect s.conns.pool ac true })) {
              stray = s.stray - 1;
            }
      → Step cfg db s t
  turned :
      {t : Tally} (cur : ℕ)
      → t ≡ with_conns s (record (s.conns) { pool = record (s.conns.pool) { cur = cur } })
      → Step cfg db s t
  own :
      {t : Tally} (db_num : ℕ) (ac : Connecting)
      → fails cfg ac ≡ false
      → t ≡ with_conns s (connect_unattached cfg db_num s.conns ac)
      → Step cfg db s t
  own_failed :
      {t : Tally} (db_num : ℕ) (ac : Connecting)
      → fails cfg ac ≡ true
      → t ≡ record (with_conns s (connect_unattached cfg db_num s.conns ac)) {
        failures = s.failures + 1;
      }
      → Step cfg db s t
  own_answered :
      {t : Tally} (ac : ℕ) (failed : Bool)
      → t ≡ with_conns s (record (s.conns) { pool = pool_on_connect s.conns.pool ac false failed })
      → Step cfg db s t
  own_lost :
      {t : Tally} (ac : ℕ)
      → t ≡ with_conns s (record (s.conns) { pool = pool_on_disconnect s.conns.pool ac false })
      → Step cfg db s t

pub data Reach (cfg : PoolConf) (db : ℕ) (s : Tally) : Tally → Type 0 where
  here : Reach cfg db s s
  next : {t u : Tally} → Reach cfg db s t → Step cfg db t u → Reach cfg db s u

-- A worker that starts.
abbrev pub start : ℕ → PoolConf → ℕ → (ℕ → Connecting) → Tally
start n cfg db answers = record { conns = worker_start n cfg db answers; failures = 0; stray = 0 }
