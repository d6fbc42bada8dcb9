-- ===== src/Pool/Slots.antt =====
-- The slots of the pool of src/pool.c, its connections and its timers, balanced.
use mathlib.Core.Path.{subst}
use webdis.Pool.{
  PoolConf, Connecting, Connections, pool_new, pool_on_connect, pool_on_disconnect,
  connect_attached, pool_can_connect, worker_pool_connect, worker_start,
}
use webdis.Pool.Counts.{
  connected, count, length-add_to_first_free, connected-add_to_first_free, length-remove_from_pool,
  connected-remove_from_pool, add_to_first_free-full, remove_from_pool-absent, connected-replicate,
}
use webdis.Pool.Steps.{
  Tally, connect_unattached, fails, with_conns, came_up, Step, timer, refused, stored, strayed,
  lost, stray_lost, turned, own, own_failed, own_answered, own_lost, Reach, here, next, start,
}
use webdis.Prelude.{
  ℕ, zero, suc, ◌+◌, ◌-◌, ◌≤◌, ◌<◌, ◌≡◌, refl, sym, ap, ◌∙◌, true, false, none, arith, length,
  length-replicate,
}

pub record IsBalanced (s : Tally) : Type 0 where
  pub slots : length s.conns.pool.ac ≡ s.conns.pool.count
  pub balance :
      connected s.conns.pool.ac + s.stray + s.conns.pending + s.conns.pool.reconnects
      ≡ s.conns.pool.count + s.failures

connect_attached-balance :
    (cfg : PoolConf) (db : ℕ) (s : Connections) (ac : Connecting)
    → let t = connect_attached cfg db s ac in
      (t.pool.ac ≡ s.pool.ac)
      × (t.pool.count ≡ s.pool.count)
      × (t.pending + t.pool.reconnects ≡ s.pending + s.pool.reconnects + 1)
unfolding connect_attached
connect_attached-balance cfg db s ac = (ground arith, ground arith, ground arith)

timer-IsBalanced :
    (cfg : PoolConf) (db : ℕ) (s : Tally) (ac : Connecting)
    → 0 < s.conns.pool.reconnects
    → IsBalanced s
    → IsBalanced (with_conns s (pool_can_connect cfg db s.conns ac))
unfolding pool_can_connect
timer-IsBalanced cfg db s ac h b = ground arith

module _ (s : Tally) (ac : ℕ) (b : IsBalanced s) where
  refused-IsBalanced : 0 < s.conns.pending → IsBalanced (with_conns s (came_up s.conns ac true))
  unfolding pool_on_connect
  refused-IsBalanced h = ground arith

  stored-IsBalanced :
      0 < s.conns.pending
      → connected s.conns.pool.ac < length s.conns.pool.ac
      → IsBalanced (with_conns s (came_up s.conns ac false))
  unfolding pool_on_connect
  stored-IsBalanced h free =
      let len = length-add_to_first_free s.conns.pool.ac ac in
      let more = connected-add_to_first_free s.conns.pool.ac ac free in
      record { slots = len ∙ b.slots; balance = omega (arith, b.balance, more) }

  strayed-IsBalanced :
      0 < s.conns.pending
      → length s.conns.pool.ac ≤ connected s.conns.pool.ac
      → IsBalanced (record (with_conns s (came_up s.conns ac false)) { stray = s.stray + 1 })
  unfolding pool_on_connect
  strayed-IsBalanced h full =
      let len = length-add_to_first_free s.conns.pool.ac ac in
      let same = ap connected (add_to_first_free-full s.conns.pool.ac ac full) in
      record { slots = len ∙ b.slots; balance = omega (arith, b.balance, same) }

  lost-IsBalanced :
      0 < count ac s.conns.pool.ac
      → IsBalanced
          (with_conns s (record (s.conns) { pool = pool_on_disconnect s.conns.pool ac true }))
  unfolding pool_on_disconnect
  lost-IsBalanced h =
      let len = length-remove_from_pool s.conns.pool.ac ac in
      let fewer = connected-remove_from_pool s.conns.pool.ac ac h in
      record { slots = len ∙ b.slots; balance = omega (arith, b.balance, fewer) }

  stray_lost-IsBalanced :
      0 < s.stray
      → count ac s.conns.pool.ac ≡ 0
      → IsBalanced
          (record (with_conns s
            (record (s.conns) { pool = pool_on_disconnect s.conns.pool ac true })) {
              stray = s.stray - 1;
            })
  unfolding pool_on_disconnect
  stray_lost-IsBalanced h absent =
      let len = length-remove_from_pool s.conns.pool.ac ac in
      let same = remove_from_pool-absent s.conns.pool.ac ac absent in
      record { slots = len ∙ b.slots; balance = omega (arith, b.balance, same) }

module _ (cfg : PoolConf) (db_num : ℕ) (s : Tally) (ac : Connecting) where
  own-IsBalanced :
      fails cfg ac ≡ false
      → IsBalanced s
      → IsBalanced (with_conns s (connect_unattached cfg db_num s.conns ac))
  unfolding connect_unattached
  own-IsBalanced f b = ground arith

  -- A failure sets a timer that no slot waits for.
  own_failed-IsBalanced :
      fails cfg ac ≡ true
      → IsBalanced s
      → IsBalanced (record (with_conns s (connect_unattached cfg db_num s.conns ac)) {
        failures = s.failures + 1;
      })
  unfolding connect_unattached
  own_failed-IsBalanced f b = ground arith

Step-IsBalanced :
    {cfg : PoolConf} {db : ℕ} {s t : Tally} → Step cfg db s t → IsBalanced s → IsBalanced t
unfolding pool_on_connect pool_on_disconnect
Step-IsBalanced {cfg} {db} {s} (timer ac h e) b =
    subst IsBalanced (sym e) (timer-IsBalanced cfg db s ac h b)
Step-IsBalanced {s = s} (refused ac h e) b = subst IsBalanced (sym e) (refused-IsBalanced s ac b h)
Step-IsBalanced {s = s} (stored ac h free e) b =
    subst IsBalanced (sym e) (stored-IsBalanced s ac b h free)
Step-IsBalanced {s = s} (strayed ac h full e) b =
    subst IsBalanced (sym e) (strayed-IsBalanced s ac b h full)
Step-IsBalanced {s = s} (lost ac h e) b = subst IsBalanced (sym e) (lost-IsBalanced s ac b h)
Step-IsBalanced {s = s} (stray_lost ac h absent e) b =
    subst IsBalanced (sym e) (stray_lost-IsBalanced s ac b h absent)
Step-IsBalanced (turned cur e) b =
    subst IsBalanced (sym e) (record { slots = b.slots; balance = b.balance })
Step-IsBalanced {cfg} {s = s} (own db_num ac f e) b =
    subst IsBalanced (sym e) (own-IsBalanced cfg db_num s ac f b)
Step-IsBalanced {cfg} {s = s} (own_failed db_num ac f e) b =
    subst IsBalanced (sym e) (own_failed-IsBalanced cfg db_num s ac f b)
Step-IsBalanced (own_answered ac failed e) b =
    subst IsBalanced (sym e) (record { slots = b.slots; balance = b.balance })
Step-IsBalanced (own_lost ac e) b =
    subst IsBalanced (sym e) (record { slots = b.slots; balance = b.balance })

worker_pool_connect-counts :
    (n : ℕ) (cfg : PoolConf) (db : ℕ) (answers : ℕ → Connecting) (s : Connections)
    → let t = worker_pool_connect n cfg db answers s in
      (t.pool.ac ≡ s.pool.ac)
      × (t.pool.count ≡ s.pool.count)
      × (t.pending + t.pool.reconnects ≡ s.pending + s.pool.reconnects + n)
unfolding worker_pool_connect
worker_pool_connect-counts zero cfg db answers s = (refl, refl, omega arith)
worker_pool_connect-counts (suc n) cfg db answers s =
    let one = connect_attached-balance cfg db s (answers n) in
    let more =
      worker_pool_connect-counts n cfg db answers (connect_attached cfg db s (answers n)) in
    (more.0 ∙ one.0, more.1 ∙ one.1, omega arith)

worker_start-IsBalanced :
    (n : ℕ) (cfg : PoolConf) (db : ℕ) (answers : ℕ → Connecting)
    → IsBalanced (start n cfg db answers)
unfolding worker_start
worker_start-IsBalanced n cfg db answers =
    let (a, c, k) =
      worker_pool_connect-counts n cfg db answers (record { pool = pool_new n; pending = 0 }) in
    record {
      slots = ap length a ∙ length-replicate n none ∙ sym c;
      balance = omega (arith, ap connected a, connected-replicate n, c, k);
    }

reached-IsBalanced :
    (n : ℕ) (cfg : PoolConf) (db : ℕ) (answers : ℕ → Connecting) {t : Tally}
    → Reach cfg db (start n cfg db answers) t
    → IsBalanced t
reached-IsBalanced n cfg db answers here = worker_start-IsBalanced n cfg db answers
reached-IsBalanced n cfg db answers (next r st) =
    Step-IsBalanced st (reached-IsBalanced n cfg db answers r)

-- From the start of a worker on, whatever hiredis answers, and whatever connections outside the pool
-- (for one request, or a WebSocket client) are made and lost: the connections of the pool that are
-- up, in a slot or in none, those that are being made and the timers set make up the slots, one
-- each, and one more for each connection outside the pool that could not be made.
pub Reach-balance :
    (n : ℕ) (cfg : PoolConf) (db : ℕ) (answers : ℕ → Connecting) {t : Tally}
    → Reach cfg db (start n cfg db answers) t
    → connected t.conns.pool.ac + t.stray + t.conns.pending + t.conns.pool.reconnects
      ≡ t.conns.pool.count + t.failures
Reach-balance n cfg db answers r = (reached-IsBalanced n cfg db answers r).balance
