-- ===== src/Tests/Connections.antt =====
-- Pools: src/pool.c and src/worker.c.
use webdis.Pool.{Pool, pool_get_context, worker_start}
use webdis.Pool.Rotation.{
  IsValid, Rotated, rounds, pool_get_context-Rotated, pool_get_context-skips, pool_get_context-two,
}
use webdis.Pool.Counts.{connected, count}
use webdis.Pool.Slots.{Reach-balance}
use webdis.Pool.Steps.{
  Tally, start, with_conns, came_up, connect_unattached, stored, own_failed, Reach, here, next,
}
use webdis.Tests.Data.{pool_conf, accepted, refused_connection, two_slots}
use webdis.Prelude.{
  length, ℕ, zero, suc, ◌+◌, ◌<◌, ◌≡◌, refl, ◌≢◌, false, none, some, [], ◌∷◌, arith, get_or,
}

abbrev three_slots : Pool
three_slots = record { count = 3; cur = 1; ac = none ∷ none ∷ some 102 ∷ []; reconnects = 2 }

three_slots-IsValid : IsValid three_slots
three_slots-IsValid = record { slots = refl; cur_in = omega arith }

two_slots-IsValid : IsValid two_slots
two_slots-IsValid = record { slots = refl; cur_in = omega arith }

pool_get_context-Rotated_example :
    Rotated (record three_slots { cur = 2 }) (rounds three_slots) (pool_get_context three_slots)
pool_get_context-Rotated_example = pool_get_context-Rotated three_slots three_slots-IsValid

three_slots_others : (j : ℕ) → j ≢ 2 → get_or three_slots.ac j none ≡ none
three_slots_others zero h = refl
three_slots_others (suc zero) h = refl
three_slots_others (suc (suc zero)) h = absurd (h refl)
three_slots_others (suc (suc (suc j))) h = refl

next_slot_skipped : (p' : Pool) × (pool_get_context three_slots ≡ some (none, p'))
next_slot_skipped =
    pool_get_context-skips three_slots three_slots-IsValid (omega arith) three_slots_others

two_kept : pool_get_context two_slots ≡ some (some 100, two_slots)
two_kept = pool_get_context-two two_slots two_slots-IsValid refl

abbrev started : Tally
started = start 2 pool_conf 0 (λ i. accepted i)

-- One of the two connections comes up.
abbrev one_up : Tally
one_up = with_conns started (came_up started.conns 100 false)

started_pending : 0 < started.conns.pending
unfolding worker_start
started_pending = omega arith

started_free : connected started.conns.pool.ac < length started.conns.pool.ac
unfolding worker_start
started_free = omega arith

reached : Reach pool_conf 0 started one_up
reached = next here (stored 100 started_pending started_free refl)

-- Then a connection for one request cannot be made.
abbrev one_failed : Tally
one_failed =
    record (with_conns one_up (connect_unattached pool_conf 5 one_up.conns refused_connection)) {
      failures = 1;
    }

Reach-balance_example :
    connected one_failed.conns.pool.ac
      + one_failed.stray
      + one_failed.conns.pending
      + one_failed.conns.pool.reconnects
    ≡ one_failed.conns.pool.count + one_failed.failures
Reach-balance_example =
    Reach-balance 2 pool_conf 0 (λ i. accepted i)
      (next reached (own_failed 5 refused_connection refl refl))
