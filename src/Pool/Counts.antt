-- ===== src/Pool/Counts.antt =====
-- The slots of the pool of src/pool.c, counted.
use webdis.Pool.{add_to_first_free, remove_from_pool, holds}
use webdis.Prelude.{
  ℕ, zero, suc, ◌≤◌, ◌<◌, ◌≡◌, refl, ap, Option, none, some, List, [], ◌∷◌, arith, if◌then◌else◌,
  length, replicate,
}

abbrev pub connected : List (Option ℕ) → ℕ
connected [] = 0
connected (none ∷ slots) = connected slots
connected (some x ∷ slots) = suc (connected slots)

-- How often a connection stands in the slots.
abbrev pub count : ℕ → List (Option ℕ) → ℕ
count a [] = 0
count a (slot ∷ slots) = if holds slot a then suc (count a slots) else count a slots

pub length-add_to_first_free :
    (slots : List (Option ℕ)) (ac : ℕ) → length (add_to_first_free slots ac) ≡ length slots
unfolding add_to_first_free
length-add_to_first_free [] ac = refl
length-add_to_first_free (none ∷ slots) ac = refl
length-add_to_first_free (some x ∷ slots) ac = ap suc (length-add_to_first_free slots ac)

pub connected-add_to_first_free :
    (slots : List (Option ℕ)) (ac : ℕ)
    → connected slots < length slots
    → connected (add_to_first_free slots ac) ≡ suc (connected slots)
unfolding add_to_first_free
connected-add_to_first_free [] ac h = absurd (omega arith)
connected-add_to_first_free (none ∷ slots) ac h = refl
connected-add_to_first_free (some x ∷ slots) ac h =
    ap suc (connected-add_to_first_free slots ac (omega arith))

pub length-remove_from_pool :
    (slots : List (Option ℕ)) (ac : ℕ) → length (remove_from_pool slots ac) ≡ length slots
unfolding remove_from_pool
length-remove_from_pool [] ac = refl
length-remove_from_pool (slot ∷ slots) ac = ground (arith, length-remove_from_pool slots ac)

pub connected-remove_from_pool :
    (slots : List (Option ℕ)) (ac : ℕ)
    → 0 < count ac slots
    → suc (connected (remove_from_pool slots ac)) ≡ connected slots
unfolding remove_from_pool
connected-remove_from_pool [] ac h = absurd (omega arith)
connected-remove_from_pool (none ∷ slots) ac h = connected-remove_from_pool slots ac h
connected-remove_from_pool (some x ∷ slots) ac h =
    ground (arith, connected-remove_from_pool slots ac)

pub connected_le : (slots : List (Option ℕ)) → connected slots ≤ length slots
connected_le [] = omega arith
connected_le (none ∷ slots) = omega (arith, connected_le slots)
connected_le (some x ∷ slots) = omega (arith, connected_le slots)

-- There is no slot left.
pub add_to_first_free-full :
    (slots : List (Option ℕ)) (ac : ℕ)
    → length slots ≤ connected slots
    → add_to_first_free slots ac ≡ slots
unfolding add_to_first_free
add_to_first_free-full [] ac h = refl
add_to_first_free-full (none ∷ slots) ac h = absurd (omega (arith, connected_le slots))
add_to_first_free-full (some x ∷ slots) ac h =
    ap (λ l. some x ∷ l) (add_to_first_free-full slots ac (omega arith))

pub remove_from_pool-absent :
    (slots : List (Option ℕ)) (ac : ℕ)
    → count ac slots ≡ 0
    → connected (remove_from_pool slots ac) ≡ connected slots
unfolding remove_from_pool
remove_from_pool-absent [] ac h = refl
remove_from_pool-absent (none ∷ slots) ac h = remove_from_pool-absent slots ac h
remove_from_pool-absent (some x ∷ slots) ac h = ground (arith, remove_from_pool-absent slots ac)

pub connected-replicate : (n : ℕ) → connected (replicate n none) ≡ 0
connected-replicate zero = refl
connected-replicate (suc n) = connected-replicate n

pub count-add_to_first_free :
    (slots : List (Option ℕ)) (ac : ℕ)
    → connected slots < length slots
    → count ac (add_to_first_free slots ac) ≡ suc (count ac slots)
unfolding add_to_first_free
count-add_to_first_free [] ac h = absurd (omega arith)
count-add_to_first_free (none ∷ slots) ac h = ground arith
count-add_to_first_free (some x ∷ slots) ac h = ground (arith, count-add_to_first_free slots ac)
