-- ===== src/Pool/Rotation.antt =====
-- The order in which `pool_get_context` visits the slots.
use native.Mathlib.Nat.{mod-eq_of_lt, mod-lt, mod-eq-sub-mod, mod-add-mod}
use native.Mathlib.Decide.{dec_lt}
use mathlib.Core.Path.{subst}
use webdis.Pool.{Pool, rotate, pool_get_context}
use webdis.Prelude.{
  ℕ, zero, suc, ◌+◌, ◌-◌, ◌%◌, ◌≤◌, ◌<◌, ◌≡◌, refl, sym, ap, ◌∙◌, ◌≢◌, inl, inr, true, false,
  Option, none, some, List, arith, ◌==◌, if◌then◌else◌, ==_iff, Bool-cases, Option-cases, length,
  get_or,
}

-- The pool has slots, as many as its counter says, and `cur` is one of them.
pub record IsValid (p : Pool) : Type 0 where
  pub slots : length p.ac ≡ p.count
  pub cur_in : p.cur < p.count

add-mod-ne : {n o k : ℕ} → o < n → suc k < n → (o + suc k) % n ≢ o
add-mod-ne {n} {o} {k} ho hk = elim (dec_lt (o + suc k) n) [
  | yes p ↦ omega (arith, mod-eq_of_lt p)
  | no p ↦ omega (
    arith,
    mod-eq-sub-mod {n = o + suc k} {m = n} (omega arith),
    mod-eq_of_lt {n = o + suc k - n} {m = n} (omega arith),
  )
]

-- One step of the counter, and then `b` more.
step_mod : (v b n : ℕ) → ((v + 1) % n + b) % n ≡ (v + suc b) % n
step_mod v b n = rw mod-add-mod (ap (λ k. k % n) (omega arith))

last_round : (v d o n : ℕ) → o < n → 0 < d → d ≤ n → (v + d) % n ≡ o → (v + 1) % n ≡ o → d ≡ 1
last_round v zero o n ho h0 hd e c = absurd (omega arith)
last_round v (suc zero) o n ho h0 hd e c = refl
last_round v (suc (suc k)) o n ho h0 hd e c =
    absurd (add-mod-ne ho hd (ap (λ t. (t + suc k) % n) (sym c) ∙ step_mod v (suc k) n ∙ e))

-- What a search over the slots `(v + 1) % n`, …, `(v + d) % n` has found.
abbrev pub Found : Pool → ℕ → Option ℕ → Pool → Type 0
Found p d none p' = (i : ℕ) → 0 < i → i ≤ d → get_or p.ac ((p.cur + i) % p.count) none ≡ none
Found p d (some a) p' =
    (i : ℕ) × (0 < i)
    × (i ≤ d)
    × (p'.cur ≡ (p.cur + i) % p.count)
    × (get_or p.ac p'.cur none ≡ some a)

pub record Rotated (p : Pool) (d : ℕ) (out : Option (Option ℕ × Pool)) : Type 0 where
  pub result : Option ℕ
  pub after : Pool
  pub returns : out ≡ some (result, after)
  pub cur_in : after.cur < p.count
  pub unchanged : after ≡ record p { cur = after.cur }
  pub found : Found p d result after

-- Rounds are left while the counter has not come back.
pos_of_back : (d v n o : ℕ) → (v % n == o) ≡ false → (v % n + d) % n ≡ o → 0 < d
pos_of_back zero v n o c e = absurd (ne ((==_iff (v % n) o).1 back))
  where
    back : v % n ≡ o
    back = sym (rw mod-add-mod (ap (λ k. k % n) (omega arith))) ∙ e

    ne : ¬ ((v % n == o) ≡ true)
    ne h = cc
pos_of_back (suc d) v n o c e = omega arith

Found-shift_none :
    (p : Pool) (d : ℕ) (p' : Pool)
    → get_or p.ac ((p.cur + 1) % p.count) none ≡ none
    → Found (record p { cur = (p.cur + 1) % p.count }) d none p'
    → (i : ℕ) → 0 < i
    → i ≤ suc d
    → get_or p.ac ((p.cur + i) % p.count) none ≡ none
Found-shift_none p d p' s h zero h0 hd = absurd (omega arith)
Found-shift_none p d p' s h (suc zero) h0 hd = s
Found-shift_none p d p' s h (suc (suc i)) h0 hd =
    ap (λ k. get_or p.ac k none) (sym (step_mod p.cur (suc i) p.count))
    ∙ h (suc i) (omega arith) (omega arith)

Found-shift :
    (p : Pool) (d : ℕ) (r : Option ℕ) (p' : Pool)
    → get_or p.ac ((p.cur + 1) % p.count) none ≡ none
    → Found (record p { cur = (p.cur + 1) % p.count }) d r p'
    → Found p (suc d) r p'
Found-shift p d (some a) p' s (i, h0, hd, e, g) =
    (suc i, omega arith, omega arith, e ∙ step_mod p.cur i p.count, g)
Found-shift p d none p' s h = Found-shift_none p d p' s h

module _ (f d o : ℕ) (p : Pool) (ho : o < p.count) where
  rotate_hit :
      (a : ℕ)
      → get_or p.ac ((p.cur + 1) % p.count) none ≡ some a
      → Rotated p (suc d) (rotate (suc f) o p)
  unfolding rotate
  rotate_hit a s = record {
    result = some a;
    after = record p { cur = (p.cur + 1) % p.count };
    returns = ground arith;
    cur_in = mod-lt _ (omega arith);
    unchanged = refl;
    found = (1, omega arith, omega arith, refl, s);
  }

  rotate_end :
      suc d ≤ p.count
      → (p.cur + suc d) % p.count ≡ o
      → get_or p.ac ((p.cur + 1) % p.count) none ≡ none
      → (p.cur + 1) % p.count ≡ o
      → Rotated p (suc d) (rotate (suc f) o p)
  unfolding rotate
  rotate_end hn e s c = record {
    result = none;
    after = record p { cur = (p.cur + 1) % p.count };
    returns = ground arith;
    cur_in = mod-lt _ (omega arith);
    unchanged = refl;
    found = λ i h0 hd.
        let one : suc d ≡ 1 = last_round p.cur (suc d) o p.count ho (omega arith) hn e c in
        let i_one : i ≡ 1 = omega arith in rw i_one s;
  }

  rotate_again :
      get_or p.ac ((p.cur + 1) % p.count) none ≡ none
      → ((p.cur + 1) % p.count == o) ≡ false
      → Rotated
          (record p { cur = (p.cur + 1) % p.count })
          d
          (rotate f o (record p { cur = (p.cur + 1) % p.count }))
      → Rotated p (suc d) (rotate (suc f) o p)
  unfolding rotate
  rotate_again s c r = record {
    result = r.result;
    after = r.after;
    returns = ground (arith, r.returns);
    cur_in = r.cur_in;
    unchanged = r.unchanged;
    found = Found-shift p d r.result r.after s r.found;
  }

rotate-Rotated :
    (f d o : ℕ) (p : Pool)
    → o < p.count
    → 0 < d
    → d ≤ p.count
    → d ≤ f
    → (p.cur + d) % p.count ≡ o
    → Rotated p d (rotate f o p)
rotate-Rotated zero d o p ho h0 hn hf e = absurd (omega arith)
rotate-Rotated (suc f) zero o p ho h0 hn hf e = absurd (omega arith)
rotate-Rotated (suc f) (suc d) o p ho h0 hn hf e =
    elim (Option-cases (get_or p.ac ((p.cur + 1) % p.count) none)) [
      | inr (a, s) ↦ rotate_hit f d o p ho a s
      | inl s ↦ elim (Bool-cases ((p.cur + 1) % p.count == o)) [
        | inl c ↦ rotate_end f d o p ho hn e s ((==_iff _ o).0 c)
        | inr c ↦
            let e' : ((p.cur + 1) % p.count + d) % p.count ≡ o = step_mod p.cur d p.count ∙ e in
            rotate_again f d o p ho s c (
              rotate-Rotated f d o (record p { cur = (p.cur + 1) % p.count }) ho
                (pos_of_back d (p.cur + 1) p.count o c e') (omega arith) (omega arith) e')
      ]
    ]

-- The slots that one call visits: all but the one after `cur`, and the only one of a pool of one.
abbrev pub rounds : Pool → ℕ
rounds p = if p.count == 1 then 1 else p.count - 1

comes_back : (p : Pool) → IsValid p → (p.cur + 1 + rounds p) % p.count ≡ p.cur
comes_back p v = elim (dec_lt 1 p.count) [
  | yes h ↦ let e : p.cur + 1 + rounds p ≡ p.cur + p.count = ground arith in rw e (grind arith)
  | no h ↦ let e : p.count ≡ 1 = omega arith in let z : p.cur ≡ 0 = omega arith in ground arith
]

-- `pool_get_context` ends within `count` rounds on a valid pool, changes nothing but `cur`, and
-- leaves it in range. What it returns is connected, at the new `cur`; it returns NULL only if none
-- of the slots `cur + 2`, …, `cur + count` (modulo `count`) is connected.
pub pool_get_context-Rotated :
    (p : Pool) → IsValid p → Rotated (record p { cur = p.cur + 1 }) (rounds p) (pool_get_context p)
unfolding pool_get_context
pool_get_context-Rotated p v =
    rotate-Rotated p.count (rounds p) p.cur (record p { cur = p.cur + 1 }) v.cur_in (ground arith)
      (ground arith) (ground arith) (comes_back p v)

moves_away : (c n i : ℕ) → 0 < i → i < n → (c + i) % n ≢ c % n
moves_away c n zero h0 hn e = absurd (omega arith)
moves_away c n (suc k) h0 hn e =
    add-mod-ne {n = n} {o = c % n} {k = k} (mod-lt c (omega arith)) hn (mod-add-mod c n (suc k) ∙ e)

skips_from :
    (p : Pool) (r : Option ℕ) (p' : Pool)
    → 1 < p.count
    → ((j : ℕ) → j ≢ (p.cur + 1) % p.count → get_or p.ac j none ≡ none)
    → Found (record p { cur = p.cur + 1 }) (rounds p) r p'
    → r ≡ none
skips_from p none p' h others f = refl
skips_from p (some a) p' h others (i, h0, hd, e, g) = absurd (none_is_some (sym away ∙ g))
  where
    inside : i < p.count
    inside = ground arith

    away : get_or p.ac p'.cur none ≡ none
    away = others p'.cur (rw e (moves_away (p.cur + 1) p.count i h0 inside))

    none_is_some : ¬ (none ≡ some a)
    none_is_some x = cc

-- On a valid pool of at least two slots, when no slot but the one after `cur` is connected,
-- `pool_get_context` returns NULL, whatever that one slot holds.
pub pool_get_context-skips :
    (p : Pool)
    → IsValid p
    → 1 < p.count
    → ((j : ℕ) → j ≢ (p.cur + 1) % p.count → get_or p.ac j none ≡ none)
    → (p' : Pool) × (pool_get_context p ≡ some (none, p'))
pool_get_context-skips p v h others =
    let r = pool_get_context-Rotated p v in
    (
      r.after,
      r.returns ∙ ap (λ x. some (x, r.after)) (skips_from p r.result r.after h others r.found),
    )

rotate_two :
    (cur k : ℕ) (ac : List (Option ℕ))
    → cur < 2
    → pool_get_context (record { count = 2; cur = cur; ac = ac; reconnects = k })
      ≡ some (get_or ac cur none, record { count = 2; cur = cur; ac = ac; reconnects = k })
unfolding pool_get_context
rotate_two cur k ac h =
    let e : (cur + 1 + 1) % 2 ≡ cur = omega arith in
    elim (Option-cases (get_or ac cur none)) [ inl s ↦ ground arith | inr (a, s) ↦ ground arith ]

-- A pool of two, the default size, is left as it is: each call looks at the slot `cur` alone and
-- returns what that slot holds.
pub pool_get_context-two :
    (p : Pool) → IsValid p → p.count ≡ 2 → pool_get_context p ≡ some (get_or p.ac p.cur none, p)
pool_get_context-two p v e =
    subst (λ q. pool_get_context q ≡ some (get_or q.ac q.cur none, q)) two
      (rotate_two p.cur p.reconnects p.ac (omega arith))
  where
    two : record p { count = 2 } ≡ p
    two = λ i. record p { count = sym e i }
