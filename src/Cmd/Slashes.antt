-- ===== src/Cmd/Slashes.antt =====
-- The slashes of a URI against the loops of `cmd_run` (src/cmd.c) that look for them.
use webdis.Cmd.Parse.{count_params, fill_args}
use webdis.Cmd.Uri.{decode_uri}
use webdis.Prelude.Text.{Bytes, memchr}
use webdis.Prelude.{
  ℕ, zero, suc, ◌+◌, ◌-◌, ◌≤◌, ◌<◌, ◌≡◌, refl, sym, ap, ◌∙◌, inl, inr, true, false, none, some,
  List, [], ◌∷◌, arith, ◌==◌, if◌then◌else◌, ==_iff, Bool-cases, Option-cases, length, set, get_or,
  take, drop, length-drop,
}

abbrev pub slashes : Bytes → ℕ
slashes [] = 0
slashes (c ∷ s) = if c == b'/' then suc (slashes s) else slashes s

-- What `memchr` finds is a slash within the bound; the slashes left are those behind it.
pub record FoundSlash (p : Bytes) (n k : ℕ) : Type 0 where
  pub inside : k < n
  pub here : get_or p k 0 ≡ b'/'
  pub rest : slashes (take n p) ≡ suc (slashes (take (n - suc k) (drop (suc k) p)))

FoundSlash-cons :
    (x : ℕ) (p : Bytes) (n k : ℕ)
    → (x == b'/') ≡ false
    → FoundSlash p n k
    → FoundSlash (x ∷ p) (suc n) (suc k)
FoundSlash-cons x p n k h f = record {
  inside = omega (arith, f.inside);
  here = f.here;
  rest = let e : suc n - suc (suc k) ≡ n - suc k = omega arith in rw e (ground (arith, f.rest));
}

pub memchr-FoundSlash : (p : Bytes) (n k : ℕ) → memchr p b'/' n ≡ some k → FoundSlash p n k
unfolding memchr
memchr-FoundSlash p zero k e = absurd (cc)
memchr-FoundSlash [] (suc n) k e = absurd (cc)
memchr-FoundSlash (x ∷ p) (suc n) k e = elim (Bool-cases (x == b'/')) [
  | inl h ↦
      let k_zero : k ≡ 0 = ground arith in
      rw k_zero (record {
        inside = omega arith;
        here = (==_iff x b'/').0 h;
        rest = let m : suc n - 1 ≡ n = omega arith in rw m (ground arith);
      })
  | inr h ↦ elim (Option-cases (memchr p b'/' n)) [
    | inl e' ↦ absurd (ground arith)
    | inr (j, e') ↦
        let k_suc : k ≡ suc j = ground arith in
        rw k_suc (FoundSlash-cons x p n j h (memchr-FoundSlash p n j e'))
  ]
]

pub slashes-memchr-none : (p : Bytes) (n : ℕ) → memchr p b'/' n ≡ none → slashes (take n p) ≡ 0
unfolding memchr
slashes-memchr-none p zero e = refl
slashes-memchr-none [] (suc n) e = refl
slashes-memchr-none (x ∷ p) (suc n) e = elim (Option-cases (memchr p b'/' n)) [
  | inl e' ↦ ground (arith, slashes-memchr-none p n e')
  | inr (j, e') ↦ absurd (ground arith)
]

pub slashes-drop :
    (s : Bytes) (j : ℕ)
    → slashes (drop j s) ≡ (if get_or s j 0 == b'/' then 1 else 0) + slashes (drop (suc j) s)
slashes-drop [] zero = refl
slashes-drop [] (suc j) = refl
slashes-drop (x ∷ s) zero = ground arith
slashes-drop (x ∷ s) (suc j) = slashes-drop s j

pub slashes-drop_le : (s : Bytes) (i j : ℕ) → i ≤ j → slashes (drop j s) ≤ slashes (drop i s)
slashes-drop_le s zero zero h = omega arith
slashes-drop_le [] zero (suc j) h = omega arith
slashes-drop_le (x ∷ s) zero (suc j) h = ground (arith, slashes-drop_le s zero j)
slashes-drop_le s (suc i) zero h = absurd (omega arith)
slashes-drop_le [] (suc i) (suc j) h = omega arith
slashes-drop_le (x ∷ s) (suc i) (suc j) h = slashes-drop_le s i j (omega arith)

slashes-take_le : (s : Bytes) (m n : ℕ) → m ≤ n → slashes (take m s) ≤ slashes (take n s)
slashes-take_le s zero n h = omega arith
slashes-take_le s (suc m) zero h = absurd (omega arith)
slashes-take_le [] (suc m) (suc n) h = omega arith
slashes-take_le (x ∷ s) (suc m) (suc n) h = ground (arith, slashes-take_le s m n)

pub slashes-take-drop :
    (s : Bytes) (f n m : ℕ) → f + n ≤ m → slashes (take n (drop f s)) ≤ slashes (drop f (take m s))
slashes-take-drop s zero n m h = slashes-take_le s n m (omega arith)
slashes-take-drop s (suc f) n zero h = absurd (omega arith)
slashes-take-drop [] (suc f) zero (suc m) h = omega arith
slashes-take-drop [] (suc f) (suc n) (suc m) h = omega arith
slashes-take-drop (x ∷ s) (suc f) n (suc m) h = slashes-take-drop s f n m (omega arith)

pub get_or-take : (s : Bytes) (j m : ℕ) → j < m → get_or (take m s) j 0 ≡ get_or s j 0
get_or-take s j zero h = absurd (omega arith)
get_or-take [] j (suc m) h = refl
get_or-take (x ∷ s) zero (suc m) h = refl
get_or-take (x ∷ s) (suc j) (suc m) h = get_or-take s j m (omega arith)

take-length : (p : Bytes) → take (length p) p ≡ p
take-length [] = refl
take-length (x ∷ p) = ap (◌∷◌ x) (take-length p)

-- The loop writes at most one slot more than there are slashes in what is left.
pub fill_args-slashes :
    (f : ℕ) (p : Bytes) (n cur : ℕ) (argv : List Bytes)
    → (fill_args f p n cur argv).0 ≤ cur + slashes (take n p) + (if n == 0 then 0 else 1)
unfolding fill_args
fill_args-slashes zero p n cur argv = ground arith
fill_args-slashes (suc f) p n cur argv = elim (Bool-cases (n == 0)) [
  | inl h ↦ ground arith
  | inr h ↦ elim (Option-cases (memchr p b'/' n)) [
    | inl e ↦ ground arith
    | inr (k, e) ↦
        let s = memchr-FoundSlash p n k e in
        let k_suc : k + 1 ≡ suc k = omega arith in
        ground (
          arith,
          s.inside,
          s.rest,
          k_suc,
          fill_args-slashes f (drop (k + 1) p) (n - (k + 1)) (cur + 1)
              (set argv cur (decode_uri p k true)),
        )
  ]
]

drop_one-drop : (k : ℕ) (p : Bytes) → drop 1 (drop k p) ≡ drop (suc k) p
drop_one-drop zero p = refl
drop_one-drop (suc k) [] = refl
drop_one-drop (suc k) (x ∷ p) = drop_one-drop k p

slashes-past :
    (p : Bytes) (k : ℕ)
    → memchr p b'/' (length p) ≡ some k
    → slashes p ≡ suc (slashes (drop (suc k) p))
slashes-past p k e =
    let f = memchr-FoundSlash p (length p) k e in
    sym (ap slashes (take-length p))
    ∙ f.rest
    ∙ ap (λ m. suc (slashes (take m (drop (suc k) p)))) (sym (length-drop (suc k) p))
    ∙ ap (λ s. suc (slashes s)) (take-length (drop (suc k) p))

pub count_params-slashes :
    (f : ℕ) (p : Bytes)
    → length p ≤ f
    → count_params f p ≡ (if length p == 0 then 0 else suc (slashes (drop 1 p)))
unfolding count_params
count_params-slashes zero [] h = refl
count_params-slashes zero (x ∷ p) h = absurd (omega arith)
count_params-slashes (suc f) [] h = refl
count_params-slashes (suc f) (x ∷ p) h = elim (Option-cases (memchr p b'/' (length p))) [
  | inl e ↦ ground (arith, slashes-memchr-none p (length p) e, take-length p)
  | inr (k, e) ↦ ground (
    arith,
    (memchr-FoundSlash p (length p) k e).inside,
    slashes-past p k e,
    length-drop k p,
    drop_one-drop k p,
    count_params-slashes f (drop k p),
  )
]
