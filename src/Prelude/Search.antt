-- ===== src/Prelude/Search.antt =====
-- Searching for a byte that the text before it lacks.
use webdis.Prelude.Text.{Bytes, memchr}
use Prim.Native.Nat.{ℕ, zero, suc, ◌+◌, ◌<◌}
use mathlib.Core.Bool.{Bool, true, false}
use mathlib.Core.List.{[], ◌∷◌, ◌++◌}
use mathlib.Core.Option.{none, some}
use mathlib.Core.Path.{◌≡◌, refl}
use native.Mathlib.Omega.{arith}
use webdis.Prelude.Lists.{length, drop}
use webdis.Prelude.Tests.{◌==◌, if◌then◌else◌}

abbrev pub lacks : ℕ → Bytes → Bool
lacks c [] = true
lacks c (x ∷ s) = if x == c then false else lacks c s

pub memchr-lacks : (c : ℕ) (s : Bytes) → lacks c s ≡ true → memchr s c (length s) ≡ none
unfolding memchr
memchr-lacks c [] h = refl
memchr-lacks c (x ∷ s) h = ground (arith, memchr-lacks c s)

pub memchr-append :
    (c : ℕ) (s t : Bytes)
    → lacks c s ≡ true
    → memchr (s ++ (c ∷ t)) c (length (s ++ (c ∷ t))) ≡ some (length s)
unfolding memchr
memchr-append c [] t h = ground arith
memchr-append c (x ∷ s) t h = ground (arith, memchr-append c s t)

pub memchr-lacks_in : (c : ℕ) (s t : Bytes) → lacks c s ≡ true → memchr (s ++ t) c (length s) ≡ none
unfolding memchr
memchr-lacks_in c [] t h = refl
memchr-lacks_in c (x ∷ s) t h = ground (arith, memchr-lacks_in c s t)

pub memchr-first :
    (c : ℕ) (s t : Bytes) (n : ℕ)
    → lacks c s ≡ true
    → length s < n
    → memchr (s ++ (c ∷ t)) c n ≡ some (length s)
unfolding memchr
memchr-first c s t zero h l = absurd (omega arith)
memchr-first c [] t (suc n) h l = ground arith
memchr-first c (x ∷ s) t (suc n) h l = ground (arith, memchr-first c s t n)

pub drop_past : (s t : Bytes) (c : ℕ) → drop (length s + 1) (s ++ (c ∷ t)) ≡ t
drop_past [] t c = refl
drop_past (x ∷ s) t c =
    let e : suc (length s) + 1 ≡ suc (length s + 1) = omega arith in rw e (drop_past s t c)
