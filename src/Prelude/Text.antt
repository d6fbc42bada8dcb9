-- ===== src/Prelude/Text.antt =====
-- Byte strings, and the functions of <string.h>, <strings.h> and <ctype.h> that the program calls.
-- A C string is the list of its bytes; a read at its end gives the terminating NUL.
use Prim.Native.Char.{code}
use Prim.Native.Nat.{ℕ, zero, suc, ◌+◌}
use Prim.Native.String.{String}
use mathlib.Core.Bool.{Bool, true, ◌&&◌, ◌||◌}
use mathlib.Core.List.{List, [], ◌∷◌}
use mathlib.Core.Option
use mathlib.Core.Option.{Option, none, some}
use webdis.Prelude.Tests.{leb, ◌==◌, if◌then◌else◌}

abbrev pub Bytes : Type 0
Bytes = List ℕ

-- The code points of a text: its bytes, if it is ASCII.
abbrev pub codes : String → Bytes
codes String.[] = []
codes (String.◌∷◌ c s) = code c ∷ codes s

-- `tolower` in the C locale.
unfoldable pub to_lower : ℕ → ℕ
to_lower c = if leb b'A' c && leb c b'Z' then c + 32 else c

-- `strncasecmp(a, b, n) == 0`.
unfoldable pub strncasecmp_eq : Bytes → Bytes → ℕ → Bool
unfolding to_lower
strncasecmp_eq a b zero = true
strncasecmp_eq [] [] (suc n) = true
strncasecmp_eq [] (y ∷ b) (suc n) = y == 0
strncasecmp_eq (x ∷ a) [] (suc n) = x == 0
strncasecmp_eq (x ∷ a) (y ∷ b) (suc n) =
    to_lower x == to_lower y && (x == 0 || strncasecmp_eq a b n)

-- `strncmp(a, b, n) == 0`.
unfoldable pub strncmp_eq : Bytes → Bytes → ℕ → Bool
strncmp_eq a b zero = true
strncmp_eq [] [] (suc n) = true
strncmp_eq [] (y ∷ b) (suc n) = y == 0
strncmp_eq (x ∷ a) [] (suc n) = x == 0
strncmp_eq (x ∷ a) (y ∷ b) (suc n) = x == y && (x == 0 || strncmp_eq a b n)

-- `strcasecmp(a, b) == 0`.
unfoldable pub strcasecmp_eq : Bytes → Bytes → Bool
unfolding to_lower
strcasecmp_eq [] [] = true
strcasecmp_eq [] (y ∷ b) = y == 0
strcasecmp_eq (x ∷ a) [] = x == 0
strcasecmp_eq (x ∷ a) (y ∷ b) = to_lower x == to_lower y && (x == 0 || strcasecmp_eq a b)

-- `strcmp(a, b) == 0`.
unfoldable pub strcmp_eq : Bytes → Bytes → Bool
strcmp_eq [] [] = true
strcmp_eq [] (y ∷ b) = y == 0
strcmp_eq (x ∷ a) [] = x == 0
strcmp_eq (x ∷ a) (y ∷ b) = x == y && (x == 0 || strcmp_eq a b)

-- `memchr(s, c, n)`: the offset of the first `c` among the first `n` bytes.
unfoldable pub memchr : Bytes → ℕ → ℕ → Option ℕ
memchr s c zero = none
memchr [] c (suc n) = none
memchr (x ∷ s) c (suc n) = if x == c then some 0 else Option.map suc (memchr s c n)
