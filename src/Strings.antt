-- ===== src/Strings.antt =====
-- The string functions of kernel/generic.c. A C string is the list of its bytes up to the NUL, so a
-- loop that runs to the NUL is a recursion on the list; `char` is compared as uint8_t where the code
-- casts, and for equality otherwise.
pub mod Compare
pub mod Tokens
pub mod Words
pub mod Tests
use blockos.Prelude.{
  ℕ, zero, suc, ◌+◌, ◌-◌, Bool, true, false, ◌&&◌, List, [], ◌∷◌, ◌++◌, Option, none, some, ℤ, pos,
  negsuc, if◌then◌else◌, ◌==◌, ltb, take,
}

-- a - b, of two bytes
abbrev pub byte_diff : ℕ → ℕ → ℤ
byte_diff a b = if ltb a b then negsuc (b - a - 1) else pos (a - b)

-- The byte that `*s` reads: 0 at the end.
abbrev pub first : List ℕ → ℕ
first [] = 0
first (c ∷ s) = c

unfoldable pub strcmp : List ℕ → List ℕ → ℤ
strcmp [] b = byte_diff 0 (first b)
strcmp (x ∷ a) [] = byte_diff x 0
strcmp (x ∷ a) (y ∷ b) = if x == y then strcmp a b else byte_diff x y

unfoldable pub strncmp : List ℕ → List ℕ → ℕ → ℤ
strncmp a b zero = pos 0
strncmp [] [] (suc n) = pos 0
strncmp [] (y ∷ b) (suc n) = byte_diff 0 y
strncmp (x ∷ a) [] (suc n) = byte_diff x 0
strncmp (x ∷ a) (y ∷ b) (suc n) = if x == y then strncmp a b n else byte_diff x y

-- strcmp(a, b) == 0
abbrev pub is_zero : ℤ → Bool
is_zero (pos zero) = true
is_zero (pos (suc n)) = false
is_zero (negsuc n) = false

-- strncpy(dst, src, n) on a buffer of n + 1 bytes whose last is 0: the string that it then holds.
unfoldable pub strncpy : List ℕ → ℕ → List ℕ
strncpy src n = take n src

-- What follows the first and the last occurrence of `c`, that byte included; `none` is NULL.
unfoldable pub strchr : List ℕ → ℕ → Option (List ℕ)
strchr [] c = none
strchr (x ∷ s) c = if x == c then some (x ∷ s) else strchr s c

strrchr_from : Option (List ℕ) → List ℕ → ℕ → Option (List ℕ)
strrchr_from last [] c = last
strrchr_from last (x ∷ s) c = strrchr_from (if x == c then some (x ∷ s) else last) s c

unfoldable pub strrchr : List ℕ → ℕ → Option (List ℕ)
unfolding strrchr_from
strrchr s c = strrchr_from none s c
