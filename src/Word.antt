-- ===== src/Word.antt =====
-- C's `int` as its bit pattern, a number below 2 ^ 32, where it is mixed with unsigned numbers.
use blockos.Prelude.{ℕ, ◌+◌, ◌-◌, ◌%◌, ◌^◌, Bool, if◌then◌else◌, ltb, leb}

-- -1
abbrev pub minus_one : ℕ
minus_one = 4294967295

abbrev pub add : ℕ → ℕ → ℕ
add a b = (a + b) % 2 ^ 32

abbrev pub sub : ℕ → ℕ → ℕ
sub a b = (a + 2 ^ 32 - b) % 2 ^ 32

abbrev pub negative : ℕ → Bool
negative a = leb (2 ^ 31) a

-- The order of two ints: their sign bits turned, as numbers.
abbrev pub rank : ℕ → ℕ
rank a = (a + 2 ^ 31) % 2 ^ 32

abbrev pub less : ℕ → ℕ → Bool
less a b = ltb (rank a) (rank b)

abbrev pub at_most : ℕ → ℕ → Bool
at_most a b = leb (rank a) (rank b)

-- How often `for (int i = 0; i < n; i++)` runs.
abbrev pub rounds : ℕ → ℕ
rounds n = if negative n then 0 else n
