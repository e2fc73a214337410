-- ===== src/Prelude/Int.antt =====
-- C's `int` where its sign matters: descriptors and the results that are -1 on failure.
use Prim.Native.Nat.{ℕ}
use mathlib.Core.Option.{Option, none, some}

-- `negsuc n` is -(n + 1).
pub data ℤ : Type 0 where
  pos : ℕ → ℤ
  negsuc : ℕ → ℤ

abbrev pub minus_one : ℤ
minus_one = negsuc 0

-- What a search function returns: the index, or -1.
abbrev pub index_or_minus_one : Option ℕ → ℤ
index_or_minus_one none = minus_one
index_or_minus_one (some i) = pos i
