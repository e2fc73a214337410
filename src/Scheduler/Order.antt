-- ===== src/Scheduler/Order.antt =====
-- The comparison of priorities in kernel/scheduler.c, and conjunctions of tests.
use blockos.Prelude.{◌≡◌, refl, ◌⊎◌, inl, inr, Bool, true, false, ◌&&◌, ℤ, pos, negsuc, arith}
use blockos.Scheduler.{greater}

pub greater_irrefl : (a : ℤ) → greater a a ≡ false
unfolding greater
greater_irrefl (pos a) = ground arith
greater_irrefl (negsuc a) = ground arith

-- What is not above the old best is not above a better one.
pub greater_below : (x b y : ℤ) → greater x b ≡ false → greater b y ≡ false → greater x y ≡ false
unfolding greater
greater_below (pos x) (pos b) (pos y) h k = ground arith
greater_below (pos x) (pos b) (negsuc y) h k = ground arith
greater_below (pos x) (negsuc b) y h k = ground arith
greater_below (negsuc x) b (pos y) h k = refl
greater_below (negsuc x) (pos b) (negsuc y) h k = ground arith
greater_below (negsuc x) (negsuc b) (negsuc y) h k = ground arith

pub greater_asym : (a b : ℤ) → greater a b ≡ true → greater b a ≡ false
unfolding greater
greater_asym (pos a) (pos b) h = ground arith
greater_asym (pos a) (negsuc b) h = refl
greater_asym (negsuc a) (pos b) h = ground arith
greater_asym (negsuc a) (negsuc b) h = ground arith

pub both : (a b : Bool) → (a && b) ≡ true → (a ≡ true) × (b ≡ true)
both a b e = ground arith

pub not_both : (a b : Bool) → (a && b) ≡ false → (a ≡ false) ⊎ (b ≡ false)
not_both true b e = inr e
not_both false b e = inl refl
