-- ===== src/Blockwm/Bubble.antt =====
-- The rounds of the sort of wm/blockwm.c keep the windows and those behind them.
use mathlib.Core.List.{Perm}
use mathlib.Core.List.Perm
use blockos.Prelude.{
  ℕ, zero, suc, ◌≤◌, ◌<◌, ◌≡◌, refl, ap, ◌∙◌, inl, inr, List, [], ◌∷◌, ◌++◌, arith, length,
  Bool-cases,
}
use blockos.Slots.Laws.{All}
use blockos.Blockwm.{Window, less}
use blockos.Blockwm.Compose.{bubble, passes}

bubble-All : (P : Window → Type 0) (n : ℕ) (ws : List Window) → All P ws → All P (bubble n ws)
unfolding bubble
bubble-All P zero ws h = h
bubble-All P (suc n) [] h = h
bubble-All P (suc n) (a ∷ []) h = h
bubble-All P (suc n) (a ∷ b ∷ ws) h = elim (Bool-cases (less b.z_order a.z_order)) [
  | inl y ↦ rw y (h.1.0, bubble-All P n (a ∷ ws) (h.0, h.1.1))
  | inr f ↦ rw f (h.0, bubble-All P n (b ∷ ws) h.1)
]

pub passes-All : (P : Window → Type 0) (n : ℕ) (ws : List Window) → All P ws → All P (passes n ws)
unfolding passes
passes-All P zero ws h = h
passes-All P (suc n) ws h = passes-All P n (bubble (suc n) ws) (bubble-All P (suc n) ws h)

length-bubble : (n : ℕ) (ws : List Window) → length (bubble n ws) ≡ length ws
unfolding bubble
length-bubble zero ws = refl
length-bubble (suc n) [] = refl
length-bubble (suc n) (a ∷ []) = refl
length-bubble (suc n) (a ∷ b ∷ ws) = elim (Bool-cases (less b.z_order a.z_order)) [
  | inl y ↦ rw y (ap suc (length-bubble n (a ∷ ws)))
  | inr f ↦ rw f (ap suc (length-bubble n (b ∷ ws)))
]

bubble-Perm : (n : ℕ) (ws : List Window) → Perm (bubble n ws) ws
unfolding bubble
bubble-Perm zero ws = Perm.refl ws
bubble-Perm (suc n) [] = Perm.refl []
bubble-Perm (suc n) (a ∷ []) = Perm.refl (a ∷ [])
bubble-Perm (suc n) (a ∷ b ∷ ws) = elim (Bool-cases (less b.z_order a.z_order)) [
  | inl y ↦ rw y (Perm.trans (Perm.cons b (bubble-Perm n (a ∷ ws))) (Perm.swap a b ws))
  | inr f ↦ rw f (Perm.cons a (bubble-Perm n (b ∷ ws)))
]

pub passes-Perm : (n : ℕ) (ws : List Window) → Perm (passes n ws) ws
unfolding passes
passes-Perm zero ws = Perm.refl ws
passes-Perm (suc n) ws = Perm.trans (passes-Perm n (bubble (suc n) ws)) (bubble-Perm (suc n) ws)

-- The windows behind the ones that are sorted stay.
bubble-append :
    (n : ℕ) (a : Window) (xs ys : List Window)
    → n ≤ length xs
    → bubble n (a ∷ (xs ++ ys)) ≡ bubble n (a ∷ xs) ++ ys
unfolding bubble
bubble-append zero a xs ys h = refl
bubble-append (suc n) a [] ys h = absurd (omega arith)
bubble-append (suc n) a (b ∷ xs) ys h = elim (Bool-cases (less b.z_order a.z_order)) [
  | inl y ↦ rw y (ap (◌∷◌ b) (bubble-append n a xs ys (omega arith)))
  | inr f ↦ rw f (ap (◌∷◌ a) (bubble-append n b xs ys (omega arith)))
]

pub passes-append :
    (n : ℕ) (xs ys : List Window) → n < length xs → passes n (xs ++ ys) ≡ passes n xs ++ ys
unfolding passes
passes-append zero xs ys h = refl
passes-append (suc n) [] ys h = absurd (omega arith)
passes-append (suc n) (a ∷ xs) ys h =
    ap (passes n) (bubble-append (suc n) a xs ys (omega arith))
    ∙ passes-append n (bubble (suc n) (a ∷ xs)) ys
        (omega (arith, h, length-bubble (suc n) (a ∷ xs)))

pub length-passes : (n : ℕ) (ws : List Window) → length (passes n ws) ≡ length ws
unfolding passes
length-passes zero ws = refl
length-passes (suc n) ws = length-passes n (bubble (suc n) ws) ∙ length-bubble (suc n) ws
