-- ===== src/Blockwm/Sort.antt =====
-- The bubble sort of `blockwm_composite` in wm/blockwm.c.
use mathlib.Core.List.{Perm}
use blockos.Prelude.{
  ℕ, zero, suc, ◌-◌, ◌≤◌, ◌<◌, ◌≡◌, ◌≢◌, refl, ap, ◌∙◌, sym, inl, inr, List, [], ◌∷◌, ◌++◌, some,
  arith, ◌==◌, length, length-take, drop-length_append, take, drop, take-length_append,
  drop-length_append, Bool-cases, subst, ltb→lt,
}
use blockos.Slots.Laws.{All}
use blockos.Blockwm.{Window, Blockwm, rank, less, rounds, live, state_minimized}
use blockos.Blockwm.Compose.{bubble, passes, drawn, blockwm_composite}
use blockos.Blockwm.Bubble.{passes-All, passes-Perm, passes-append, length-passes}

abbrev key : Window → ℕ
key w = rank w.z_order

-- No window is above a later one.
abbrev pub IsStacked : List Window → Type 0
IsStacked [] = Unit
IsStacked (w ∷ ws) = All (λ v. rank w.z_order ≤ rank v.z_order) ws × IsStacked ws

IsStacked-append :
    (ws : List Window) (m : Window)
    → IsStacked ws
    → All (λ v. key v ≤ key m) ws
    → IsStacked (ws ++ m ∷ [])
IsStacked-append [] m s a = (tt, tt)
IsStacked-append (w ∷ ws) m s a = (below ws s.0, IsStacked-append ws m s.1 a.1)
  where
    below :
        (vs : List Window) → All (λ v. key w ≤ key v) vs → All (λ v. key w ≤ key v) (vs ++ m ∷ [])
    below [] b = (a.0, tt)
    below (v ∷ vs) b = (b.0, below vs b.1)

-- What a round does: the greatest comes last.
abbrev Rises : ℕ → Window → List Window → Type 0
Rises n a ws =
    (front : List Window) × (m : Window) × (ws ≡ front ++ m ∷ [])
    × (length front ≡ n)
    × All (λ v. key v ≤ key m) front
    × (key a ≤ key m)

bubble-Rises :
    (n : ℕ) (a : Window) (xs : List Window) → length xs ≡ n → Rises n a (bubble n (a ∷ xs))
unfolding bubble
bubble-Rises zero a [] e = ([], a, refl, refl, tt, omega arith)
bubble-Rises zero a (x ∷ xs) e = absurd (omega arith)
bubble-Rises (suc n) a [] e = absurd (omega arith)
bubble-Rises (suc n) a (b ∷ xs) e = elim (Bool-cases (less b.z_order a.z_order)) [
  | inl y ↦
      let (front, m, same, l, below, up) = bubble-Rises n a xs (omega arith) in
      let lt : key b < key a = ltb→lt _ _ y in
      rw y (b ∷ front, m, ap (◌∷◌ b) same, omega (arith, l), (omega (arith, lt, up), below), up)
  | inr f ↦
      let (front, m, same, l, below, up) = bubble-Rises n b xs (omega arith) in
      let le : key a ≤ key m = ground (arith, f, up) in
      rw f (a ∷ front, m, ap (◌∷◌ a) same, omega (arith, l), (le, below), le)
]

passes-IsStacked : (n : ℕ) (ws : List Window) → length ws ≡ suc n → IsStacked (passes n ws)
unfolding passes
passes-IsStacked n [] e = absurd (omega arith)
passes-IsStacked zero (a ∷ []) e = (tt, tt)
passes-IsStacked zero (a ∷ b ∷ ws) e = absurd (omega arith)
passes-IsStacked (suc n) (a ∷ xs) e =
    let (front, m, same, l, below, up) = bubble-Rises (suc n) a xs (omega arith) in
    subst IsStacked
      (sym (passes-append n front (m ∷ []) (omega (arith, l))) ∙ ap (passes n) (sym same))
      (IsStacked-append (passes n front) m (passes-IsStacked n front l)
        (passes-All (λ v. key v ≤ key m) n front below))

drawn-All : (P : Window → Type 0) (ws : List Window) → All P ws → All P (drawn ws)
unfolding drawn
drawn-All P [] a = tt
drawn-All P (w ∷ ws) a = elim (Bool-cases (w.state == state_minimized)) [
  | inl y ↦ rw y (drawn-All P ws a.1)
  | inr f ↦ rw f (a.0, drawn-All P ws a.1)
]

-- The windows of a list that are shown, in its order: a window is left out exactly where it is
-- minimized.
pub data Shown : List Window → List Window → Type 0 where
  nothing : Shown [] []
  hidden :
      {w : Window} {ws ds : List Window}
      → w.state ≡ state_minimized
      → Shown ws ds
      → Shown (w ∷ ws) ds
  shown :
      {w : Window} {ws ds : List Window}
      → w.state ≢ state_minimized
      → Shown ws ds
      → Shown (w ∷ ws) (w ∷ ds)

drawn-Shown : (ws : List Window) → Shown ws (drawn ws)
unfolding drawn
drawn-Shown [] = nothing
drawn-Shown (w ∷ ws) = elim (Bool-cases (w.state == state_minimized)) [
  | inl y ↦ rw y (hidden (ground (arith, y)) (drawn-Shown ws))
  | inr f ↦ rw f (shown (ground (arith, f)) (drawn-Shown ws))
]

drawn-IsStacked : (ws : List Window) → IsStacked ws → IsStacked (drawn ws)
unfolding drawn
drawn-IsStacked [] s = tt
drawn-IsStacked (w ∷ ws) s = elim (Bool-cases (w.state == state_minimized)) [
  | inl y ↦ rw y (drawn-IsStacked ws s.1)
  | inr f ↦ rw f (drawn-All (λ v. key w ≤ key v) ws s.0, drawn-IsStacked ws s.1)
]

take-drop : (n : ℕ) (ws : List Window) → take n ws ++ drop n ws ≡ ws
take-drop zero ws = refl
take-drop (suc n) [] = refl
take-drop (suc n) (w ∷ ws) = ap (◌∷◌ w) (take-drop n ws)

-- Sorting the first `n` windows, from what they and the others are.
passes_of_parts :
    (n : ℕ) (xs ys : List Window)
    → length xs ≡ n
    → (passes (n - 1) (xs ++ ys) ≡ passes (n - 1) xs ++ ys) × IsStacked (passes (n - 1) xs)
unfolding passes
passes_of_parts zero [] ys e = (refl, tt)
passes_of_parts zero (x ∷ xs) ys e = absurd (omega arith)
passes_of_parts (suc n) xs ys e =
    let one : suc n - 1 ≡ n = omega arith in
    rw one (passes-append n xs ys (omega (arith, e)), passes-IsStacked n xs e)

-- What is sorted, and that nothing else is touched.
sorted_parts :
    (n : ℕ) (ws : List Window)
    → n ≤ length ws
    → IsStacked (take n (passes (n - 1) ws))
      × Perm (take n (passes (n - 1) ws)) (take n ws)
      × (drop n (passes (n - 1) ws) ≡ drop n ws)
sorted_parts n ws h =
    let front = take n ws in
    let long : length front ≡ n = omega (arith, length-take n ws, h) in
    let parts = passes_of_parts n front (drop n ws) long in
    let whole : passes (n - 1) ws ≡ passes (n - 1) front ++ drop n ws =
      ap (passes (n - 1)) (sym (take-drop n ws)) ∙ parts.0 in
    let size : length (passes (n - 1) front) ≡ n = length-passes (n - 1) front ∙ long in
    let first : take n (passes (n - 1) ws) ≡ passes (n - 1) front =
      ap (take n) whole
      ∙ subst (λ k. take k (passes (n - 1) front ++ drop n ws) ≡ passes (n - 1) front) size
          (take-length_append (passes (n - 1) front) (drop n ws)) in
    (
      subst IsStacked (sym first) parts.1,
      subst (λ l. Perm l front) (sym first) (passes-Perm (n - 1) front),
      ap (drop n) whole
          ∙ subst (λ k. drop k (passes (n - 1) front ++ drop n ws) ≡ drop n ws) size
              (drop-length_append (passes (n - 1) front) (drop n ws)),
    )

-- With a compositor buffer, and no more windows in the count than the array holds,
-- `blockwm_composite` puts the windows of the list in an order in which none has a greater z_order
-- than a later one, keeps every window and what is behind the list, and draws exactly those windows
-- of the list that are not minimized, in that order.
pub blockwm_composite-IsStacked :
    (wm : Blockwm) (buffer : ℕ)
    → wm.compositor_buffer ≡ some buffer
    → rounds wm.window_count ≤ length wm.windows
    → IsStacked (live (blockwm_composite wm).0)
      × Perm (live (blockwm_composite wm).0) (live wm)
      × (drop (rounds wm.window_count) (blockwm_composite wm).0.windows
          ≡ drop (rounds wm.window_count) wm.windows)
      × Shown (live (blockwm_composite wm).0) (blockwm_composite wm).1
      × IsStacked (blockwm_composite wm).1
unfolding blockwm_composite
blockwm_composite-IsStacked wm buffer e h =
    let s = sorted_parts (rounds wm.window_count) wm.windows h in
    rw e (
      s.0,
      s.1,
      s.2,
      drawn-Shown (take (rounds wm.window_count) (passes (rounds wm.window_count - 1) wm.windows)),
      drawn-IsStacked
          (take (rounds wm.window_count) (passes (rounds wm.window_count - 1) wm.windows)) s.0,
    )
