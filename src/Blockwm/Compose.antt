-- ===== src/Blockwm/Compose.antt =====
-- `blockwm_composite` of wm/blockwm.c: sorting the windows, and which are drawn.
use blockos.Prelude.{ℕ, zero, suc, ◌-◌, List, [], ◌∷◌, none, some, if◌then◌else◌, ◌==◌}
use blockos.Blockwm.{Window, Blockwm, state_minimized, less, rounds, live}

-- The inner loop on the first `n + 1` windows.
unfoldable pub bubble : ℕ → List Window → List Window
bubble zero ws = ws
bubble (suc n) [] = []
bubble (suc n) (a ∷ []) = a ∷ []
bubble (suc n) (a ∷ b ∷ ws) =
    if less b.z_order a.z_order then b ∷ bubble n (a ∷ ws) else a ∷ bubble n (b ∷ ws)

-- The outer loop, whose inner one is a round shorter each time.
unfoldable pub passes : ℕ → List Window → List Window
unfolding bubble
passes zero ws = ws
passes (suc n) ws = passes n (bubble (suc n) ws)

-- The windows that are drawn, one over the other.
unfoldable pub drawn : List Window → List Window
drawn [] = []
drawn (w ∷ ws) = if w.state == state_minimized then drawn ws else w ∷ drawn ws

-- The windows and those drawn, from the back to the front.
unfoldable pub blockwm_composite : Blockwm → Blockwm × List Window
unfolding passes drawn
blockwm_composite wm = elim wm.compositor_buffer [
  | none ↦ (wm, [])
  | some buffer ↦
      let sorted : Blockwm = record wm {
        windows = passes (rounds wm.window_count - 1) wm.windows;
      } in
      (sorted, drawn (live sorted))
]
