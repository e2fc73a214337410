-- ===== src/Blockwm/Reach.antt =====
-- All calls of wm/blockwm.c, in any order.
use blockos.Prelude.{
  ℕ, zero, suc, ◌≤◌, ◌<◌, ◌≡◌, ◌⊎◌, refl, inl, inr, Bool, true, false, List, Option, none, some,
  arith, if◌then◌else◌, ◌==◌,
}
use blockos.Blockwm.{
  Blockwm, window, max_windows, sub, at_most, negative, rounds, state_minimized, blockwm_init,
  blockwm_create_window, blockwm_destroy_window, blockwm_focus_window, blockwm_move_window,
  blockwm_resize_window, blockwm_minimize_window, blockwm_maximize_window, blockwm_get_focused,
}
use blockos.Blockwm.Compose.{blockwm_composite}
use blockos.Blockwm.Mouse.{
  press_titlebar, press, pressed, blockwm_handle_mouse, on_button, on_titlebar, on_content,
}
use blockos.Blockwm.Focus.{
  IsValid, IsValid-if, init-IsValid, create_window-IsValid, destroy_window-IsValid,
  focus_window-IsValid, move_window-IsValid, resize_window-IsValid, minimize_window-IsValid,
  maximize_window-IsValid, composite-IsValid,
}

press_titlebar-IsValid :
    (wm : Blockwm) (i x y : ℕ)
    → i < wm.window_count
    → IsValid wm
    → IsValid (press_titlebar wm i x y)
unfolding press_titlebar blockwm_focus_window
press_titlebar-IsValid wm i x y h v =
    let focused = blockwm_focus_window wm i in
    let win = window focused i in
    let f : IsValid focused = focus_window-IsValid wm i h v in
    IsValid-if (λ r. r) (on_button win x 18 6) _ _ (λ e. destroy_window-IsValid focused i h f)
      (λ e.
        IsValid-if (λ r. r) (on_button win x 36 24) _ _ (λ e. minimize_window-IsValid focused i f)
          (λ e.
            IsValid-if (λ r. r) (on_button win x 54 42) _ _
              (λ e. maximize_window-IsValid focused i f) (λ e. f)))

press-IsValid :
    (i : ℕ) (wm : Blockwm) (x y : ℕ) (left : Bool)
    → i ≤ wm.window_count
    → IsValid wm
    → IsValid (press i wm x y left)
unfolding press
press-IsValid zero wm x y left h v = v
press-IsValid (suc i) wm x y left h v =
    let win = window wm i in
    let below = press i wm x y left in
    let content =
      if on_content win x y then if left then blockwm_focus_window wm i else wm else below in
    let bar = if left then press_titlebar wm i x y else wm in
    let rest = press-IsValid i wm x y left (omega (arith, h)) v in
    IsValid-if (λ r. r) (win.state == state_minimized) below
      (if on_titlebar win x y then bar else content) (λ e. rest)
      (λ e.
        IsValid-if (λ r. r) (on_titlebar win x y) bar content
          (λ e.
            IsValid-if (λ r. r) left (press_titlebar wm i x y) wm
              (λ e. press_titlebar-IsValid wm i x y h v) (λ e. v))
          (λ e.
            IsValid-if (λ r. r) (on_content win x y)
              (if left then blockwm_focus_window wm i else wm) below
              (λ e.
                IsValid-if (λ r. r) left (blockwm_focus_window wm i) wm
                  (λ e. focus_window-IsValid wm i h v) (λ e. v))
              (λ e. rest)))

pressed-IsValid :
    (wm : Blockwm) (x y : ℕ) (left : Bool) → IsValid wm → IsValid (pressed wm x y left)
unfolding pressed
pressed-IsValid wm x y left v =
    press-IsValid (rounds wm.window_count) (record wm { drag_window = none }) x y left
      (ground (arith, v.1)) v

mouse-IsValid :
    (wm : Blockwm) (o : Option ℕ) (x y : ℕ) (left : Bool)
    → IsValid wm
    → IsValid (elim o [
      | none ↦ pressed wm x y left
      | some win ↦
          if left
          then blockwm_move_window wm win (sub x wm.drag_offset_x) (sub y wm.drag_offset_y)
          else pressed wm x y left
    ])
mouse-IsValid wm none x y left v = pressed-IsValid wm x y left v
mouse-IsValid wm (some win) x y left v =
    let moved = blockwm_move_window wm win (sub x wm.drag_offset_x) (sub y wm.drag_offset_y) in
    IsValid-if (λ r. r) left moved (pressed wm x y left)
      (λ e. move_window-IsValid wm win (sub x wm.drag_offset_x) (sub y wm.drag_offset_y) v)
      (λ e. pressed-IsValid wm x y left v)

handle_mouse-IsValid :
    (wm : Blockwm) (x y : ℕ) (left right : Bool)
    → IsValid wm
    → IsValid (blockwm_handle_mouse wm x y left right)
unfolding blockwm_handle_mouse
handle_mouse-IsValid wm x y left right v = mouse-IsValid wm wm.drag_window x y left v

-- One call. A pointer that is destroyed or focused is one of a window of the list.
pub data Step : Blockwm → Blockwm → Type 0 where
  create :
      {wm : Blockwm} (title : List ℕ) (x y width height flags : ℕ)
      → Step wm (blockwm_create_window wm title x y width height flags).0
  destroy : {wm : Blockwm} (i : ℕ) → i < wm.window_count → Step wm (blockwm_destroy_window wm i)
  focus : {wm : Blockwm} (i : ℕ) → i < wm.window_count → Step wm (blockwm_focus_window wm i)
  move : {wm : Blockwm} (i x y : ℕ) → Step wm (blockwm_move_window wm i x y)
  resize : {wm : Blockwm} (i width height : ℕ) → Step wm (blockwm_resize_window wm i width height)
  minimize : {wm : Blockwm} (i : ℕ) → Step wm (blockwm_minimize_window wm i)
  maximize : {wm : Blockwm} (i : ℕ) → Step wm (blockwm_maximize_window wm i)
  composite : {wm : Blockwm} → Step wm (blockwm_composite wm).0
  mouse :
      {wm : Blockwm} (x y : ℕ) (left right : Bool)
      → Step wm (blockwm_handle_mouse wm x y left right)

-- The states after `blockwm_init` and any calls.
pub data Reached : Blockwm → Type 0 where
  start :
      (wm : Blockwm) (width height : ℕ)
      → (blockwm_init wm width height).1 ≡ true
      → Reached (blockwm_init wm width height).0
  then_call : {wm wm' : Blockwm} → Reached wm → Step wm wm' → Reached wm'

Step-IsValid : {wm wm' : Blockwm} → Step wm wm' → IsValid wm → IsValid wm'
Step-IsValid {wm = wm} (Step.create title x y width height flags) v =
    create_window-IsValid wm title x y width height flags v
Step-IsValid {wm = wm} (Step.destroy i h) v = destroy_window-IsValid wm i h v
Step-IsValid {wm = wm} (Step.focus i h) v = focus_window-IsValid wm i h v
Step-IsValid {wm = wm} (Step.move i x y) v = move_window-IsValid wm i x y v
Step-IsValid {wm = wm} (Step.resize i width height) v = resize_window-IsValid wm i width height v
Step-IsValid {wm = wm} (Step.minimize i) v = minimize_window-IsValid wm i v
Step-IsValid {wm = wm} (Step.maximize i) v = maximize_window-IsValid wm i v
Step-IsValid {wm = wm} (Step.composite) v = composite-IsValid wm v
Step-IsValid {wm = wm} (Step.mouse x y left right) v = handle_mouse-IsValid wm x y left right v

pub Reached-IsValid : {wm : Blockwm} → Reached wm → IsValid wm
Reached-IsValid (Reached.start wm width height h) = init-IsValid wm width height h
Reached-IsValid (Reached.then_call r s) = Step-IsValid s (Reached-IsValid r)

-- After a `blockwm_init` that succeeds and any calls, in which only windows of the list are destroyed
-- and focused, there are at most 64 windows, and blockwm_get_focused answers NULL exactly where there
-- are none, and else one of the windows of the list.
pub blockwm_get_focused-Reached :
    (wm : Blockwm)
    → Reached wm
    → (wm.window_count ≤ max_windows)
      × (((wm.window_count ≡ 0) × (blockwm_get_focused wm ≡ none))
          ⊎ ((i : ℕ) × (i < wm.window_count) × (blockwm_get_focused wm ≡ some i)))
unfolding blockwm_get_focused
blockwm_get_focused-Reached wm r =
    let v = Reached-IsValid r in
    (
      v.1,
      elim v.2 [
        | inl p ↦
            let neg : negative wm.focused_window ≡ true = ground (arith, p.1) in
            inl (p.0, rw neg refl)
        | inr h ↦
            let pos : negative wm.focused_window ≡ false = ground (arith, h, v.1) in
            let one : at_most wm.window_count wm.focused_window ≡ false = ground (arith, h, v.1) in
            inr (wm.focused_window, h, rw pos (rw one refl))
      ],
    )
