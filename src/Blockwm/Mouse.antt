-- ===== src/Blockwm/Mouse.antt =====
-- `blockwm_handle_mouse` of wm/blockwm.c.
use blockos.Prelude.{ℕ, zero, suc, Bool, ◌&&◌, none, some, if◌then◌else◌, ◌==◌}
use blockos.Blockwm.{
  Window, Blockwm, window, titlebar_height, state_minimized, add, sub, at_most, rounds,
  blockwm_destroy_window, blockwm_focus_window, blockwm_move_window, blockwm_minimize_window,
  blockwm_maximize_window,
}

-- lo <= a && a <= hi
abbrev pub between : ℕ → ℕ → ℕ → Bool
between lo a hi = at_most lo a && at_most a hi

abbrev pub on_titlebar : Window → ℕ → ℕ → Bool
on_titlebar win x y =
    between win.x x (add win.x win.width) && between (sub win.y titlebar_height) y win.y

abbrev pub on_content : Window → ℕ → ℕ → Bool
on_content win x y = between win.x x (add win.x win.width) && between win.y y (add win.y win.height)

-- A button of the title bar, between two distances from its right end.
abbrev pub on_button : Window → ℕ → ℕ → ℕ → Bool
on_button win x left right =
    between (sub (add win.x win.width) left) x (sub (add win.x win.width) right)

-- The left button on the title bar: close, minimize, maximize, or start a drag.
unfoldable pub press_titlebar : Blockwm → ℕ → ℕ → ℕ → Blockwm
press_titlebar wm i x y =
    let focused = blockwm_focus_window wm i in
    let win = window focused i in
    if on_button win x 18 6
    then blockwm_destroy_window focused i
    else if on_button win x 36 24
    then blockwm_minimize_window focused i
    else if on_button win x 54 42
    then blockwm_maximize_window focused i
    else record focused {
      drag_window = some i;
      drag_offset_x = sub x win.x;
      drag_offset_y = sub y (sub win.y titlebar_height);
    }

-- The loop over the windows, from the last one.
unfoldable pub press : ℕ → Blockwm → ℕ → ℕ → Bool → Blockwm
unfolding press_titlebar
press zero wm x y left = wm
press (suc i) wm x y left =
    let rest = press i wm x y left in
    let win = window wm i in
    if win.state == state_minimized
    then rest
    else if on_titlebar win x y
    then if left then press_titlebar wm i x y else wm
    else if on_content win x y
    then if left then blockwm_focus_window wm i else wm
    else rest

unfoldable pub pressed : Blockwm → ℕ → ℕ → Bool → Blockwm
unfolding press
pressed wm x y left = press (rounds wm.window_count) (record wm { drag_window = none }) x y left

-- The right button changes nothing.
unfoldable pub blockwm_handle_mouse : Blockwm → ℕ → ℕ → Bool → Bool → Blockwm
unfolding pressed
blockwm_handle_mouse wm x y left right = elim wm.drag_window [
  | none ↦ pressed wm x y left
  | some win ↦
      if left
      then blockwm_move_window wm win (sub x wm.drag_offset_x) (sub y wm.drag_offset_y)
      else pressed wm x y left
]
