-- ===== src/Blockwm/Place.antt =====
-- Where windows stand: moving, and maximizing and restoring, in wm/blockwm.c.
use blockos.Prelude.{
  ℕ, ◌+◌, ◌^◌, ◌≤◌, ◌<◌, ◌≡◌, refl, ap, ◌∙◌, sym, inl, inr, false, arith, ◌==◌, ltb, leb, length,
  set, get_or-set_self, length-set, Bool-cases, subst,
}
use blockos.Blockwm.{
  Window, Blockwm, no_window, window, add, clamped, maximized, state_normal, state_maximized,
  blockwm_move_window, blockwm_maximize_window,
}

-- A coordinate and a size within a screen.
abbrev IsInside : ℕ → ℕ → ℕ → Type 0
IsInside x width screen = x + width ≤ screen

clamped-IsInside :
    (x width screen : ℕ)
    → width ≤ screen
    → screen < 2 ^ 31
    → IsInside (clamped x width screen) width screen
      × (IsInside x width screen → clamped x width screen ≡ x)
unfolding clamped
clamped-IsInside x width screen w s = elim (Bool-cases (leb (2 ^ 31) x)) [
  | inl neg ↦ rw neg (ground arith, λ h. absurd (ground (arith, h)))
  | inr pos ↦ rw pos (elim (Bool-cases (ltb screen (add x width))) [
    | inl over ↦ rw over (ground arith, λ h. absurd (ground (arith, h)))
    | inr fits ↦ rw fits (ground arith, λ h. refl)
  ])
]

-- A window no larger than the screen, of less than 2 ^ 31 pixels each way, is within the screen after
-- `blockwm_move_window`, wherever it was asked to be; where that was within the screen, it is there.
pub blockwm_move_window-IsInside :
    (wm : Blockwm) (i x y : ℕ)
    → i < length wm.windows
    → (window wm i).width ≤ wm.screen_width
    → (window wm i).height ≤ wm.screen_height
    → wm.screen_width < 2 ^ 31
    → wm.screen_height < 2 ^ 31
    → IsInside (window (blockwm_move_window wm i x y) i).x (window wm i).width wm.screen_width
      × IsInside (window (blockwm_move_window wm i x y) i).y (window wm i).height wm.screen_height
      × (IsInside x (window wm i).width wm.screen_width
          → (window (blockwm_move_window wm i x y) i).x ≡ x)
      × (IsInside y (window wm i).height wm.screen_height
          → (window (blockwm_move_window wm i x y) i).y ≡ y)
unfolding blockwm_move_window
blockwm_move_window-IsInside wm i x y h w v sw sh =
    let win = window wm i in
    let moved : Window = record win {
      x = clamped x win.width wm.screen_width;
      y = clamped y win.height wm.screen_height;
    } in
    let there : window (blockwm_move_window wm i x y) i ≡ moved =
      get_or-set_self wm.windows i moved no_window h in
    let px = clamped-IsInside x win.width wm.screen_width w sw in
    let py = clamped-IsInside y win.height wm.screen_height v sh in
    subst
      (λ (m : Window).
        IsInside m.x win.width wm.screen_width
        × IsInside m.y win.height wm.screen_height
        × (IsInside x win.width wm.screen_width → m.x ≡ x)
        × (IsInside y win.height wm.screen_height → m.y ≡ y))
      (sym there) (px.0, py.0, px.1, py.1)

-- The window as it is restored.
abbrev restored : Window → Window
restored win = record win {
  state = state_normal;
  saved_x = win.x;
  saved_y = win.y;
  saved_width = win.width;
  saved_height = win.height;
}

maximized-maximized :
    (win : Window) (sw sh : ℕ)
    → (win.state == state_maximized) ≡ false
    → maximized (maximized win sw sh) sw sh ≡ restored win
unfolding maximized
maximized-maximized win sw sh n = rw n refl

-- Maximizing a window of the array that is not maximized and then maximizing it again gives it back
-- its place and its size, everything else of it kept but for the state, which is normal then, and
-- the saved place and size, which are those it has.
pub blockwm_maximize_window-blockwm_maximize_window :
    (wm : Blockwm) (i : ℕ)
    → i < length wm.windows
    → ((window wm i).state == state_maximized) ≡ false
    → window (blockwm_maximize_window (blockwm_maximize_window wm i) i) i ≡ restored (window wm i)
unfolding blockwm_maximize_window
blockwm_maximize_window-blockwm_maximize_window wm i h n =
    let win = window wm i in
    let once = maximized win wm.screen_width wm.screen_height in
    let there : window (blockwm_maximize_window wm i) i ≡ once =
      get_or-set_self wm.windows i once no_window h in
    let in_range : i < length (set wm.windows i once) =
      subst (λ k. i < k) (sym (length-set wm.windows i once)) h in
    get_or-set_self (set wm.windows i once) i _ no_window in_range
    ∙ ap (λ w. maximized w wm.screen_width wm.screen_height) there
    ∙ maximized-maximized win wm.screen_width wm.screen_height n
