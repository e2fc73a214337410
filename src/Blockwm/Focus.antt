-- ===== src/Blockwm/Focus.antt =====
-- Which window has the focus, after any calls of wm/blockwm.c.
use blockos.Prelude.{
  ℕ, zero, suc, ◌-◌, ◌*◌, ◌%◌, ◌^◌, ◌≤◌, ◌<◌, ◌≡◌, ◌⊎◌, refl, ap, ◌∙◌, sym, inl, inr, Bool, true,
  false, List, Option, none, some, arith, if◌then◌else◌, ◌==◌, length, set, replicate, is_some,
  length-set, length-replicate, Bool-cases, Option-cases, subst,
}
use blockos.Heap.{malloc}
use blockos.Blockwm.{
  Window, Blockwm, no_window, window, max_windows, minus_one, add, sub, at_most, rounds, shift,
  filled, blockwm_init, blockwm_create_window, blockwm_destroy_window, blockwm_focus_window,
  blockwm_move_window, blockwm_resize_window, blockwm_minimize_window, blockwm_maximize_window,
}
use blockos.Blockwm.Compose.{blockwm_composite}
use blockos.Blockwm.Bubble.{length-passes}

-- No window, or one of them has the focus.
abbrev pub HasFocus : ℕ → ℕ → Type 0
HasFocus count focused = ((count ≡ 0) × (focused ≡ minus_one)) ⊎ (focused < count)

abbrev pub IsValid : Blockwm → Type 0
IsValid wm =
    (length wm.windows ≡ max_windows)
    × (wm.window_count ≤ max_windows)
    × HasFocus wm.window_count wm.focused_window

pub IsValid-if {ℓ} :
    {A : Type ℓ} (wm_of : A → Blockwm) (b : Bool) (x y : A)
    → (b ≡ true → IsValid (wm_of x))
    → (b ≡ false → IsValid (wm_of y))
    → IsValid (wm_of (if b then x else y))
IsValid-if wm_of true x y hx hy = hx refl
IsValid-if wm_of false x y hx hy = hy refl

init_if :
    (b : Bool) (x y : Blockwm)
    → (if◌then◌else◌ {A = Blockwm × Bool} b (x, true) (y, false)).1 ≡ true
    → IsValid x
    → IsValid (if◌then◌else◌ {A = Blockwm × Bool} b (x, true) (y, false)).0
init_if true x y e v = v
init_if false x y e v = absurd (cc)

pub init-IsValid :
    (wm : Blockwm) (width height : ℕ)
    → (blockwm_init wm width height).1 ≡ true
    → IsValid (blockwm_init wm width height).0
unfolding blockwm_init
init-IsValid wm width height h =
    let (buffer, next) = malloc wm.heap_ptr (width * height * 4 % 2 ^ 32) in
    let cleared : Blockwm = record wm {
      screen_width = width;
      screen_height = height;
      window_count = 0;
      focused_window = minus_one;
      drag_window = none;
      compositor_buffer = buffer;
      heap_ptr = next;
    } in
    init_if (is_some buffer) (record cleared { windows = replicate max_windows no_window }) cleared
      h (length-replicate max_windows no_window, omega arith, inl (refl, refl))

pub create_window-IsValid :
    (wm : Blockwm) (title : List ℕ) (x y width height flags : ℕ)
    → IsValid wm
    → IsValid (blockwm_create_window wm title x y width height flags).0
unfolding blockwm_create_window
create_window-IsValid wm title x y width height flags v =
    let i = wm.window_count in
    let (framebuffer, next) = malloc wm.heap_ptr (width * height * 4 % 2 ^ 32) in
    let win = filled (window wm i) (add i 1) title x y width height flags framebuffer in
    let written : Blockwm = record wm { windows = set wm.windows i win; heap_ptr = next } in
    let same : length written.windows ≡ max_windows = length-set wm.windows i win ∙ v.0 in
    let result : Blockwm × Option ℕ =
      if is_some framebuffer
      then (record written { window_count = add i 1; focused_window = i }, some i)
      else (written, none) in
    IsValid-if (λ (r : Blockwm × Option ℕ). r.0) (at_most max_windows i) (wm, none) result
      (λ full. v)
      (λ room.
        IsValid-if (λ (r : Blockwm × Option ℕ). r.0) (is_some framebuffer)
          (record written { window_count = add i 1; focused_window = i }, some i) (written, none)
          (λ got. (same, ground (arith, room, v.1), inr (ground (arith, room, v.1))))
          (λ failed. (same, v.1, v.2)))

length-shift : (n i : ℕ) (ws : List Window) → length (shift n i ws) ≡ length ws
unfolding shift
length-shift zero i ws = refl
length-shift (suc n) i ws = length-shift n (suc i) _ ∙ length-set ws i _

-- Both numbers after a window is gone.
destroyed-HasFocus :
    (count focused : ℕ)
    → 0 < count
    → count ≤ max_windows
    → HasFocus count focused
    → HasFocus
        (sub count 1)
        (if at_most (sub count 1) focused then sub (sub count 1) 1 else focused)
destroyed-HasFocus count focused pos few (inl none_left) = absurd (omega (arith, none_left.0, pos))
destroyed-HasFocus count focused pos few (inr lt) =
    let c : sub count 1 ≡ count - 1 = ground (arith, pos, few) in
    rw c (elim (Bool-cases (at_most (count - 1) focused)) [
      | inl last ↦ rw last (elim (Bool-cases (count == 1)) [
        | inl one ↦ inl (ground (arith, one), ground (arith, one))
        | inr more ↦ inr (ground (arith, more, pos, few))
      ])
      | inr before ↦ rw before (inr (ground (arith, before, lt, few)))
    ])

pub destroy_window-IsValid :
    (wm : Blockwm) (i : ℕ)
    → i < wm.window_count
    → IsValid wm
    → IsValid (blockwm_destroy_window wm i)
unfolding blockwm_destroy_window
destroy_window-IsValid wm i h v =
    let freed = set wm.windows i (record (window wm i) { framebuffer = none }) in
    (
      length-shift (rounds (sub wm.window_count 1) - i) i freed
          ∙ length-set wm.windows i (record (window wm i) { framebuffer = none })
          ∙ v.0,
      ground (arith, v.1, h),
      destroyed-HasFocus wm.window_count wm.focused_window (omega (arith, h)) v.1 v.2,
    )

-- A call that only writes to a window.
pub written-IsValid :
    (wm wm' : Blockwm) (i : ℕ) (win : Window)
    → wm'.windows ≡ set wm.windows i win
    → wm'.window_count ≡ wm.window_count
    → wm'.focused_window ≡ wm.focused_window
    → IsValid wm
    → IsValid wm'
written-IsValid wm wm' i win w c f v = (
  ap length w ∙ length-set wm.windows i win ∙ v.0,
  subst (λ n. n ≤ max_windows) (sym c) v.1,
  subst (λ n. HasFocus n wm'.focused_window) (sym c) (subst (HasFocus wm.window_count) (sym f) v.2),
)

pub focus_window-IsValid :
    (wm : Blockwm) (i : ℕ) → i < wm.window_count → IsValid wm → IsValid (blockwm_focus_window wm i)
unfolding blockwm_focus_window
focus_window-IsValid wm i h v = (length-set wm.windows i _ ∙ v.0, v.1, inr h)

pub composite-IsValid : (wm : Blockwm) → IsValid wm → IsValid (blockwm_composite wm).0
unfolding blockwm_composite
composite-IsValid wm v = elim (Option-cases wm.compositor_buffer) [
  | inl n ↦ rw n v
  | inr (buffer, y) ↦ rw y (length-passes (rounds wm.window_count - 1) wm.windows ∙ v.0, v.1, v.2)
]

pub move_window-IsValid :
    (wm : Blockwm) (i x y : ℕ) → IsValid wm → IsValid (blockwm_move_window wm i x y)
unfolding blockwm_move_window
move_window-IsValid wm i x y v = (length-set wm.windows i _ ∙ v.0, v.1, v.2)

pub resize_window-IsValid :
    (wm : Blockwm) (i width height : ℕ)
    → IsValid wm
    → IsValid (blockwm_resize_window wm i width height)
unfolding blockwm_resize_window
resize_window-IsValid wm i width height v = (length-set wm.windows i _ ∙ v.0, v.1, v.2)

pub minimize_window-IsValid :
    (wm : Blockwm) (i : ℕ) → IsValid wm → IsValid (blockwm_minimize_window wm i)
unfolding blockwm_minimize_window
minimize_window-IsValid wm i v = (length-set wm.windows i _ ∙ v.0, v.1, v.2)

pub maximize_window-IsValid :
    (wm : Blockwm) (i : ℕ) → IsValid wm → IsValid (blockwm_maximize_window wm i)
unfolding blockwm_maximize_window
maximize_window-IsValid wm i v = (length-set wm.windows i _ ∙ v.0, v.1, v.2)
