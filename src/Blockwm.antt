-- ===== src/Blockwm.antt =====
-- wm/blockwm.c and wm/blockwm.h: the windows and their order. A pointer to a window is its place in
-- the array `windows`. An `int` is its bit pattern, a number below 2 ^ 32, since coordinates are mixed
-- with the unsigned sizes; `negative`, `less` and `at_most` read the sign. `resize_window`, which is
-- only ever NULL, and drawing are left out.
pub mod Compose
pub mod Mouse
pub mod Bubble
pub mod Sort
pub mod Place
pub mod Focus
pub mod Reach
pub mod Tests
use blockos.Prelude.{
  ℕ, zero, suc, ◌+◌, ◌-◌, ◌*◌, ◌%◌, ◌^◌, Bool, true, false, not, ◌&&◌, List, [], ◌∷◌, Option, none,
  some, if◌then◌else◌, ◌==◌, ltb, leb, length, take, get_or, set, replicate, is_some,
}
use blockos.Heap.{malloc}
pub use blockos.Word.{minus_one, add, sub, negative, rank, less, at_most, rounds}

abbrev pub max_windows : ℕ
max_windows = 64

abbrev pub titlebar_height : ℕ
titlebar_height = 24

abbrev min_width : ℕ
min_width = 100

abbrev min_height : ℕ
min_height = 50

abbrev pub state_normal : ℕ
state_normal = 0

abbrev pub state_minimized : ℕ
state_minimized = 1

abbrev pub state_maximized : ℕ
state_maximized = 2

-- `blockwm_window_t`
pub record Window : Type 0 where
  pub id : ℕ
  pub title : List ℕ
  pub x : ℕ
  pub y : ℕ
  pub width : ℕ
  pub height : ℕ
  pub flags : ℕ
  pub state : ℕ
  pub opacity : ℕ
  pub z_order : ℕ
  pub framebuffer : Option ℕ
  pub saved_x : ℕ
  pub saved_y : ℕ
  pub saved_width : ℕ
  pub saved_height : ℕ

-- The static variables of wm/blockwm.c, and the allocator's `heap_ptr`.
pub record Blockwm : Type 0 where
  pub windows : List Window
  pub window_count : ℕ
  pub focused_window : ℕ
  pub drag_window : Option ℕ
  pub drag_offset_x : ℕ
  pub drag_offset_y : ℕ
  pub compositor_buffer : Option ℕ
  pub screen_width : ℕ
  pub screen_height : ℕ
  pub heap_ptr : ℕ

abbrev pub no_window : Window
no_window = record {
  id = 0;
  title = [];
  x = 0;
  y = 0;
  width = 0;
  height = 0;
  flags = 0;
  state = 0;
  opacity = 0;
  z_order = 0;
  framebuffer = none;
  saved_x = 0;
  saved_y = 0;
  saved_width = 0;
  saved_height = 0;
}

abbrev pub window : Blockwm → ℕ → Window
window wm i = get_or wm.windows i no_window

unfoldable pub blockwm_init : Blockwm → ℕ → ℕ → Blockwm × Bool
blockwm_init wm width height =
    let (buffer, next) = malloc wm.heap_ptr (width * height * 4 % 2 ^ 32) in
    let cleared : Blockwm = record wm {
      screen_width = width;
      screen_height = height;
      window_count = 0;
      focused_window = minus_one;
      drag_window = none;
      compositor_buffer = buffer;
      heap_ptr = next;
    } in
    if is_some buffer
    then (record cleared { windows = replicate max_windows no_window }, true)
    else (cleared, false)

-- The fields that `blockwm_create_window` writes; the saved ones are those of the window that had the
-- slot before.
unfoldable pub filled : Window → ℕ → List ℕ → ℕ → ℕ → ℕ → ℕ → ℕ → Option ℕ → Window
filled win count title x y width height flags framebuffer = record win {
  id = count;
  title = take 63 title;
  x = x;
  y = y;
  width = width;
  height = height;
  flags = flags;
  state = state_normal;
  opacity = 255;
  z_order = count;
  framebuffer = framebuffer;
}

unfoldable pub blockwm_create_window : Blockwm → List ℕ → ℕ → ℕ → ℕ → ℕ → ℕ → Blockwm × Option ℕ
unfolding filled
blockwm_create_window wm title x y width height flags =
    let i = wm.window_count in
    let (framebuffer, next) = malloc wm.heap_ptr (width * height * 4 % 2 ^ 32) in
    let win = filled (window wm i) (add i 1) title x y width height flags framebuffer in
    let written : Blockwm = record wm { windows = set wm.windows i win; heap_ptr = next } in
    if at_most max_windows i
    then (wm, none)
    else if is_some framebuffer
    then (record written { window_count = add i 1; focused_window = i }, some i)
    else (written, none)

-- for (int i = idx; i < window_count - 1; i++) windows[i] = windows[i + 1];
unfoldable pub shift : ℕ → ℕ → List Window → List Window
shift zero i windows = windows
shift (suc n) i windows = shift n (suc i) (set windows i (get_or windows (suc i) no_window))

unfoldable pub blockwm_destroy_window : Blockwm → ℕ → Blockwm
unfolding shift
blockwm_destroy_window wm idx =
    let count = sub wm.window_count 1 in
    let freed = set wm.windows idx (record (window wm idx) { framebuffer = none }) in
    record wm {
      windows = shift (rounds count - idx) idx freed;
      window_count = count;
      focused_window = if at_most count wm.focused_window then sub count 1 else wm.focused_window;
    }

-- for (...) if (windows[i].z_order > max_z) max_z = windows[i].z_order;
unfoldable pub max_z_order : ℕ → List Window → ℕ
max_z_order max_z [] = max_z
max_z_order max_z (w ∷ ws) = max_z_order (if less max_z w.z_order then w.z_order else max_z) ws

-- The windows of the list.
abbrev pub live : Blockwm → List Window
live wm = take (rounds wm.window_count) wm.windows

unfoldable pub blockwm_focus_window : Blockwm → ℕ → Blockwm
unfolding max_z_order
blockwm_focus_window wm idx = record wm {
  focused_window = idx;
  windows =
      set wm.windows idx (record (window wm idx) { z_order = add (max_z_order 0 (live wm)) 1 });
}

-- One coordinate: at least 0, and the far edge on the screen.
unfoldable pub clamped : ℕ → ℕ → ℕ → ℕ
clamped x width screen =
    let x' = if negative x then 0 else x in
    if ltb screen (add x' width) then sub screen width else x'

unfoldable pub blockwm_move_window : Blockwm → ℕ → ℕ → ℕ → Blockwm
unfolding clamped
blockwm_move_window wm idx x y =
    let win = window wm idx in
    record wm {
      windows = set wm.windows idx (record win {
        x = clamped x win.width wm.screen_width;
        y = clamped y win.height wm.screen_height;
      });
    }

unfoldable pub blockwm_resize_window : Blockwm → ℕ → ℕ → ℕ → Blockwm
blockwm_resize_window wm idx width height =
    let w = if ltb width min_width then min_width else width in
    let h = if ltb height min_height then min_height else height in
    let (framebuffer, next) = malloc wm.heap_ptr (w * h * 4 % 2 ^ 32) in
    record wm {
      windows =
          set wm.windows idx
            (record (window wm idx) { width = w; height = h; framebuffer = framebuffer });
      heap_ptr = next;
    }

unfoldable pub blockwm_minimize_window : Blockwm → ℕ → Blockwm
blockwm_minimize_window wm idx = record wm {
  windows = set wm.windows idx (record (window wm idx) { state = state_minimized });
}

-- To the whole screen below a title bar, or back to where it was.
unfoldable pub maximized : Window → ℕ → ℕ → Window
maximized win screen_width screen_height =
    if win.state == state_maximized
    then record win {
      x = win.saved_x;
      y = win.saved_y;
      width = win.saved_width;
      height = win.saved_height;
      state = state_normal;
    }
    else record win {
      saved_x = win.x;
      saved_y = win.y;
      saved_width = win.width;
      saved_height = win.height;
      x = 0;
      y = titlebar_height;
      width = screen_width;
      height = sub screen_height titlebar_height;
      state = state_maximized;
    }

unfoldable pub blockwm_maximize_window : Blockwm → ℕ → Blockwm
unfolding maximized
blockwm_maximize_window wm idx = record wm {
  windows = set wm.windows idx (maximized (window wm idx) wm.screen_width wm.screen_height);
}

-- The first window with the id.
get_from : List Window → ℕ → ℕ → Option ℕ
get_from [] i id = none
get_from (w ∷ ws) i id = if w.id == id then some i else get_from ws (suc i) id

unfoldable pub blockwm_get_window : Blockwm → ℕ → Option ℕ
unfolding get_from
blockwm_get_window wm id = get_from (live wm) 0 id

unfoldable pub blockwm_get_window_count : Blockwm → ℕ
blockwm_get_window_count wm = wm.window_count

unfoldable pub blockwm_get_focused : Blockwm → Option ℕ
blockwm_get_focused wm =
    if negative wm.focused_window
    then none
    else if at_most wm.window_count wm.focused_window
    then none
    else some wm.focused_window
