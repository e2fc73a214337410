-- ===== src/Blockwm/Tests.antt =====
-- wm/blockwm.c with two windows.
use mathlib.Core.List.{Perm}
use blockos.Prelude.{
  ℕ, ◌+◌, ◌≤◌, ◌<◌, ◌≡◌, ◌⊎◌, refl, ◌∷◌, none, some, arith, bytes_of, drop, replicate,
}
use blockos.Heap.{malloc}
use blockos.Blockwm.{
  Blockwm, no_window, window, max_windows, live, blockwm_init, blockwm_create_window,
  blockwm_get_focused, blockwm_move_window, blockwm_maximize_window,
}
use blockos.Blockwm.Compose.{blockwm_composite}
use blockos.Blockwm.Sort.{IsStacked, Shown, blockwm_composite-IsStacked}
use blockos.Blockwm.Place.{
  blockwm_move_window-IsInside, blockwm_maximize_window-blockwm_maximize_window,
}
use blockos.Blockwm.Reach.{Step, Reached, blockwm_get_focused-Reached}

abbrev before : Blockwm
before = record {
  windows = replicate max_windows no_window;
  window_count = 0;
  focused_window = 0;
  drag_window = none;
  drag_offset_x = 0;
  drag_offset_y = 0;
  compositor_buffer = none;
  screen_width = 0;
  screen_height = 0;
  heap_ptr = 0;
}

abbrev started : Blockwm
started = (blockwm_init before 640 480).0

abbrev one_window : Blockwm
one_window = (blockwm_create_window started (bytes_of "a") 10 30 200 100 0).0

blockwm_get_focused-Reached_example :
    (one_window.window_count ≤ max_windows)
    × (((one_window.window_count ≡ 0) × (blockwm_get_focused one_window ≡ none))
        ⊎ ((i : ℕ) × (i < one_window.window_count) × (blockwm_get_focused one_window ≡ some i)))
unfolding blockwm_init malloc
blockwm_get_focused-Reached_example = blockwm_get_focused-Reached one_window (
    Reached.then_call (Reached.start before 640 480 refl)
      (Step.create (bytes_of "a") 10 30 200 100 0))

-- The first window is in front of the second one.
abbrev two_windows : Blockwm
two_windows = record before {
  windows =
      record no_window { id = 1; z_order = 3; width = 200; height = 100 }
      ∷ record no_window { id = 2; z_order = 2; width = 200; height = 100 }
      ∷ replicate 62 no_window;
  window_count = 2;
  compositor_buffer = some 0;
  screen_width = 640;
  screen_height = 480;
}

blockwm_composite-IsStacked_example :
    IsStacked (live (blockwm_composite two_windows).0)
    × Perm (live (blockwm_composite two_windows).0) (live two_windows)
    × (drop 2 (blockwm_composite two_windows).0.windows ≡ drop 2 two_windows.windows)
    × Shown (live (blockwm_composite two_windows).0) (blockwm_composite two_windows).1
    × IsStacked (blockwm_composite two_windows).1
blockwm_composite-IsStacked_example = blockwm_composite-IsStacked two_windows 0 refl (omega arith)

blockwm_move_window-IsInside_example :
    ((window (blockwm_move_window two_windows 0 600 50) 0).x + 200 ≤ 640)
    × ((window (blockwm_move_window two_windows 0 600 50) 0).y + 100 ≤ 480)
    × (600 + 200 ≤ 640 → (window (blockwm_move_window two_windows 0 600 50) 0).x ≡ 600)
    × (50 + 100 ≤ 480 → (window (blockwm_move_window two_windows 0 600 50) 0).y ≡ 50)
blockwm_move_window-IsInside_example =
    blockwm_move_window-IsInside two_windows 0 600 50 (omega arith) (omega arith) (omega arith)
      (omega arith) (omega arith)

blockwm_maximize_window-blockwm_maximize_window_example :
    window (blockwm_maximize_window (blockwm_maximize_window two_windows 1) 1) 1
    ≡ record (window two_windows 1) { saved_width = 200; saved_height = 100 }
blockwm_maximize_window-blockwm_maximize_window_example =
    blockwm_maximize_window-blockwm_maximize_window two_windows 1 (omega arith) refl
