-- ===== src/Keyboard/Tests.antt =====
-- drivers/keyboard.c for a few keys.
use blockos.Prelude.{◌≡◌, List, [], ◌∷◌}
use blockos.Keyboard.{keyboard_init, no_modifiers}
use blockos.Keyboard.Queue.{Event, keyboard_run, queue_run, keyboard_run-keyboard_init}

-- Shift, `a`, shift up, `b`, and three reads.
abbrev keys : List Event
keys =
    Event.code 42
    ∷ Event.code 30
    ∷ Event.code 158
    ∷ Event.code 170
    ∷ Event.code 48
    ∷ Event.read
    ∷ Event.read
    ∷ Event.read
    ∷ []

keyboard_run-keyboard_init_example :
    keyboard_run keyboard_init keys
    ≡ queue_run (record { queue = []; modifiers = no_modifiers }) keys
keyboard_run-keyboard_init_example = keyboard_run-keyboard_init keys
