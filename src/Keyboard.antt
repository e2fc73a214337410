-- ===== src/Keyboard.antt =====
-- drivers/keyboard.c and drivers/keyboard.h: scan codes, modifiers, and the buffer of characters, a
-- ring whose `head` and `tail` are equal where it is empty, so that one slot stays free. A scan
-- code is the byte that the port gives; emptying the port in keyboard_init is left out.
pub mod Queue
pub mod Tests
use blockos.Prelude.{
  ℕ, zero, suc, ◌+◌, ◌-◌, ◌%◌, Bool, true, false, not, ◌&&◌, ◌||◌, List, [], ◌∷◌, ◌++◌, Option,
  none, some, if◌then◌else◌, ◌==◌, ltb, leb, length, get_or, set, replicate, bytes_of,
}

abbrev pub buffer_size : ℕ
buffer_size = 256

abbrev key_lshift : ℕ
key_lshift = 42

abbrev key_rshift : ℕ
key_rshift = 54

abbrev key_ctrl : ℕ
key_ctrl = 29

abbrev key_alt : ℕ
key_alt = 56

abbrev key_caps : ℕ
key_caps = 58

-- `keyboard_t`: the modifiers and the ring
pub record Modifiers : Type 0 where
  pub shift : Bool
  pub ctrl : Bool
  pub alt : Bool
  pub caps : Bool

pub record Keyboard : Type 0 where
  pub buffer : List ℕ
  pub head : ℕ
  pub tail : ℕ
  pub modifiers : Modifiers

sc_map : List ℕ
sc_map =
    0 ∷ 27 ∷ bytes_of "1234567890-="
    ++ 8 ∷ 9 ∷ bytes_of "qwertyuiop[]"
    ++ 10 ∷ 0 ∷ bytes_of "asdfghjkl;'`"
    ++ 0 ∷ 92 ∷ bytes_of "zxcvbnm,./"
    ++ 0 ∷ 42 ∷ 0 ∷ 32 ∷ []

sc_shift : List ℕ
sc_shift =
    0 ∷ 27 ∷ bytes_of "!@#$%^&*()_+"
    ++ 8 ∷ 9 ∷ bytes_of "QWERTYUIOP{}"
    ++ 10 ∷ 0 ∷ bytes_of "ASDFGHJKL:"
    ++ 34 ∷ 126 ∷ 0 ∷ bytes_of "|ZXCVBNM<>?"
    ++ 0 ∷ 42 ∷ 0 ∷ 32 ∷ []

abbrev no_modifiers : Modifiers
no_modifiers = record { shift = false; ctrl = false; alt = false; caps = false }

unfoldable pub keyboard_init : Keyboard
keyboard_init = record {
  buffer = replicate buffer_size 0;
  head = 0;
  tail = 0;
  modifiers = no_modifiers;
}

-- What the tests of keyboard_irq_handler make of a scan code: new modifiers, and a character or 0.
unfoldable pub decoded : Modifiers → ℕ → Modifiers × ℕ
unfolding sc_map sc_shift
decoded m code =
    let rel = leb 128 code in
    let sc = code % 128 in
    let up = if m.shift then not m.caps else m.caps in
    let c = if ltb sc (length sc_map) then get_or (if up then sc_shift else sc_map) sc 0 else 0 in
    if sc == key_lshift || sc == key_rshift
    then (record m { shift = not rel }, 0)
    else if sc == key_ctrl
    then (record m { ctrl = not rel }, 0)
    else if sc == key_alt
    then (record m { alt = not rel }, 0)
    else if sc == key_caps && not rel
    then (record m { caps = not m.caps }, 0)
    else if rel
    then (m, 0)
    else (m, c)

-- next = (tail + 1) % KB_BUFFER_SIZE; a full buffer takes nothing.
unfoldable pub stored : Keyboard → ℕ → Keyboard
stored kb c =
    let next = (kb.tail + 1) % buffer_size in
    if next == kb.head then kb else record kb { buffer = set kb.buffer kb.tail c; tail = next }

unfoldable pub keyboard_irq_handler : Keyboard → ℕ → Keyboard
unfolding decoded stored
keyboard_irq_handler kb code =
    let (m, c) = decoded kb.modifiers code in
    if c == 0 then record kb { modifiers = m } else stored (record kb { modifiers = m }) c

unfoldable pub keyboard_has_input : Keyboard → Bool
keyboard_has_input kb = not (kb.head == kb.tail)

-- `none` is waiting for input.
unfoldable pub keyboard_getchar : Keyboard → Option (Keyboard × ℕ)
unfolding keyboard_has_input
keyboard_getchar kb =
    if keyboard_has_input kb
    then some (record kb { head = (kb.head + 1) % buffer_size }, get_or kb.buffer kb.head 0)
    else none

unfoldable pub keyboard_is_shift : Keyboard → Bool
keyboard_is_shift kb = kb.modifiers.shift

unfoldable pub keyboard_is_ctrl : Keyboard → Bool
keyboard_is_ctrl kb = kb.modifiers.ctrl

unfoldable pub keyboard_is_alt : Keyboard → Bool
keyboard_is_alt kb = kb.modifiers.alt
