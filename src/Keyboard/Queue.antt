-- ===== src/Keyboard/Queue.antt =====
-- The buffer of drivers/keyboard.c as a queue of at most 255 characters.
use mathlib.Core.Path.{ap₂}
use blockos.Prelude.{
  ℕ, suc, ◌+◌, ◌-◌, ◌%◌, ◌<◌, ◌≡◌, ◌≢◌, refl, ap, ◌∙◌, sym, inl, inr, true, false, not, List, [],
  ◌∷◌, ◌++◌, Option, none, some, arith, if◌then◌else◌, ◌==◌, ltb, length, get_or, set, length-set,
  length-replicate, Bool-cases, if_true, if_false, subst,
}
use blockos.Ring.Contents.{window, window-set, window_ne_zero, window_mod, length-window}
use blockos.Keyboard.{
  Modifiers, Keyboard, buffer_size, no_modifiers, keyboard_init, decoded, stored,
  keyboard_irq_handler, keyboard_has_input, keyboard_getchar,
}

-- What a user of the keyboard relies on: a queue, and the modifiers.
pub record Typed : Type 0 where
  pub queue : List ℕ
  pub modifiers : Modifiers

-- A scan code from the keyboard, or a wish to read.
pub data Event : Type 0 where
  code : ℕ → Event
  read : Event

abbrev typed : Typed → ℕ → Typed
typed t c =
    let (m, ch) = decoded t.modifiers c in
    record {
      queue =
          if ch == 0
          then t.queue
          else if ltb (length t.queue) 255
          then t.queue ++ ch ∷ []
          else t.queue;
      modifiers = m;
    }

-- The answers of the reads; a read of an empty queue answers `none` and changes nothing.
unfoldable pub queue_run : Typed → List Event → List (Option ℕ)
queue_run t [] = []
queue_run t (code c ∷ es) = queue_run (typed t c) es
queue_run t (read ∷ es) = elim t.queue [
  | [] ↦ none ∷ queue_run t es
  | c ∷ q ↦ some c ∷ queue_run (record t { queue = q }) es
]

unfoldable pub keyboard_run : Keyboard → List Event → List (Option ℕ)
keyboard_run kb [] = []
keyboard_run kb (code c ∷ es) = keyboard_run (keyboard_irq_handler kb c) es
keyboard_run kb (read ∷ es) = elim (keyboard_getchar kb) [
  | none ↦ none ∷ keyboard_run kb es
  | some (kb', c) ↦ some c ∷ keyboard_run kb' es
]

abbrev IsValid : Keyboard → Type 0
IsValid kb = (length kb.buffer ≡ buffer_size) × (kb.head < buffer_size) × (kb.tail < buffer_size)

-- How many characters wait.
abbrev used : Keyboard → ℕ
used kb = (kb.tail + buffer_size - kb.head) % buffer_size

abbrev waiting : Keyboard → List ℕ
waiting kb = window buffer_size 0 kb.buffer kb.head (used kb)

abbrev view : Keyboard → Typed
view kb = record { queue = waiting kb; modifiers = kb.modifiers }

length-waiting : (kb : Keyboard) → length (waiting kb) ≡ used kb
length-waiting kb = length-window buffer_size 0 kb.buffer kb.head (used kb)

stored-IsValid : (kb : Keyboard) (c : ℕ) → IsValid kb → IsValid (stored kb c)
unfolding stored
stored-IsValid kb c v = elim (Bool-cases ((kb.tail + 1) % buffer_size == kb.head)) [
  | inl full ↦ subst IsValid (sym (if_true _ _ _ full)) v
  | inr room ↦
      subst IsValid (sym (if_false _ _ _ room))
        (length-set kb.buffer kb.tail c ∙ v.0, v.1, omega arith)
]

-- The ring takes a character where 255 do not wait yet.
waiting-stored :
    (kb : Keyboard) (c : ℕ)
    → IsValid kb
    → waiting (stored kb c)
      ≡ (if ltb (length (waiting kb)) 255 then waiting kb ++ c ∷ [] else waiting kb)
unfolding stored
waiting-stored kb c v = elim (Bool-cases ((kb.tail + 1) % buffer_size == kb.head)) [
  | inl full ↦
      let many : ltb (length (waiting kb)) 255 ≡ false =
        ground (arith, length-waiting kb, full, v.1, v.2) in
      ap waiting (if_true _ _ _ full) ∙ sym (if_false _ _ _ many)
  | inr room ↦
      let few : ltb (length (waiting kb)) 255 ≡ true =
        ground (arith, length-waiting kb, room, v.1, v.2) in
      let less : used kb < buffer_size = omega (arith, v.1, v.2) in
      let next : Keyboard = record kb {
        buffer = set kb.buffer kb.tail c;
        tail = (kb.tail + 1) % buffer_size;
      } in
      let more : used next ≡ suc (used kb) = ground (arith, room, v.1, v.2) in
      let at : kb.tail ≡ (kb.head + used kb) % buffer_size = omega (arith, v.1, v.2) in
      ap waiting (if_false _ _ _ room)
      ∙ ap (window buffer_size 0 next.buffer kb.head) more
      ∙ window-set buffer_size 0 kb.buffer c kb.head (used kb) kb.tail v.0 less at
      ∙ sym (if_true _ _ _ few)
]

stored-modifiers : (kb : Keyboard) (c : ℕ) → (stored kb c).modifiers ≡ kb.modifiers
unfolding stored
stored-modifiers kb c = elim (Bool-cases ((kb.tail + 1) % buffer_size == kb.head)) [
  | inl full ↦ ap (λ (k : Keyboard). k.modifiers) (if_true _ _ _ full)
  | inr room ↦ ap (λ (k : Keyboard). k.modifiers) (if_false _ _ _ room)
]

-- The state with new modifiers.
abbrev shifted : Keyboard → ℕ → Keyboard
shifted kb c = record kb { modifiers = (decoded kb.modifiers c).0 }

irq-IsValid : (kb : Keyboard) (c : ℕ) → IsValid kb → IsValid (keyboard_irq_handler kb c)
unfolding keyboard_irq_handler
irq-IsValid kb c v = elim (Bool-cases ((decoded kb.modifiers c).1 == 0)) [
  | inl y ↦ subst IsValid (sym (if_true _ _ _ y)) v
  | inr n ↦
      subst IsValid (sym (if_false _ _ _ n))
        (stored-IsValid (shifted kb c) (decoded kb.modifiers c).1 v)
]

view-irq :
    (kb : Keyboard) (c : ℕ) → IsValid kb → view (keyboard_irq_handler kb c) ≡ typed (view kb) c
unfolding keyboard_irq_handler
view-irq kb c v = elim (Bool-cases ((decoded kb.modifiers c).1 == 0)) [
  | inl y ↦ ap view (if_true _ _ _ y) ∙ ap (made c) (sym (if_true _ _ _ y))
  | inr n ↦
      let ch = (decoded kb.modifiers c).1 in
      ap view (if_false _ _ _ n)
      ∙ ap₂ (λ q m. typed_of q m) (waiting-stored (shifted kb c) ch v)
          (stored-modifiers (shifted kb c) ch)
      ∙ ap (made c) (sym (if_false _ _ _ n))
]
  where
    typed_of : List ℕ → Modifiers → Typed
    typed_of q m = record { queue = q; modifiers = m }

    made : ℕ → List ℕ → Typed
    made c q = record { queue = q; modifiers = (decoded kb.modifiers c).0 }

abbrev after_read : Keyboard → Keyboard
after_read kb = record kb { head = (kb.head + 1) % buffer_size }

-- Reading, from whether characters wait.
getchar_none : (kb : Keyboard) → (kb.head == kb.tail) ≡ true → keyboard_getchar kb ≡ none
unfolding keyboard_getchar keyboard_has_input
getchar_none kb e = if_false _ _ _ (ap not e)

getchar_some :
    (kb : Keyboard)
    → (kb.head == kb.tail) ≡ false
    → keyboard_getchar kb ≡ some (after_read kb, get_or kb.buffer kb.head 0)
unfolding keyboard_getchar keyboard_has_input
getchar_some kb e = if_true _ _ _ (ap not e)

run_none :
    (kb : Keyboard) (es : List Event)
    → (kb.head == kb.tail) ≡ true
    → keyboard_run kb (read ∷ es) ≡ none ∷ keyboard_run kb es
unfolding keyboard_run
run_none kb es e = rw (getchar_none kb e, keyboard_run) refl

run_some :
    (kb : Keyboard) (es : List Event)
    → (kb.head == kb.tail) ≡ false
    → keyboard_run kb (read ∷ es)
      ≡ some (get_or kb.buffer kb.head 0) ∷ keyboard_run (after_read kb) es
unfolding keyboard_run
run_some kb es e = rw (getchar_some kb e, keyboard_run) refl

queue_none :
    (t : Typed) (es : List Event) → t.queue ≡ [] → queue_run t (read ∷ es) ≡ none ∷ queue_run t es
unfolding queue_run
queue_none t es e =
    ap
      (λ (q : List ℕ). elim q [
        | [] ↦ none ∷ queue_run t es
        | c ∷ q' ↦ some c ∷ queue_run (record t { queue = q' }) es
      ])
      e

queue_some :
    (t : Typed) (c : ℕ) (q : List ℕ) (es : List Event)
    → t.queue ≡ c ∷ q
    → queue_run t (read ∷ es) ≡ some c ∷ queue_run (record t { queue = q }) es
unfolding queue_run
queue_some t c q es e =
    ap
      (λ (q : List ℕ). elim q [
        | [] ↦ none ∷ queue_run t es
        | c ∷ q' ↦ some c ∷ queue_run (record t { queue = q' }) es
      ])
      e

waiting-read :
    (kb : Keyboard)
    → IsValid kb
    → (kb.head == kb.tail) ≡ false
    → waiting kb ≡ get_or kb.buffer kb.head 0 ∷ waiting (after_read kb)
waiting-read kb v n =
    let some_wait : used kb ≢ 0 = λ e. absurd (ground (arith, e, n, v.1, v.2)) in
    let here : kb.head % buffer_size ≡ kb.head = omega (arith, v.1) in
    let fewer : used (after_read kb) ≡ used kb - 1 = ground (arith, n, v.1, v.2) in
    let again : (kb.head + 1) % buffer_size ≡ (kb.head + 1) % buffer_size % buffer_size =
      omega arith in
    window_ne_zero buffer_size 0 kb.buffer kb.head (used kb) some_wait
    ∙ ap₂ (λ h q. get_or kb.buffer h 0 ∷ q) here
        (window_mod buffer_size 0 kb.buffer (kb.head + 1) ((kb.head + 1) % buffer_size)
            (used kb - 1) again
          ∙ ap (window buffer_size 0 kb.buffer ((kb.head + 1) % buffer_size)) (sym fewer))

run-view :
    (kb : Keyboard) (es : List Event) → IsValid kb → keyboard_run kb es ≡ queue_run (view kb) es
unfolding keyboard_run queue_run window
run-view kb [] v = refl
run-view kb (code c ∷ es) v =
    run-view (keyboard_irq_handler kb c) es (irq-IsValid kb c v)
    ∙ ap (λ t. queue_run t es) (view-irq kb c v)
run-view kb (read ∷ es) v = elim (Bool-cases (kb.head == kb.tail)) [
  | inl empty ↦
      let nothing : used kb ≡ 0 = ground (arith, empty, v.1, v.2) in
      run_none kb es empty
      ∙ ap (◌∷◌ none) (run-view kb es v)
      ∙ sym (queue_none (view kb) es (ap (window buffer_size 0 kb.buffer kb.head) nothing))
  | inr n ↦
      run_some kb es n
      ∙ ap (◌∷◌ (some (get_or kb.buffer kb.head 0)))
          (run-view (after_read kb) es (v.0, omega arith, v.2))
      ∙ sym (queue_some (view kb) _ (waiting (after_read kb)) es (waiting-read kb v n))
]

-- After keyboard_init, the characters that any sequence of scan codes and reads gives are those of a
-- queue of at most 255 characters, first in first out, which drops what does not fit; a read of the
-- empty queue waits.
pub keyboard_run-keyboard_init :
    (es : List Event)
    → keyboard_run keyboard_init es ≡ queue_run (record { queue = []; modifiers = no_modifiers }) es
unfolding keyboard_init window
keyboard_run-keyboard_init es =
    run-view keyboard_init es (length-replicate {A = ℕ} buffer_size 0, omega arith, omega arith)
