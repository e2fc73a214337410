-- ===== src/Blockedit/Moves.antt =====
-- Deleting and moving in texteditor/blockedit.c, and any sequence of keys and moves.
use blockos.Prelude.{
  if_true, if_false, ℕ, ◌+◌, ◌-◌, ◌≤◌, ◌≡◌, ◌≢◌, ap, sym, ◌∙◌, inl, inr, false, not, ◌&&◌, List, [],
  ◌∷◌, ◌++◌, Option, some, arith, if◌then◌else◌, ◌==◌, ltb, leb, min, length, take, drop, set,
  get_or, Bool-cases, subst, length-append, length-take, length-drop, length-replicate,
  get_or-set_self,
}
use blockos.Slots.Laws.{All-replicate}
use blockos.Blockedit.{
  Editor, max_lines, max_len, line_at, edit_init, shift_up, and_then, delete_byte, join_line,
  edit_delete_char, edit_move_cursor, edit_handle_key, moved,
}
use blockos.Blockedit.Valid.{
  IsShort, IsValid, IsSafe, IsText, All-get_or, set-IsText, shift_up-IsText, shift_up-before,
  in_line, edit_insert_char-IsSafe, and_then-IsSafe,
}

delete_byte-IsValid :
    (ed : Editor)
    → IsValid ed
    → (ed.cursor_col == 0) ≡ false
    → IsValid (delete_byte ed (line_at ed ed.cursor_line))
unfolding delete_byte
delete_byte-IsValid ed v nonzero =
    let line : List ℕ = line_at ed ed.cursor_line in
    let new : List ℕ = take (ed.cursor_col - 1) line ++ drop ed.cursor_col line in
    let old : IsShort line = All-get_or ed.lines ed.cursor_line v.short in
    let long : length new ≡ length line - 1 =
      length-append (take (ed.cursor_col - 1) line) (drop ed.cursor_col line)
      ∙ ground
          (arith, length-take (ed.cursor_col - 1) line, length-drop ed.cursor_col line, v.col) in
    let text : IsText (set ed.lines ed.cursor_line new) =
      set-IsText ed.lines ed.cursor_line new (v.size, v.short) (omega (arith, long, old)) in
    let here : get_or (set ed.lines ed.cursor_line new) ed.cursor_line [] ≡ new =
      get_or-set_self ed.lines ed.cursor_line new [] (omega (arith, v.size, v.row, v.room)) in
    record {
      size = text.0;
      room = v.room;
      row = v.row;
      col = rw here (omega (arith, long, v.col));
      short = text.1;
    }

join_line-IsValid :
    (ed : Editor)
    → IsValid ed
    → (ed.cursor_line == 0) ≡ false
    → IsValid (join_line ed (line_at ed ed.cursor_line))
unfolding join_line
join_line-IsValid ed v nonzero =
    let line : List ℕ = line_at ed ed.cursor_line in
    let at : ℕ = ed.cursor_line in
    let prev : List ℕ = line_at ed (at - 1) in
    let new : List ℕ = prev ++ take (max_len - length prev) line in
    let old : IsShort prev = All-get_or ed.lines (at - 1) v.short in
    let long : length new ≡ length prev + min (max_len - length prev) (length line) =
      length-append prev (take (max_len - length prev) line)
      ∙ omega (arith, length-take (max_len - length prev) line) in
    let base : List (List ℕ) = set ed.lines (at - 1) new in
    let t0 : IsText base =
      set-IsText ed.lines (at - 1) new (v.size, v.short) (omega (arith, long, old)) in
    let t1 : IsText (shift_up (ed.line_count - 1 - at) at base) =
      shift_up-IsText (ed.line_count - 1 - at) at base t0 in
    let positive : at ≢ 0 = ground arith in
    let kept : get_or (shift_up (ed.line_count - 1 - at) at base) (at - 1) [] ≡ new =
      shift_up-before (ed.line_count - 1 - at) at (at - 1) base (omega (arith, positive))
      ∙ get_or-set_self ed.lines (at - 1) new [] (omega (arith, v.size, v.row, v.room)) in
    record {
      size = t1.0;
      room = omega (arith, v.room);
      row = omega (arith, v.row, positive);
      col = rw kept (omega (arith, long));
      short = t1.1;
    }

edit_delete_char-IsSafe : (ed : Editor) → IsValid ed → IsSafe (edit_delete_char ed)
unfolding edit_delete_char
edit_delete_char-IsSafe ed v =
    subst IsSafe (sym (if_false _ _ _ (in_line ed v))) (elim (Bool-cases (ed.cursor_col == 0)) [
      | inr inside ↦
          subst IsValid (sym (if_true _ _ _ (ap not inside))) (delete_byte-IsValid ed v inside)
      | inl start ↦ elim (Bool-cases (ed.cursor_line == 0)) [
        | inr below ↦
            subst IsValid (sym (if_false _ _ _ (ap not start) ∙ if_true _ _ _ (ap not below)))
              (join_line-IsValid ed v below)
        | inl top ↦
            subst IsValid (sym (if_false _ _ _ (ap not start) ∙ if_false _ _ _ (ap not top)))
              (record { size = v.size; room = v.room; row = v.row; col = v.col; short = v.short })
      ]
    ])

edit_move_cursor-IsValid :
    (ed : Editor) (dl dc : ℕ) → IsValid ed → IsValid (edit_move_cursor ed dl dc)
unfolding edit_move_cursor
edit_move_cursor-IsValid ed dl dc v = record {
  size = v.size;
  room = v.room;
  row = ground (arith, v.row);
  col = within (moved ed.cursor_col dc) _;
  short = v.short;
}
  where
    within : (col ll : ℕ) → (if ltb ll col then ll else col) ≤ ll
    within col ll = ground arith

edit_handle_key-IsSafe : (ed : Editor) (key : ℕ) → IsValid ed → IsSafe (edit_handle_key ed key)
unfolding edit_handle_key
edit_handle_key-IsSafe ed key v = elim (Bool-cases (key == 8)) [
  | inl back ↦ subst IsSafe (sym (if_true _ _ _ back)) (edit_delete_char-IsSafe ed v)
  | inr other ↦ elim (Bool-cases (key == 10)) [
    | inl newline ↦
        subst IsSafe (sym (if_false _ _ _ other ∙ if_true _ _ _ newline))
          (edit_insert_char-IsSafe ed 10 (omega arith) v)
    | inr more ↦ elim (Bool-cases (leb 32 key && ltb key 128)) [
      | inl plain ↦
          subst IsSafe (sym (if_false _ _ _ other ∙ if_false _ _ _ more ∙ if_true _ _ _ plain))
            (edit_insert_char-IsSafe ed key (ground (arith, plain)) v)
      | inr ignored ↦
          subst IsSafe (sym (if_false _ _ _ other ∙ if_false _ _ _ more ∙ if_false _ _ _ ignored)) v
    ]
  ]
]

-- What the user does: a key, or a move by two ints, as their bit patterns.
pub data Action : Type 0 where
  types : ℕ → Action
  moves : ℕ → ℕ → Action

unfoldable pub run : Editor → List Action → Option Editor
run ed [] = some ed
run ed (types key ∷ acts) = and_then (edit_handle_key ed key) (λ ed'. run ed' acts)
run ed (moves dl dc ∷ acts) = run (edit_move_cursor ed dl dc) acts

run-IsSafe : (acts : List Action) (ed : Editor) → IsValid ed → IsSafe (run ed acts)
unfolding run
run-IsSafe [] ed v = v
run-IsSafe (types key ∷ acts) ed v =
    and_then-IsSafe (edit_handle_key ed key) (λ ed'. run ed' acts) (edit_handle_key-IsSafe ed key v)
      (run-IsSafe acts)
run-IsSafe (moves dl dc ∷ acts) ed v =
    run-IsSafe acts (edit_move_cursor ed dl dc) (edit_move_cursor-IsValid ed dl dc v)

pub edit_init-IsValid : IsValid edit_init
unfolding edit_init
edit_init-IsValid = record {
  size = length-replicate {A = List ℕ} max_lines [];
  room = omega arith;
  row = omega arith;
  col = omega arith;
  short = All-replicate IsShort max_lines [] (omega arith);
}

-- From `edit_init` on, whatever keys are typed and by whatever ints the cursor is moved, where the
-- sum of two ints wraps, no call leaves the bounds of a line, the cursor stays in the text, and no
-- line gets longer than 1023 bytes.
pub run-edit_init-IsSafe : (acts : List Action) → IsSafe (run edit_init acts)
run-edit_init-IsSafe acts = run-IsSafe acts edit_init edit_init-IsValid
