-- ===== src/Blockedit/Undo.antt =====
-- A byte typed and deleted again, in texteditor/blockedit.c.
use blockos.Prelude.{
  if_true, if_false, ℕ, zero, suc, ◌+◌, ◌-◌, ◌≤◌, ◌<◌, ◌≡◌, ◌≢◌, refl, ap, ◌∙◌, true, false, not,
  List, [], ◌∷◌, ◌++◌, some, arith, ◌==◌, ltb, leb, length, take, drop, set, get_or,
  get_or-set_self, take-append_take,
}
use mathlib.Core.Path.{ap₂}
use blockos.Blockedit.{
  Editor, max_len, line_at, and_then, edit_insert_char, insert_plain, insert_byte, delete_byte,
  edit_delete_char,
}
use blockos.Blockedit.Valid.{IsValid, in_line, length-insert, from_byte_text}

module _ {ℓ} {A : Type ℓ} where
  drop-insert :
      (n : ℕ) (xs ys : List A) (c : A) → n ≤ length xs → drop (suc n) (take n xs ++ c ∷ ys) ≡ ys
  drop-insert zero xs ys c h = refl
  drop-insert (suc n) [] ys c h = elim h [ ]
  drop-insert (suc n) (x ∷ xs) ys c h = drop-insert n xs ys c (omega (arith, h))

  take-drop : (n : ℕ) (xs : List A) → take n xs ++ drop n xs ≡ xs
  take-drop zero xs = refl
  take-drop (suc n) [] = refl
  take-drop (suc n) (x ∷ xs) = ap (◌∷◌ x) (take-drop n xs)

  set-set : (xs : List A) (i : ℕ) (a b : A) → set (set xs i a) i b ≡ set xs i b
  set-set [] i a b = refl
  set-set (x ∷ xs) zero a b = refl
  set-set (x ∷ xs) (suc i) a b = ap (◌∷◌ x) (set-set xs i a b)

  set-get_or : (xs : List A) (i : ℕ) (d : A) → set xs i (get_or xs i d) ≡ xs
  set-get_or [] i d = refl
  set-get_or (x ∷ xs) zero d = refl
  set-get_or (x ∷ xs) (suc i) d = ap (◌∷◌ x) (set-get_or xs i d)

module _ (ed : Editor) (c : ℕ) (v : IsValid ed)
    (room : length (line_at ed ed.cursor_line) < max_len) where
  abbrev line : List ℕ
  line = line_at ed ed.cursor_line

  abbrev new : List ℕ
  new = take ed.cursor_col line ++ c ∷ drop ed.cursor_col line

  abbrev typed : Editor
  typed = record ed {
    lines = set ed.lines ed.cursor_line new;
    cursor_col = ed.cursor_col + 1;
    modified = true;
  }

  here : line_at typed ed.cursor_line ≡ new
  here = get_or-set_self ed.lines ed.cursor_line new [] (omega (arith, v.size, v.row, v.room))

  insert_typed : c ≢ 0 → c ≢ 10 → c ≢ 9 → edit_insert_char ed c ≡ some typed
  unfolding edit_insert_char insert_plain insert_byte
  insert_typed text_byte not_newline not_tab =
      let newline : (c == 10) ≡ false = ground arith in
      let tab : (c == 9) ≡ false = ground arith in
      let fits : leb max_len (length line) ≡ false = ground arith in
      if_false _ _ _ newline
      ∙ if_false _ _ _ tab
      ∙ if_false _ _ _ (in_line ed v)
      ∙ ap some (
          if_false _ _ _ fits
          ∙ ap
              (λ l. record ed {
                lines = set ed.lines ed.cursor_line (take ed.cursor_col line ++ l);
                cursor_col = ed.cursor_col + 1;
                modified = true;
              })
              (from_byte_text c (drop ed.cursor_col line) text_byte))

  shortened : take (ed.cursor_col + 1 - 1) new ++ drop (ed.cursor_col + 1) new ≡ line
  shortened =
      let next : ed.cursor_col + 1 ≡ suc ed.cursor_col = omega arith in
      ap₂ ◌++◌
        (ap (λ n. take n new) (omega arith)
          ∙ take-append_take ed.cursor_col line (c ∷ drop ed.cursor_col line) v.col)
        (ap (λ n. drop n new) next
          ∙ drop-insert ed.cursor_col line (drop ed.cursor_col line) c v.col)
      ∙ take-drop ed.cursor_col line

  restored :
      set (set ed.lines ed.cursor_line new) ed.cursor_line (
        take (ed.cursor_col + 1 - 1) (line_at typed ed.cursor_line)
        ++ drop (ed.cursor_col + 1) (line_at typed ed.cursor_line))
      ≡ ed.lines
  restored =
      ap
        (λ l.
          set (set ed.lines ed.cursor_line new) ed.cursor_line
            (take (ed.cursor_col + 1 - 1) l ++ drop (ed.cursor_col + 1) l))
        here
      ∙ ap (set (set ed.lines ed.cursor_line new) ed.cursor_line) shortened
      ∙ set-set ed.lines ed.cursor_line new line
      ∙ set-get_or ed.lines ed.cursor_line []

  delete_typed : edit_delete_char typed ≡ some (record ed { modified = true })
  unfolding edit_delete_char delete_byte
  delete_typed =
      let long : length (line_at typed ed.cursor_line) ≡ suc (length line) =
        ap length here ∙ length-insert ed.cursor_col c line v.col in
      let inside : ltb (length (line_at typed ed.cursor_line)) (ed.cursor_col + 1) ≡ false =
        ground (arith, long, v.col) in
      let nonzero : not (ed.cursor_col + 1 == 0) ≡ true = ground arith in
      if_false _ _ _ inside
      ∙ ap some (
          if_true _ _ _ nonzero
          ∙ ap₂ (λ lines col. record ed { lines = lines; cursor_col = col; modified = true })
              restored (omega arith))

  -- In a valid editor whose line at the cursor is not full, typing a byte other than NUL,
  -- newline and tab and deleting it gives back the same text and cursor, marked as modified.
  pub edit_delete_char-edit_insert_char :
      c ≢ 0
      → c ≢ 10
      → c ≢ 9
      → and_then (edit_insert_char ed c) edit_delete_char ≡ some (record ed { modified = true })
  edit_delete_char-edit_insert_char text_byte not_newline not_tab =
      ap (λ o. and_then o edit_delete_char) (insert_typed text_byte not_newline not_tab)
      ∙ delete_typed
