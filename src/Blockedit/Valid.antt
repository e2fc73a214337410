-- ===== src/Blockedit/Valid.antt =====
-- The cursor of texteditor/blockedit.c stays inside the text, whatever is typed and however it is
-- moved.
use blockos.Prelude.{
  if_true, if_false, ℕ, zero, suc, ◌+◌, ◌-◌, ◌≤◌, ◌<◌, ◌≡◌, ◌≢◌, refl, ap, sym, ◌∙◌, inl, inr,
  false, List, [], ◌∷◌, ◌++◌, Option, none, some, arith, ◌==◌, ltb, leb, length, take, drop, set,
  get_or, Bool-cases, subst, length-append, length-take, length-drop, length-set, get_or-set_self,
  get_or-set_ne,
}
use blockos.Slots.Laws.{All, All-set}
use blockos.Blockedit.{
  Editor, max_lines, max_len, line_at, shift_down, shift_up, split_line, insert_byte, insert_plain,
  insert_spaces, and_then, edit_insert_char, from_byte,
}

abbrev pub IsShort : List ℕ → Type 0
IsShort line = length line ≤ max_len

-- There is a line, the cursor stands in one of them and not behind its end, and every line fits.
pub record IsValid (ed : Editor) : Type 0 where
  pub size : length ed.lines ≡ max_lines
  pub room : ed.line_count ≤ max_lines
  pub row : ed.cursor_line < ed.line_count
  pub col : ed.cursor_col ≤ length (line_at ed ed.cursor_line)
  pub short : All IsShort ed.lines

pub All-get_or : (lines : List (List ℕ)) (i : ℕ) → All IsShort lines → IsShort (get_or lines i [])
All-get_or [] i a = omega arith
All-get_or (l ∷ lines) zero a = a.0
All-get_or (l ∷ lines) (suc i) a = All-get_or lines i a.1

-- The lines are still as many, and each fits.
abbrev pub IsText : List (List ℕ) → Type 0
IsText lines = (length lines ≡ max_lines) × All IsShort lines

pub set-IsText :
    (lines : List (List ℕ)) (i : ℕ) (l : List ℕ) → IsText lines → IsShort l → IsText (set lines i l)
set-IsText lines i l (n, a) s = (length-set lines i l ∙ n, All-set IsShort lines i l a s)

shift_down-IsText :
    (rounds i : ℕ) (lines : List (List ℕ)) → IsText lines → IsText (shift_down rounds i lines)
unfolding shift_down
shift_down-IsText zero i lines t = t
shift_down-IsText (suc rounds) i lines t =
    shift_down-IsText rounds (i - 1) (set lines i (get_or lines (i - 1) []))
      (set-IsText lines i (get_or lines (i - 1) []) t (All-get_or lines (i - 1) t.1))

pub shift_up-IsText :
    (rounds i : ℕ) (lines : List (List ℕ)) → IsText lines → IsText (shift_up rounds i lines)
unfolding shift_up
shift_up-IsText zero i lines t = t
shift_up-IsText (suc rounds) i lines t =
    shift_up-IsText rounds (i + 1) (set lines i (get_or lines (i + 1) []))
      (set-IsText lines i (get_or lines (i + 1) []) t (All-get_or lines (i + 1) t.1))

-- `join_line` shifts only lines from the cursor on.
pub shift_up-before :
    (rounds i j : ℕ) (lines : List (List ℕ))
    → j < i
    → get_or (shift_up rounds i lines) j [] ≡ get_or lines j []
unfolding shift_up
shift_up-before zero i j lines h = refl
shift_up-before (suc rounds) i j lines h =
    shift_up-before rounds (i + 1) j (set lines i (get_or lines (i + 1) [])) (omega (arith, h))
    ∙ get_or-set_ne lines i j (get_or lines (i + 1) []) [] (omega (arith, h))

pub length-insert :
    (n c : ℕ) (line : List ℕ)
    → n ≤ length line
    → length (take n line ++ c ∷ drop n line) ≡ suc (length line)
length-insert n c line h =
    length-append (take n line) (c ∷ drop n line)
    ∙ omega (arith, length-take n line, length-drop n line)

pub from_byte_text : (c : ℕ) (rest : List ℕ) → c ≢ 0 → from_byte c rest ≡ c ∷ rest
unfolding from_byte
from_byte_text c rest h = ground (arith, h)

insert_byte-IsValid :
    (ed : Editor) (c : ℕ)
    → c ≢ 0
    → IsValid ed
    → IsValid (insert_byte ed (line_at ed ed.cursor_line) c)
unfolding insert_byte
insert_byte-IsValid ed c text_byte v =
    let line : List ℕ = line_at ed ed.cursor_line in
    elim (Bool-cases (leb max_len (length line))) [
      | inl full ↦ subst IsValid (sym (if_true _ _ _ full)) v
      | inr space ↦
          let new : List ℕ = take ed.cursor_col line ++ from_byte c (drop ed.cursor_col line) in
          let long : length new ≡ suc (length line) =
            ap (λ l. length (take ed.cursor_col line ++ l))
              (from_byte_text c (drop ed.cursor_col line) text_byte)
            ∙ length-insert ed.cursor_col c line v.col in
          let fits : IsShort new = ground (arith, long) in
          let text : IsText (set ed.lines ed.cursor_line new) =
            set-IsText ed.lines ed.cursor_line new (v.size, v.short) fits in
          let here : get_or (set ed.lines ed.cursor_line new) ed.cursor_line [] ≡ new =
            get_or-set_self ed.lines ed.cursor_line new [] (omega (arith, v.size, v.row, v.room)) in
          subst IsValid (sym (if_false _ _ _ space)) (record {
            size = text.0;
            room = v.room;
            row = v.row;
            col = rw here (omega (arith, long, v.col));
            short = text.1;
          })
    ]

split_line-IsValid :
    (ed : Editor) → IsValid ed → IsValid (split_line ed (line_at ed ed.cursor_line))
unfolding split_line
split_line-IsValid ed v =
    let line : List ℕ = line_at ed ed.cursor_line in
    let at : ℕ = ed.cursor_line in
    let fits : IsShort line = All-get_or ed.lines at v.short in
    elim (Bool-cases (leb max_lines ed.line_count)) [
      | inl full ↦ subst IsValid (sym (if_true _ _ _ full)) v
      | inr space ↦
          let shifted : List (List ℕ) =
            shift_down (ed.line_count - (at + 1)) ed.line_count ed.lines in
          let t0 : IsText shifted =
            shift_down-IsText (ed.line_count - (at + 1)) ed.line_count ed.lines (v.size, v.short) in
          let tail : IsShort (drop ed.cursor_col line) =
            omega (arith, fits, length-drop ed.cursor_col line) in
          let front : IsShort (take ed.cursor_col line) =
            omega (arith, fits, length-take ed.cursor_col line) in
          let t1 = set-IsText shifted (at + 1) (drop ed.cursor_col line) t0 tail in
          let t2 = set-IsText _ at (take ed.cursor_col line) t1 front in
          subst IsValid (sym (if_false _ _ _ space)) (record {
            size = t2.0;
            room = ground (arith, v.row);
            row = omega (arith, v.row);
            col = omega arith;
            short = t2.1;
          })
    ]

-- A call that stays in bounds and keeps the editor valid.
abbrev pub IsSafe : Option Editor → Type 0
IsSafe none = ⊥
IsSafe (some ed) = IsValid ed

pub in_line :
    (ed : Editor) → IsValid ed → ltb (length (line_at ed ed.cursor_line)) ed.cursor_col ≡ false
in_line ed v = ground (arith, v.col)

insert_plain-IsSafe : (ed : Editor) (c : ℕ) → c ≢ 0 → IsValid ed → IsSafe (insert_plain ed c)
unfolding insert_plain
insert_plain-IsSafe ed c h v =
    subst IsSafe (sym (if_false _ _ _ (in_line ed v))) (insert_byte-IsValid ed c h v)

pub and_then-IsSafe :
    (o : Option Editor) (f : Editor → Option Editor)
    → IsSafe o
    → ((ed : Editor) → IsValid ed → IsSafe (f ed))
    → IsSafe (and_then o f)
and_then-IsSafe none f s h = s
and_then-IsSafe (some ed) f s h = h ed s

insert_spaces-IsSafe : (n : ℕ) (ed : Editor) → IsValid ed → IsSafe (insert_spaces n ed)
unfolding insert_spaces
insert_spaces-IsSafe zero ed v = v
insert_spaces-IsSafe (suc n) ed v =
    and_then-IsSafe (insert_plain ed b' ') (insert_spaces n)
      (insert_plain-IsSafe ed b' ' (omega arith) v) (insert_spaces-IsSafe n)

pub edit_insert_char-IsSafe :
    (ed : Editor) (c : ℕ) → c ≢ 0 → IsValid ed → IsSafe (edit_insert_char ed c)
unfolding edit_insert_char
edit_insert_char-IsSafe ed c h v = elim (Bool-cases (c == 10)) [
  | inl newline ↦
      subst IsSafe (sym (if_true _ _ _ newline ∙ if_false _ _ _ (in_line ed v)))
        (split_line-IsValid ed v)
  | inr more ↦ elim (Bool-cases (c == 9)) [
    | inl tab ↦
        subst IsSafe (sym (if_false _ _ _ more ∙ if_true _ _ _ tab)) (insert_spaces-IsSafe 4 ed v)
    | inr plain ↦
        subst IsSafe (sym (if_false _ _ _ more ∙ if_false _ _ _ plain))
          (insert_plain-IsSafe ed c h v)
  ]
]
