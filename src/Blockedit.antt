-- ===== src/Blockedit.antt =====
-- texteditor/blockedit.c and texteditor/blockedit.h: the editor's lines and cursor. A line is the
-- list of its bytes before the NUL. The arguments of `edit_move_cursor` are ints as their bit
-- patterns, and its sums wrap as two's complement does. Drawing and the window are left out.
pub mod Valid
pub mod Moves
pub mod Undo
pub mod Tests
use blockos.Prelude.{
  ℕ, zero, suc, ◌+◌, ◌-◌, Bool, true, false, not, ◌&&◌, ◌||◌, List, [], ◌∷◌, ◌++◌, Option, none,
  some, ℤ, pos, negsuc, minus_one, if◌then◌else◌, ◌==◌, ltb, leb, min, length, take, drop, set,
  get_or, replicate, bytes_of,
}
use blockos.Word.{add, negative}
use blockos.Strings.{strcmp, strncpy, strrchr, is_zero}

-- EDIT_MAX_LINES, and EDIT_MAX_LINE_LEN less the NUL
abbrev pub max_lines : ℕ
max_lines = 4096

abbrev pub max_len : ℕ
max_len = 1023

-- SYNTAX_NONE, SYNTAX_C, SYNTAX_ASM
abbrev pub syntax_none : ℕ
syntax_none = 0

abbrev pub syntax_c : ℕ
syntax_c = 1

abbrev pub syntax_asm : ℕ
syntax_asm = 2

-- `g_ed`
pub record Editor : Type 0 where
  pub lines : List (List ℕ)
  pub line_count : ℕ
  pub cursor_line : ℕ
  pub cursor_col : ℕ
  pub scroll_line : ℕ
  pub filename : List ℕ
  pub modified : Bool
  pub syntax : ℕ

unfoldable pub edit_init : Editor
edit_init = record {
  lines = replicate max_lines [];
  line_count = 1;
  cursor_line = 0;
  cursor_col = 0;
  scroll_line = 0;
  filename = [];
  modified = false;
  syntax = syntax_none;
}

-- The syntax by what follows the last dot, the dot included; otherwise it stays.
unfoldable pub syntax_of : Option (List ℕ) → ℕ → ℕ
syntax_of none syntax = syntax
syntax_of (some []) syntax = syntax
syntax_of (some (dot ∷ ext)) syntax =
    if is_zero (strcmp ext (bytes_of "c")) || is_zero (strcmp ext (bytes_of "h"))
    then syntax_c
    else if is_zero (strcmp ext (bytes_of "asm"))
    then syntax_asm
    else syntax

-- It reads nothing, and leaves lines and cursor.
unfoldable pub edit_open : Editor → List ℕ → Editor
unfolding syntax_of
edit_open ed path = record ed {
  filename = strncpy path 255;
  syntax = syntax_of (strrchr path b'.') ed.syntax;
  line_count = 1;
  modified = false;
}

unfoldable pub edit_save : Editor → Editor × Bool
edit_save ed =
    if length ed.filename == 0 then (ed, false) else (record ed { modified = false }, true)

unfoldable pub edit_save_as : Editor → List ℕ → Editor × Bool
unfolding edit_save
edit_save_as ed path = edit_save (record ed { filename = strncpy path 255 })

-- The line at `i`.
abbrev pub line_at : Editor → ℕ → List ℕ
line_at ed i = get_or ed.lines i []

-- for (; i > ...; i--) lines[i] = lines[i-1], and for (; i < ...; i++) lines[i] = lines[i+1]; the
-- first argument is the number of rounds.
unfoldable pub shift_down : ℕ → ℕ → List (List ℕ) → List (List ℕ)
shift_down zero i lines = lines
shift_down (suc rounds) i lines = shift_down rounds (i - 1) (set lines i (get_or lines (i - 1) []))

unfoldable pub shift_up : ℕ → ℕ → List (List ℕ) → List (List ℕ)
shift_up zero i lines = lines
shift_up (suc rounds) i lines = shift_up rounds (i + 1) (set lines i (get_or lines (i + 1) []))

unfoldable pub split_line : Editor → List ℕ → Editor
unfolding shift_down
split_line ed line =
    if leb max_lines ed.line_count
    then ed
    else let at = ed.cursor_line in
      let col = ed.cursor_col in
      record ed {
        lines =
            set
              (set (shift_down (ed.line_count - (at + 1)) ed.line_count ed.lines) (at + 1)
                (drop col line))
              at (take col line);
        line_count = ed.line_count + 1;
        cursor_line = at + 1;
        cursor_col = 0;
        modified = true;
      }

-- The byte at the cursor and what is behind it: a NUL ends the line there.
unfoldable pub from_byte : ℕ → List ℕ → List ℕ
from_byte c rest = if c == 0 then [] else c ∷ rest

unfoldable pub insert_byte : Editor → List ℕ → ℕ → Editor
unfolding from_byte
insert_byte ed line c = if leb max_len (length line) then ed else record ed {
  lines =
      set ed.lines ed.cursor_line
        (take ed.cursor_col line ++ from_byte c (drop ed.cursor_col line));
  cursor_col = ed.cursor_col + 1;
  modified = true;
}

-- Neither newline nor tab. `none`: the cursor is behind the end of its line, where the code moves no
-- byte or a negative number of them and writes behind the NUL; what it does from there is left out.
unfoldable pub insert_plain : Editor → ℕ → Option Editor
unfolding insert_byte
insert_plain ed c =
    let line = line_at ed ed.cursor_line in
    if ltb (length line) ed.cursor_col then none else some (insert_byte ed line c)

abbrev pub and_then : Option Editor → (Editor → Option Editor) → Option Editor
and_then none f = none
and_then (some ed) f = f ed

unfoldable pub insert_spaces : ℕ → Editor → Option Editor
unfolding insert_plain
insert_spaces zero ed = some ed
insert_spaces (suc n) ed = and_then (insert_plain ed b' ') (insert_spaces n)

unfoldable pub edit_insert_char : Editor → ℕ → Option Editor
unfolding split_line insert_spaces insert_plain
edit_insert_char ed c =
    let line = line_at ed ed.cursor_line in
    if c == 10
    then (if ltb (length line) ed.cursor_col then none else some (split_line ed line))
    else if c == 9
    then insert_spaces 4 ed
    else insert_plain ed c

unfoldable pub delete_byte : Editor → List ℕ → Editor
delete_byte ed line = record ed {
  lines = set ed.lines ed.cursor_line (take (ed.cursor_col - 1) line ++ drop ed.cursor_col line);
  cursor_col = ed.cursor_col - 1;
  modified = true;
}

-- strncat(prev, line, EDIT_MAX_LINE_LEN - pl - 1)
unfoldable pub join_line : Editor → List ℕ → Editor
unfolding shift_up
join_line ed line =
    let at = ed.cursor_line in
    let prev = line_at ed (at - 1) in
    record ed {
      lines =
          shift_up (ed.line_count - 1 - at) at
            (set ed.lines (at - 1) (prev ++ take (max_len - length prev) line));
      line_count = ed.line_count - 1;
      cursor_line = at - 1;
      cursor_col = length prev;
      modified = true;
    }

-- `none` as in `insert_plain`.
unfoldable pub edit_delete_char : Editor → Option Editor
unfolding delete_byte join_line
edit_delete_char ed =
    let line = line_at ed ed.cursor_line in
    if ltb (length line) ed.cursor_col
    then none
    else some (
        if not (ed.cursor_col == 0)
        then delete_byte ed line
        else if not (ed.cursor_line == 0)
        then join_line ed line
        else record ed { modified = true })

-- The sum of two ints, which wraps, and 0 where it is negative: the code makes it 0 after the sum.
abbrev pub moved : ℕ → ℕ → ℕ
moved n d = if negative (add n d) then 0 else add n d

-- The last line where the sum is behind it; there is always a line.
unfoldable pub edit_move_cursor : Editor → ℕ → ℕ → Editor
edit_move_cursor ed dl dc =
    let sum = moved ed.cursor_line dl in
    let line = if leb ed.line_count sum then ed.line_count - 1 else sum in
    let col = moved ed.cursor_col dc in
    let ll = length (line_at ed line) in
    let scroll = if ltb line ed.scroll_line then line else ed.scroll_line in
    record ed {
      cursor_line = line;
      cursor_col = if ltb ll col then ll else col;
      scroll_line = if leb (scroll + 30) line then line - 29 else scroll;
    }

-- A `char` of 128 and more is negative.
unfoldable pub edit_handle_key : Editor → ℕ → Option Editor
unfolding edit_insert_char edit_delete_char
edit_handle_key ed key =
    if key == 8
    then edit_delete_char ed
    else if key == 10
    then edit_insert_char ed 10
    else if leb 32 key && ltb key 128
    then edit_insert_char ed key
    else some ed

-- `strstr(line, text)` is not null: the function is declared nowhere in the repository.
module _ (strstr : List ℕ → List ℕ → Bool) where
  find_from : ℕ → ℕ → List (List ℕ) → List ℕ → Option ℕ
  find_from zero i lines text = none
  find_from (suc rounds) i lines text =
      let rest = find_from rounds (i + 1) lines text in
      if strstr (get_or lines i []) text then some i else rest

  found_at : Editor → Option ℕ → Editor × ℤ
  found_at ed none = (ed, minus_one)
  found_at ed (some i) = (record ed { cursor_line = i }, pos i)

  -- It moves the cursor to another line and keeps its column.
  unfoldable pub edit_find : Editor → List ℕ → ℕ → Editor × ℤ
  unfolding find_from found_at
  edit_find ed text start = found_at ed (find_from (ed.line_count - start) start ed.lines text)

  count_from : ℕ → ℕ → List (List ℕ) → List ℕ → ℕ
  count_from zero i lines text = 0
  count_from (suc rounds) i lines text =
      (if strstr (get_or lines i []) text then 1 else 0) + count_from rounds (i + 1) lines text

  -- It counts the lines and replaces nothing.
  unfoldable pub edit_replace : Editor → List ℕ → List ℕ → ℕ
  unfolding count_from
  edit_replace ed find replace = count_from ed.line_count 0 ed.lines find
