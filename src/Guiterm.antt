-- ===== src/Guiterm.antt =====
-- terminal/guiterm.c and terminal/guiterm.h: cells, cursor, scrolling and the line that is typed. An
-- `int` is its bit pattern, as in Word. `input_buf` is the text before its NUL, so `input_len` is its
-- length. The window and drawing are left out. The commands of `shell_process_cmd` (Shell) have empty
-- bodies, so that it changes only the text that is cleared after it.
pub mod Bounds
pub mod Line
pub mod Tests
use Prim.Native.String.{String}
use blockos.Prelude.{
  ℕ, zero, suc, ◌+◌, ◌-◌, ◌*◌, ◌/◌, ◌%◌, ◌^◌, Bool, true, false, ◌&&◌, List, [], ◌∷◌, ◌++◌, Option,
  none, some, if◌then◌else◌, ◌==◌, ltb, leb, length, take, get_or, set, replicate, bytes_of,
}
use blockos.Strings.{strncpy}
use blockos.Word.{minus_one, add, sub, negative, less, at_most}

abbrev pub term_cols : ℕ
term_cols = 120

abbrev pub term_rows : ℕ
term_rows = 35

abbrev pub max_scroll : ℕ
max_scroll = 1000

abbrev pub term_history : ℕ
term_history = 256

abbrev pub term_bg : ℕ
term_bg = 856343

abbrev pub term_fg : ℕ
term_fg = 14737632

abbrev pub term_green : ℕ
term_green = 2278750

abbrev pub term_gray : ℕ
term_gray = 7041664

-- `term_cell_t`
pub record Cell : Type 0 where
  pub ch : ℕ
  pub fg : ℕ
  pub bg : ℕ
  pub bold : Bool
  pub underline : Bool

-- `guiterm_t`
pub record Guiterm : Type 0 where
  pub cells : List (List Cell)
  pub rows : ℕ
  pub cols : ℕ
  pub cursor_row : ℕ
  pub cursor_col : ℕ
  pub scroll_offset : ℕ
  pub total_rows : ℕ
  pub fg : ℕ
  pub bg : ℕ
  pub bold : Bool
  pub underline : Bool
  pub input_buf : List ℕ
  pub history : List (List ℕ)
  pub history_idx : ℕ
  pub cursor_visible : Bool

abbrev pub no_cell : Cell
no_cell = record { ch = 0; fg = 0; bg = 0; bold = false; underline = false }

-- memset(t->cells, 0, sizeof(t->cells))
abbrev pub no_cells : List (List Cell)
no_cells = replicate max_scroll (replicate term_cols no_cell)

unfoldable pub guiterm_newline : Guiterm → Guiterm
guiterm_newline t =
    let down = add t.cursor_row 1 in
    let row = if at_most max_scroll down then max_scroll - 1 else down in
    record t {
      cursor_col = 0;
      cursor_row = row;
      total_rows = if less t.total_rows row then row else t.total_rows;
      scroll_offset =
          if at_most (add t.scroll_offset t.rows) row
          then add (sub row t.rows) 1
          else t.scroll_offset;
    }

-- cell->ch = c and the attributes, at the cursor
unfoldable pub written : Guiterm → ℕ → Guiterm
written t c =
    let row = get_or t.cells t.cursor_row [] in
    let cell : Cell = record {
      ch = c;
      fg = t.fg;
      bg = t.bg;
      bold = t.bold;
      underline = t.underline;
    } in
    record t {
      cells = set t.cells t.cursor_row (set row t.cursor_col cell);
      cursor_col = add t.cursor_col 1;
    }

-- A character that is no control character.
unfoldable pub put_cell : Guiterm → ℕ → Guiterm
unfolding written guiterm_newline
put_cell t c =
    if less t.cursor_row max_scroll && less t.cursor_col term_cols
    then if at_most term_cols (written t c).cursor_col
      then guiterm_newline (written t c)
      else written t c
    else t

unfoldable pub guiterm_putchar : Guiterm → ℕ → Guiterm
unfolding put_cell
guiterm_putchar t c =
    if c == 10
    then guiterm_newline t
    else if c == 13
    then record t { cursor_col = 0 }
    else if c == 9
    then record t { cursor_col = add t.cursor_col 8 / 8 * 8 }
    else if c == 8
    then record t { cursor_col = if less 0 t.cursor_col then sub t.cursor_col 1 else t.cursor_col }
    else put_cell t c

unfoldable pub guiterm_print : Guiterm → List ℕ → Guiterm
unfolding guiterm_putchar
guiterm_print t [] = t
guiterm_print t (c ∷ s) = guiterm_print (guiterm_putchar t c) s

unfoldable pub guiterm_print_color : Guiterm → List ℕ → ℕ → Guiterm
unfolding guiterm_print
guiterm_print_color t s fg = record (guiterm_print (record t { fg = fg }) s) { fg = t.fg }

unfoldable pub guiterm_clear : Guiterm → Guiterm
guiterm_clear t = record t {
  cells = no_cells;
  cursor_row = 0;
  cursor_col = 0;
  total_rows = 0;
  scroll_offset = 0;
}

unfoldable pub guiterm_scroll : Guiterm → ℕ → Guiterm
guiterm_scroll t delta =
    let moved = add t.scroll_offset delta in
    let offset = if negative moved then 0 else moved in
    let left = sub t.total_rows t.rows in
    let most = if negative left then 0 else left in
    record t { scroll_offset = if less most offset then most else offset }

unfoldable pub prompt : Guiterm → Guiterm
unfolding guiterm_print_color
prompt t =
    guiterm_print (guiterm_print_color t (bytes_of "root@blockos") term_green) (bytes_of ":~$ ")

abbrev pub cleared : Guiterm
cleared = record {
  cells = no_cells;
  rows = term_rows;
  cols = term_cols;
  cursor_row = 0;
  cursor_col = 0;
  scroll_offset = 0;
  total_rows = 0;
  fg = term_fg;
  bg = term_bg;
  bold = false;
  underline = false;
  input_buf = [];
  history = [];
  history_idx = minus_one;
  cursor_visible = true;
}

abbrev pub titled : Guiterm
titled = guiterm_print_color cleared (bytes_of "BlockOS Terminal v1.0" ++ 10 ∷ []) term_green

abbrev pub welcomed : Guiterm
welcomed =
    guiterm_print_color titled (bytes_of "Next Generation of Coders" ++ 10 ∷ 10 ∷ []) term_gray

unfoldable pub guiterm_init : Guiterm
unfolding prompt
guiterm_init = prompt welcomed

-- The last byte taken off.
unfoldable pub shorter : List ℕ → List ℕ
shorter [] = []
shorter (c ∷ []) = []
shorter (c ∷ d ∷ s) = c ∷ shorter (d ∷ s)

-- The line goes to the history and to the shell.
unfoldable pub entered : Guiterm → Guiterm
entered t =
    let history =
      if ltb (length t.history) term_history
      then t.history ++ strncpy t.input_buf 511 ∷ []
      else t.history in
    if ltb 0 (length t.input_buf)
    then record t { history = history; history_idx = length history; input_buf = [] }
    else t

unfoldable pub guiterm_handle_key : Guiterm → ℕ → Guiterm
unfolding entered prompt shorter
guiterm_handle_key t key =
    if key == 10
    then prompt (entered (guiterm_putchar t 10))
    else if key == 8
    then if ltb 0 (length t.input_buf)
      then guiterm_putchar (record t { input_buf = shorter t.input_buf }) 8
      else t
    else if leb 32 key && ltb key 127
    then if ltb (length t.input_buf) 511
      then guiterm_putchar (record t { input_buf = t.input_buf ++ key ∷ [] }) key
      else t
    else t
