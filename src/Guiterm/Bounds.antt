-- ===== src/Guiterm/Bounds.antt =====
-- Where terminal/guiterm.c writes and what it shows, after any calls.
use blockos.Prelude.{
  ℕ, ◌+◌, ◌-◌, ◌*◌, ◌/◌, ◌^◌, ◌≤◌, ◌<◌, ◌≡◌, refl, ◌∙◌, sym, Bool, true, false, ◌&&◌, List, [], ◌∷◌,
  ◌++◌, arith, if◌then◌else◌, ◌==◌, ltb, leb, length, length-set, length-replicate, replicate,
  bytes_of, subst,
}
use blockos.Word.{add, sub, less, at_most, negative}
use blockos.Guiterm.{
  Guiterm, no_cell, term_cols, term_rows, max_scroll, term_green, term_gray, guiterm_newline,
  written, put_cell, guiterm_putchar, guiterm_print, guiterm_print_color, guiterm_clear,
  guiterm_scroll, prompt, cleared, titled, welcomed, guiterm_init, entered, shorter,
  guiterm_handle_key,
}

-- The cursor is in a row of the table, and the rows that are shown are in it too.
abbrev pub IsSane : Guiterm → Type 0
IsSane t =
    (t.rows ≡ term_rows)
    × (t.cursor_row < max_scroll)
    × (t.scroll_offset + term_rows ≤ max_scroll)
    × (t.total_rows < max_scroll)
    × (length t.cells ≡ max_scroll)

newline-IsSane : (t : Guiterm) → IsSane t → IsSane (guiterm_newline t)
unfolding guiterm_newline
newline-IsSane t h =
    let down = add t.cursor_row 1 in
    let row = if at_most max_scroll down then max_scroll - 1 else down in
    let low : row < max_scroll = ground (arith, h.1) in
    let fits : (if at_most (add t.scroll_offset term_rows) row
            then add (sub row term_rows) 1
            else t.scroll_offset)
          + term_rows
        ≤ max_scroll =
      ground (arith, h.2, low) in
    (
      h.0,
      low,
      subst
          (λ r.
            (if at_most (add t.scroll_offset r) row then add (sub row r) 1 else t.scroll_offset)
              + term_rows
            ≤ max_scroll)
          (sym h.0) fits,
      ground (arith, h.3, low),
      h.4,
    )

IsSane-if : (b : Bool) (x y : Guiterm) → IsSane x → IsSane y → IsSane (if b then x else y)
IsSane-if true x y hx hy = hx
IsSane-if false x y hx hy = hy

put_cell-IsSane : (t : Guiterm) (c : ℕ) → IsSane t → IsSane (put_cell t c)
unfolding put_cell written
put_cell-IsSane t c h =
    let w = written t c in
    let hw : IsSane w = (h.0, h.1, h.2, h.3, length-set t.cells t.cursor_row _ ∙ h.4) in
    IsSane-if (less t.cursor_row max_scroll && less t.cursor_col term_cols)
      (if at_most term_cols w.cursor_col then guiterm_newline w else w) t
      (IsSane-if (at_most term_cols w.cursor_col) (guiterm_newline w) w (newline-IsSane w hw) hw) h

putchar-IsSane : (t : Guiterm) (c : ℕ) → IsSane t → IsSane (guiterm_putchar t c)
unfolding guiterm_putchar
putchar-IsSane t c h = IsSane-if (c == 10) _ _ (newline-IsSane t h) (
    IsSane-if (c == 13) (record t { cursor_col = 0 }) _ h
      (IsSane-if (c == 9) (record t { cursor_col = add t.cursor_col 8 / 8 * 8 }) _ h
        (IsSane-if (c == 8)
          (record t {
            cursor_col = if less 0 t.cursor_col then sub t.cursor_col 1 else t.cursor_col;
          })
          (put_cell t c) h (put_cell-IsSane t c h))))

print-IsSane : (t : Guiterm) (s : List ℕ) → IsSane t → IsSane (guiterm_print t s)
unfolding guiterm_print
print-IsSane t [] h = h
print-IsSane t (c ∷ s) h = print-IsSane (guiterm_putchar t c) s (putchar-IsSane t c h)

print_color-IsSane :
    (t : Guiterm) (s : List ℕ) (fg : ℕ) → IsSane t → IsSane (guiterm_print_color t s fg)
unfolding guiterm_print_color
print_color-IsSane t s fg h = print-IsSane (record t { fg = fg }) s h

least_le :
    (most offset : ℕ)
    → most < 2 ^ 31
    → offset < 2 ^ 31
    → (if less most offset then most else offset) ≤ most
least_le most offset m o = ground arith

most_rows :
    (total rows : ℕ)
    → rows ≡ term_rows
    → total < max_scroll
    → (if negative (sub total rows) then 0 else sub total rows) + term_rows ≤ max_scroll
most_rows total rows r h =
    subst (λ n. (if negative (sub total n) then 0 else sub total n) + term_rows ≤ max_scroll)
      (sym r) (ground (arith, h))

not_negative : (n : ℕ) → (if negative n then 0 else n) < 2 ^ 31
not_negative n = ground arith

scroll-IsSane : (t : Guiterm) (delta : ℕ) → IsSane t → IsSane (guiterm_scroll t delta)
unfolding guiterm_scroll
scroll-IsSane t delta h =
    let left = sub t.total_rows t.rows in
    let moved = add t.scroll_offset delta in
    let low =
      least_le (if negative left then 0 else left) (if negative moved then 0 else moved)
        (not_negative left) (not_negative moved) in
    (h.0, h.1, omega (arith, low, most_rows t.total_rows t.rows h.0 h.3), h.3, h.4)

clear-IsSane : (t : Guiterm) → IsSane t → IsSane (guiterm_clear t)
unfolding guiterm_clear
clear-IsSane t h = (
  h.0,
  omega arith,
  omega arith,
  omega arith,
  length-replicate max_scroll (replicate term_cols no_cell),
)

prompt-IsSane : (t : Guiterm) → IsSane t → IsSane (prompt t)
unfolding prompt
prompt-IsSane t h =
    print-IsSane (guiterm_print_color t (bytes_of "root@blockos") term_green) (bytes_of ":~$ ")
      (print_color-IsSane t (bytes_of "root@blockos") term_green h)

entered-IsSane : (t : Guiterm) → IsSane t → IsSane (entered t)
unfolding entered
entered-IsSane t h = IsSane-if (ltb 0 (length t.input_buf)) _ t h h

handle_key-IsSane : (t : Guiterm) (key : ℕ) → IsSane t → IsSane (guiterm_handle_key t key)
unfolding guiterm_handle_key
handle_key-IsSane t key h =
    IsSane-if (key == 10) (prompt (entered (guiterm_putchar t 10))) _
      (prompt-IsSane (entered (guiterm_putchar t 10))
        (entered-IsSane (guiterm_putchar t 10) (putchar-IsSane t 10 h)))
      (IsSane-if (key == 8) _ _
        (IsSane-if (ltb 0 (length t.input_buf)) _ t
          (putchar-IsSane (record t { input_buf = shorter t.input_buf }) 8 h) h)
        (IsSane-if (leb 32 key && ltb key 127) _ t
          (IsSane-if (ltb (length t.input_buf) 511) _ t
            (putchar-IsSane (record t { input_buf = t.input_buf ++ key ∷ [] }) key h) h)
          h))

-- A call.
pub data Call : Type 0 where
  print : List ℕ → Call
  print_color : List ℕ → ℕ → Call
  clear : Call
  scroll : ℕ → Call
  key : ℕ → Call

unfoldable pub call : Guiterm → Call → Guiterm
call t (print s) = guiterm_print t s
call t (print_color s fg) = guiterm_print_color t s fg
call t clear = guiterm_clear t
call t (scroll delta) = guiterm_scroll t delta
call t (key k) = guiterm_handle_key t k

unfoldable pub calls : Guiterm → List Call → Guiterm
unfolding call
calls t [] = t
calls t (c ∷ cs) = calls (call t c) cs

call-IsSane : (t : Guiterm) (c : Call) → IsSane t → IsSane (call t c)
unfolding call
call-IsSane t (print s) h = print-IsSane t s h
call-IsSane t (print_color s fg) h = print_color-IsSane t s fg h
call-IsSane t clear h = clear-IsSane t h
call-IsSane t (scroll delta) h = scroll-IsSane t delta h
call-IsSane t (key k) h = handle_key-IsSane t k h

calls-IsSane : (t : Guiterm) (cs : List Call) → IsSane t → IsSane (calls t cs)
unfolding calls
calls-IsSane t [] h = h
calls-IsSane t (c ∷ cs) h = calls-IsSane (call t c) cs (call-IsSane t c h)

cleared-IsSane : IsSane cleared
cleared-IsSane = (
  refl,
  omega arith,
  omega arith,
  omega arith,
  length-replicate max_scroll (replicate term_cols no_cell),
)

init-IsSane : IsSane guiterm_init
unfolding guiterm_init
init-IsSane = prompt-IsSane welcomed (
    print_color-IsSane titled (bytes_of "Next Generation of Coders" ++ 10 ∷ 10 ∷ []) term_gray (
      print_color-IsSane cleared (bytes_of "BlockOS Terminal v1.0" ++ 10 ∷ []) term_green
        cleared-IsSane))

-- After guiterm_init and any texts, keys, scrolling by any number and clearing, the cursor is in
-- one of the 1000 rows of the table, and so are the 35 rows that are shown from scroll_offset on.
pub calls-guiterm_init-IsSane : (cs : List Call) → IsSane (calls guiterm_init cs)
calls-guiterm_init-IsSane cs = calls-IsSane guiterm_init cs init-IsSane
