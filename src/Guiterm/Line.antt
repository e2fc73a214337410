-- ===== src/Guiterm/Line.antt =====
-- Texts that terminal/guiterm.c prints on one line, and those that it loses.
use blockos.Prelude.{
  ℕ, zero, suc, ◌+◌, ◌*◌, ◌/◌, ◌≤◌, ◌<◌, ◌≡◌, ◌≢◌, refl, ap, ◌∙◌, sym, Bool, true, false, ◌&&◌,
  List, [], ◌∷◌, arith, ◌==◌, length, set, get_or, get_or-set_self, get_or-set_ne, length-set,
  if_true, if_false, subst,
}
use blockos.Slots.Laws.{All}
use blockos.Word.{add, less, at_most}
use blockos.Guiterm.{
  Cell, Guiterm, no_cell, term_cols, max_scroll, written, put_cell, guiterm_putchar, guiterm_print,
}

-- A byte that is no control character.
abbrev pub IsPlain : ℕ → Type 0
IsPlain c = 32 ≤ c

putchar-plain : (t : Guiterm) (c : ℕ) → IsPlain c → guiterm_putchar t c ≡ put_cell t c
unfolding guiterm_putchar
putchar-plain t c p =
    let a : (c == 10) ≡ false = ground (arith, p) in
    let b : (c == 13) ≡ false = ground (arith, p) in
    let d : (c == 9) ≡ false = ground (arith, p) in
    let e : (c == 8) ≡ false = ground (arith, p) in
    if_false _ _ _ a ∙ if_false _ _ _ b ∙ if_false _ _ _ d ∙ if_false _ _ _ e

-- Behind the last column nothing is written.
put_cell-past : (t : Guiterm) (c : ℕ) → t.cursor_col ≡ term_cols → put_cell t c ≡ t
unfolding put_cell
put_cell-past t c e =
    let past : (less t.cursor_row max_scroll && less t.cursor_col term_cols) ≡ false =
      ap (λ n. less t.cursor_row max_scroll && less n term_cols) e
      ∙ no (less t.cursor_row max_scroll) in
    if_false _ _ _ past
  where
    no : (b : Bool) → (b && false) ≡ false
    no true = refl
    no false = refl

print-past :
    (t : Guiterm) (s : List ℕ) → All IsPlain s → t.cursor_col ≡ term_cols → guiterm_print t s ≡ t
unfolding guiterm_print
print-past t [] a e = refl
print-past t (c ∷ s) a e =
    ap (λ u. guiterm_print u s) (putchar-plain t c a.0 ∙ put_cell-past t c e) ∙ print-past t s a.1 e

-- A tab in one of the last eight columns moves the cursor behind the line, where it stays: a text
-- without control characters that is printed then is lost.
pub guiterm_print-past_tab :
    (t : Guiterm) (s : List ℕ)
    → 112 ≤ t.cursor_col
    → t.cursor_col < term_cols
    → All IsPlain s
    → guiterm_print (guiterm_putchar t 9) s ≡ guiterm_putchar t 9
unfolding guiterm_putchar
guiterm_print-past_tab t s low high a =
    let e : add t.cursor_col 8 / 8 * 8 ≡ term_cols = omega (arith, low, high) in
    print-past (guiterm_putchar t 9) s a e

-- The characters of a row.
abbrev pub char_at : Guiterm → ℕ → ℕ → ℕ
char_at t row col = (get_or (get_or t.cells row []) col no_cell).ch

-- There is room for `n` characters and one more in the cursor's row.
abbrev pub HasRoom : Guiterm → ℕ → Type 0
HasRoom t n =
    (t.cursor_row < max_scroll)
    × (t.cursor_row < length t.cells)
    × (length (get_or t.cells t.cursor_row []) ≡ term_cols)
    × (t.cursor_col + n < term_cols)

-- Writing one character.
module _ (t : Guiterm) (c n : ℕ) (room : HasRoom t (suc n)) where
  abbrev cell : Cell
  cell = record { ch = c; fg = t.fg; bg = t.bg; bold = t.bold; underline = t.underline }

  abbrev line : List Cell
  line = get_or t.cells t.cursor_row []

  col_next : (written t c).cursor_col ≡ suc t.cursor_col
  unfolding written
  col_next = omega (arith, room.3)

  put_cell-written : put_cell t c ≡ written t c
  unfolding put_cell
  put_cell-written =
      let inside : (less t.cursor_row max_scroll && less t.cursor_col term_cols) ≡ true =
        ground (arith, room.0, room.3) in
      let on : at_most term_cols (written t c).cursor_col ≡ false =
        ground (arith, col_next, room.3) in
      if_true _ _ _ inside ∙ if_false _ _ _ on

  line-written : get_or (written t c).cells t.cursor_row [] ≡ set line t.cursor_col cell
  unfolding written
  line-written = get_or-set_self t.cells t.cursor_row (set line t.cursor_col cell) [] room.1

  char_at-written : char_at (written t c) t.cursor_row t.cursor_col ≡ c
  char_at-written =
      ap (λ l. (get_or l t.cursor_col no_cell).ch) line-written
      ∙ ap (λ (x : Cell). x.ch)
          (get_or-set_self line t.cursor_col cell no_cell (omega (arith, room.2, room.3)))

  char_at-other :
      (col : ℕ)
      → t.cursor_col ≢ col
      → char_at (written t c) t.cursor_row col ≡ char_at t t.cursor_row col
  char_at-other col apart =
      ap (λ l. (get_or l col no_cell).ch) line-written
      ∙ ap (λ (x : Cell). x.ch) (get_or-set_ne line t.cursor_col col cell no_cell apart)

  written-HasRoom : HasRoom (written t c) n
  unfolding written
  written-HasRoom = (
    room.0,
    subst (λ k. t.cursor_row < k) (sym (length-set t.cells t.cursor_row _)) room.1,
    ap length line-written ∙ length-set line t.cursor_col cell ∙ room.2,
    omega (arith, col_next, room.3),
  )

-- A text on the cursor's row, from a column on.
abbrev pub Shows : Guiterm → ℕ → ℕ → List ℕ → Type 0
Shows t row col s = (k : ℕ) → k < length s → char_at t row (col + k) ≡ get_or s k 0

abbrev Printed : Guiterm → List ℕ → Guiterm → Type 0
Printed t s t' =
    (t'.cursor_row ≡ t.cursor_row)
    × (t'.cursor_col ≡ t.cursor_col + length s)
    × ((col : ℕ) → col < t.cursor_col → char_at t' t.cursor_row col ≡ char_at t t.cursor_row col)
    × Shows t' t.cursor_row t.cursor_col s

print_one :
    (t t' : Guiterm) (c : ℕ) (s : List ℕ)
    → HasRoom t (suc (length s))
    → Printed (written t c) s t'
    → Printed t (c ∷ s) t'
unfolding written
print_one t t' c s room p =
    let n = length s in
    let next = col_next t c n room in
    (
      p.0,
      omega (arith, p.1, next),
      (λ col h.
          p.2 col (omega (arith, h, next))
          ∙ char_at-other t c n room col (λ e. absurd (omega (arith, e, h)))),
      shown,
    )
  where
    shown : Shows t' t.cursor_row t.cursor_col (c ∷ s)
    shown zero h =
        let e : t.cursor_col + 0 ≡ t.cursor_col = omega arith in
        let next = col_next t c (length s) room in
        ap (char_at t' t.cursor_row) e
        ∙ p.2 t.cursor_col (omega (arith, next))
        ∙ char_at-written t c (length s) room
    shown (suc k) h =
        let next = col_next t c (length s) room in
        let e : t.cursor_col + suc k ≡ (written t c).cursor_col + k = omega (arith, next) in
        ap (char_at t' t.cursor_row) e ∙ p.3 k (omega (arith, h))

-- A text without control characters that ends before the last column of the cursor's row is then in
-- that row, from the cursor's old column on; what stood before it in the row is unchanged, and the
-- cursor is behind the text.
pub guiterm_print-Shows :
    (t : Guiterm) (s : List ℕ)
    → All IsPlain s
    → HasRoom t (length s)
    → ((guiterm_print t s).cursor_row ≡ t.cursor_row)
      × ((guiterm_print t s).cursor_col ≡ t.cursor_col + length s)
      × ((col : ℕ)
          → col < t.cursor_col
          → char_at (guiterm_print t s) t.cursor_row col ≡ char_at t t.cursor_row col)
      × Shows (guiterm_print t s) t.cursor_row t.cursor_col s
unfolding guiterm_print
guiterm_print-Shows t [] a room =
    (refl, omega arith, (λ col h. refl), λ k h. absurd (omega (arith, h)))
guiterm_print-Shows t (c ∷ s) a room =
    let one : guiterm_putchar t c ≡ written t c =
      putchar-plain t c a.0 ∙ put_cell-written t c (length s) room in
    subst (λ u. Printed t (c ∷ s) (guiterm_print u s)) (sym one)
      (print_one t (guiterm_print (written t c) s) c s room
        (guiterm_print-Shows (written t c) s a.1 (written-HasRoom t c (length s) room)))
