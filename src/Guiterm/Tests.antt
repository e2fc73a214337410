-- ===== src/Guiterm/Tests.antt =====
-- terminal/guiterm.c on short texts.
use blockos.Prelude.{ℕ, ◌<◌, ◌≡◌, refl, List, [], ◌∷◌, arith, bytes_of}
use blockos.Guiterm.{Guiterm, cleared, guiterm_init, guiterm_putchar, guiterm_print}
use blockos.Guiterm.Bounds.{Call, calls, IsSane, calls-guiterm_init-IsSane}
use blockos.Guiterm.Line.{char_at, Shows, guiterm_print-past_tab, guiterm_print-Shows}

abbrev some_calls : List Call
some_calls = Call.key 108 ∷ Call.key 115 ∷ Call.key 10 ∷ Call.scroll 4294967294 ∷ Call.clear ∷ []

calls-guiterm_init-IsSane_example : IsSane (calls guiterm_init some_calls)
calls-guiterm_init-IsSane_example = calls-guiterm_init-IsSane some_calls

-- The cursor in column 115.
abbrev late : Guiterm
late = record cleared { cursor_col = 115 }

guiterm_print-past_tab_example :
    guiterm_print (guiterm_putchar late 9) (bytes_of "ab") ≡ guiterm_putchar late 9
guiterm_print-past_tab_example =
    guiterm_print-past_tab late (bytes_of "ab") (omega arith) (omega arith)
      (omega arith, (omega arith, tt))

guiterm_print-Shows_example :
    ((guiterm_print cleared (bytes_of "ls")).cursor_row ≡ 0)
    × ((guiterm_print cleared (bytes_of "ls")).cursor_col ≡ 2)
    × ((col : ℕ)
        → col < 0
        → char_at (guiterm_print cleared (bytes_of "ls")) 0 col ≡ char_at cleared 0 col)
    × Shows (guiterm_print cleared (bytes_of "ls")) 0 0 (bytes_of "ls")
guiterm_print-Shows_example =
    guiterm_print-Shows cleared (bytes_of "ls") (omega arith, (omega arith, tt))
      (omega arith, omega arith, refl, omega arith)
