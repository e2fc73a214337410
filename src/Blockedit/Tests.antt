-- ===== src/Blockedit/Tests.antt =====
-- The theorems about texteditor/blockedit.c at concrete texts.
use blockos.Prelude.{◌≡◌, true, List, [], ◌∷◌, some, arith}
use blockos.Blockedit.{edit_init, and_then, edit_insert_char, edit_delete_char}
use blockos.Blockedit.Valid.{IsSafe}
use blockos.Blockedit.Moves.{Action, types, moves, run, run-edit_init-IsSafe, edit_init-IsValid}
use blockos.Blockedit.Undo.{edit_delete_char-edit_insert_char}

abbrev keys : List Action
keys = types b'a' ∷ types 10 ∷ types b'b' ∷ moves 4294967295 3 ∷ types 8 ∷ []

run-edit_init-IsSafe_example : IsSafe (run edit_init keys)
run-edit_init-IsSafe_example = run-edit_init-IsSafe keys

edit_delete_char-edit_insert_char_example :
    and_then (edit_insert_char edit_init b'x') edit_delete_char
    ≡ some (record edit_init { modified = true })
unfolding edit_init
edit_delete_char-edit_insert_char_example =
    edit_delete_char-edit_insert_char edit_init b'x' edit_init-IsValid (omega arith) (omega arith)
      (omega arith) (omega arith)
