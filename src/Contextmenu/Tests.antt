-- ===== src/Contextmenu/Tests.antt =====
-- contextmenu.c with one item.
use blockos.Prelude.{true, some, none, arith, bytes_of}
use blockos.Contextmenu.{Contextmenu, ctx_init, ctx_add_item, ctx_show, ctx_handle_mouse}
use blockos.Contextmenu.Clicks.{IsOnce, ctx_handle_mouse-IsOnce}

abbrev one_item : Contextmenu
one_item = ctx_show (ctx_add_item ctx_init (bytes_of "Open") none (some 1) 0) 10 20

ctx_handle_mouse-IsOnce_example : IsOnce true (ctx_handle_mouse one_item 20 30 true)
unfolding ctx_init ctx_add_item ctx_show
ctx_handle_mouse-IsOnce_example =
    ctx_handle_mouse-IsOnce one_item 20 30 true (omega arith) (omega arith)
