-- ===== src/Contextmenu.antt =====
-- contextmenu.c and contextmenu.h: the items of a menu and the mouse on it. An `int` is its bit
-- pattern, as in Word. A callback is a number, and calling one gives it and its argument.
-- `opacity`, which only drawing reads, and drawing are left out.
pub mod Clicks
pub mod Tests
use blockos.Prelude.{
  ℕ, zero, suc, ◌+◌, ◌*◌, ◌%◌, ◌^◌, Bool, true, false, not, ◌&&◌, ◌||◌, List, [], ◌∷◌, ◌++◌, Option,
  none, some, if◌then◌else◌, ◌==◌, leb, length, set,
}
use blockos.Strings.{strncpy}
use blockos.Word.{minus_one, add, less, at_most}

abbrev max_items : ℕ
max_items = 20

abbrev pub item_h : ℕ
item_h = 26

abbrev min_w : ℕ
min_w = 160

abbrev pub type_separator : ℕ
type_separator = 0

abbrev type_item : ℕ
type_item = 1

-- `ctx_item_t`
pub record Item : Type 0 where
  pub type : ℕ
  pub label : List ℕ
  pub shortcut : List ℕ
  pub enabled : Bool
  pub checked : Bool
  pub callback : Option ℕ
  pub userdata : ℕ

-- `contextmenu_t`; the items are the first `item_count`.
pub record Contextmenu : Type 0 where
  pub x : ℕ
  pub y : ℕ
  pub w : ℕ
  pub h : ℕ
  pub items : List Item
  pub visible : Bool
  pub hovered : ℕ

unfoldable pub ctx_init : Contextmenu
ctx_init = record { x = 0; y = 0; w = 0; h = 0; items = []; visible = false; hovered = minus_one }

abbrev shortcut_of : Option (List ℕ) → List ℕ
shortcut_of none = []
shortcut_of (some s) = strncpy s 11

unfoldable pub ctx_add_item : Contextmenu → List ℕ → Option (List ℕ) → Option ℕ → ℕ → Contextmenu
ctx_add_item ctx label shortcut cb ud =
    let item : Item = record {
      type = type_item;
      label = strncpy label 47;
      shortcut = shortcut_of shortcut;
      enabled = true;
      checked = false;
      callback = cb;
      userdata = ud;
    } in
    if leb max_items (length ctx.items) then ctx else record ctx { items = ctx.items ++ item ∷ [] }

-- The other fields of a separator are those that ctx_init has cleared.
unfoldable pub ctx_add_separator : Contextmenu → Contextmenu
ctx_add_separator ctx =
    let item : Item = record {
      type = type_separator;
      label = [];
      shortcut = [];
      enabled = false;
      checked = false;
      callback = none;
      userdata = 0;
    } in
    if leb max_items (length ctx.items) then ctx else record ctx { items = ctx.items ++ item ∷ [] }

abbrev pub height_of : Item → ℕ
height_of item = if item.type == type_separator then 9 else item_h

unfoldable pub heights : ℕ → List Item → ℕ
heights h [] = h
heights h (item ∷ items) = heights (add h (height_of item)) items

unfoldable pub ctx_show : Contextmenu → ℕ → ℕ → Contextmenu
unfolding heights
ctx_show ctx x y = record ctx {
  w = min_w;
  h = add (heights 8 ctx.items) 4;
  x = x;
  y = y;
  visible = true;
  hovered = minus_one;
}

abbrev pub ctx_hide : Contextmenu → Contextmenu
ctx_hide ctx = record ctx { visible = false; hovered = minus_one }

abbrev pub outside : Contextmenu → ℕ → ℕ → Bool
outside ctx mx my =
    (less mx ctx.x || less (add ctx.x ctx.w) mx) || (less my ctx.y || less (add ctx.y ctx.h) my)

-- The mouse in the band of the item at height `iy`.
abbrev pub hits : Contextmenu → ℕ → ℕ → ℕ → Bool
hits ctx mx my iy =
    (at_most ctx.x mx && at_most mx (add ctx.x ctx.w)) && (at_most iy my && less my (add iy item_h))

-- if (click && item->enabled && item->callback) { item->callback(item->userdata); ctx_hide(ctx); }
unfoldable pub called : Contextmenu → Option ℕ → ℕ → Bool → Contextmenu × List (ℕ × ℕ)
called ctx none userdata wanted = (ctx, [])
called ctx (some callback) userdata wanted =
    if wanted then (ctx_hide ctx, (callback, userdata) ∷ []) else (ctx, [])

unfoldable pub clicked : Contextmenu → Item → Bool → Contextmenu × List (ℕ × ℕ)
unfolding called
clicked ctx item click = called ctx item.callback item.userdata (click && item.enabled)

-- The loop over the items, with the calls that it makes.
unfoldable pub over_items :
    Contextmenu → List Item → ℕ → ℕ → ℕ → ℕ → Bool → Contextmenu × List (ℕ × ℕ)
unfolding clicked
over_items ctx [] i iy mx my click = (ctx, [])
over_items ctx (item ∷ items) i iy mx my click =
    let (here, call) =
      if hits ctx mx my iy && not (item.type == type_separator)
      then clicked (record ctx { hovered = i }) item click
      else (ctx, []) in
    let (after, calls) = over_items here items (suc i) (add iy (height_of item)) mx my click in
    (after, call ++ calls)

unfoldable pub ctx_handle_mouse : Contextmenu → ℕ → ℕ → Bool → Contextmenu × List (ℕ × ℕ)
unfolding over_items
ctx_handle_mouse ctx mx my click =
    if not ctx.visible
    then (ctx, [])
    else if click && outside ctx mx my
    then (ctx_hide ctx, [])
    else over_items (record ctx { hovered = minus_one }) ctx.items 0 (add ctx.y 4) mx my click

unfoldable pub ctx_is_visible : Contextmenu → Bool
ctx_is_visible ctx = ctx.visible
