-- ===== src/Contextmenu/Clicks.antt =====
-- Which callbacks the mouse calls in contextmenu.c.
use blockos.Prelude.{
  ℕ, suc, ◌+◌, ◌*◌, ◌^◌, ◌<◌, ◌≡◌, ◌⊎◌, refl, ap, ◌∙◌, sym, inl, inr, Bool, true, false, not, ◌&&◌,
  List, [], ◌∷◌, ◌++◌, Option, none, some, arith, if◌then◌else◌, ◌==◌, length, Bool-cases, if_true,
  if_false, subst,
}
use blockos.Word.{add, less, at_most, minus_one}
use blockos.Contextmenu.{
  Item, Contextmenu, item_h, type_separator, height_of, hits, outside, called, clicked, over_items,
  ctx_hide, ctx_handle_mouse,
}

-- One item and the others behind it.
abbrev here : Contextmenu → Item → ℕ → Bool → Bool → Contextmenu × List (ℕ × ℕ)
here ctx item i hit click =
    if hit then clicked (record ctx { hovered = i }) item click else (ctx, [])

abbrev hit : Contextmenu → Item → ℕ → ℕ → ℕ → Bool
hit ctx item iy mx my = hits ctx mx my iy && not (item.type == type_separator)

and_false : (b : Bool) → (b && false) ≡ false
and_false true = refl
and_false false = refl

not_hit :
    (ctx : Contextmenu) (item : Item) (iy mx my : ℕ)
    → my < iy
    → iy < 2 ^ 31
    → hit ctx item iy mx my ≡ false
not_hit ctx item iy mx my h s =
    let above : at_most iy my ≡ false = ground (arith, h, s) in
    let inside = at_most ctx.x mx && at_most mx (add ctx.x ctx.w) in
    ap (λ b. (inside && (b && less my (add iy item_h))) && not (item.type == type_separator)) above
    ∙ ap (λ b. b && not (item.type == type_separator)) (and_false inside)

-- The items below the mouse change nothing.
past :
    (items : List Item) (ctx : Contextmenu) (i iy mx my : ℕ) (click : Bool)
    → my < iy
    → iy + length items * item_h < 2 ^ 31
    → over_items ctx items i iy mx my click ≡ (ctx, [])
unfolding over_items
past [] ctx i iy mx my click h s = refl
past (item ∷ items) ctx i iy mx my click h s =
    let none_here : here ctx item i (hit ctx item iy mx my) click ≡ (ctx, []) =
      if_false _ _ _ (not_hit ctx item iy mx my h (omega (arith, s))) in
    let lower : my < add iy (height_of item) = ground (arith, h, s) in
    let room : add iy (height_of item) + length items * item_h < 2 ^ 31 = ground (arith, s) in
    ap
      (λ (x : Contextmenu × List (ℕ × ℕ)). (
        (over_items x.0 items (suc i) (add iy (height_of item)) mx my click).0,
        x.1 ++ (over_items x.0 items (suc i) (add iy (height_of item)) mx my click).1,
      ))
      none_here
    ∙ past items ctx (suc i) (add iy (height_of item)) mx my click lower room

-- Nothing is called, or one callback, on a click, and the menu is hidden.
abbrev pub IsOnce : Bool → Contextmenu × List (ℕ × ℕ) → Type 0
IsOnce click r =
    (r.1 ≡ []) ⊎ ((call : ℕ × ℕ) × (r.1 ≡ call ∷ []) × (r.0.visible ≡ false) × (click ≡ true))

both_true : (a b : Bool) → (a && b) ≡ true → (a ≡ true) × (b ≡ true)
both_true true b e = (refl, e)
both_true false b e = absurd (cc)

turned : (b : Bool) → not b ≡ true → b ≡ false
turned true e = absurd (cc)
turned false e = refl

called-IsOnce :
    (ctx : Contextmenu) (o : Option ℕ) (userdata : ℕ) (wanted click : Bool)
    → (wanted ≡ true → click ≡ true)
    → IsOnce click (called ctx o userdata wanted)
unfolding called
called-IsOnce ctx none userdata wanted click h = inl refl
called-IsOnce ctx (some cb) userdata true click h = inr ((cb, userdata), refl, refl, h refl)
called-IsOnce ctx (some cb) userdata false click h = inl refl

clicked-IsOnce :
    (ctx : Contextmenu) (item : Item) (click : Bool) → IsOnce click (clicked ctx item click)
unfolding clicked
clicked-IsOnce ctx item click =
    called-IsOnce ctx item.callback item.userdata (click && item.enabled) click
      (λ e. (both_true click item.enabled e).0)

-- What a hit says of the place of the mouse.
hit_above :
    (ctx : Contextmenu) (item : Item) (iy mx my : ℕ)
    → hit ctx item iy mx my ≡ true
    → my < 2 ^ 31
    → iy + item_h < 2 ^ 31
    → my < add iy (height_of item)
hit_above ctx item iy mx my e m s =
    let inside = at_most ctx.x mx && at_most mx (add ctx.x ctx.w) in
    let band = at_most iy my && less my (add iy item_h) in
    let parts = both_true (inside && band) (not (item.type == type_separator)) e in
    let below =
      (both_true (at_most iy my) (less my (add iy item_h)) (both_true inside band parts.0).1).1 in
    let tall : height_of item ≡ item_h =
      if_false _ _ _ (turned (item.type == type_separator) parts.1) in
    subst (λ h. my < add iy h) (sym tall) (ground (arith, below, m, s))

append_nil : (l : List (ℕ × ℕ)) → l ++ [] ≡ l
append_nil [] = refl
append_nil (x ∷ l) = ap (◌∷◌ x) (append_nil l)

over_items-IsOnce :
    (items : List Item) (ctx : Contextmenu) (i iy mx my : ℕ) (click : Bool)
    → my < 2 ^ 31
    → iy + length items * item_h < 2 ^ 31
    → IsOnce click (over_items ctx items i iy mx my click)
unfolding over_items
over_items-IsOnce [] ctx i iy mx my click m s = inl refl
over_items-IsOnce (item ∷ items) ctx i iy mx my click m s =
    let next = add iy (height_of item) in
    let room : next + length items * item_h < 2 ^ 31 = ground (arith, s) in
    let both : Contextmenu × List (ℕ × ℕ) → Contextmenu × List (ℕ × ℕ) = λ x. (
      (over_items x.0 items (suc i) next mx my click).0,
      x.1 ++ (over_items x.0 items (suc i) next mx my click).1,
    ) in
    elim (Bool-cases (hit ctx item iy mx my)) [
      | inl y ↦
          let one = clicked (record ctx { hovered = i }) item click in
          let low : my < next = hit_above ctx item iy mx my y m (omega (arith, s)) in
          let rest : over_items one.0 items (suc i) next mx my click ≡ (one.0, []) =
            past items one.0 (suc i) next mx my click low room in
          let whole : both one ≡ one =
            ap (λ (r : Contextmenu × List (ℕ × ℕ)). (r.0, one.1 ++ r.1)) rest
            ∙ ap (λ l. (one.0, l)) (append_nil one.1) in
          subst (IsOnce click) (sym (ap both (if_true _ _ _ y) ∙ whole))
            (clicked-IsOnce (record ctx { hovered = i }) item click)
      | inr n ↦
          subst (IsOnce click) (sym (ap both (if_false _ _ _ n)))
            (over_items-IsOnce items ctx (suc i) next mx my click m room)
    ]

-- One move or click of the mouse calls at most one callback, and only on a click, after which the menu
-- is hidden, where neither the mouse nor the menu is at a negative height, and the menu's items,
-- counted at 26 pixels each, end at or below the greatest int.
pub ctx_handle_mouse-IsOnce :
    (ctx : Contextmenu) (mx my : ℕ) (click : Bool)
    → my < 2 ^ 31
    → ctx.y + 4 + length ctx.items * item_h < 2 ^ 31
    → IsOnce click (ctx_handle_mouse ctx mx my click)
unfolding ctx_handle_mouse
ctx_handle_mouse-IsOnce ctx mx my click m s =
    once_if (not ctx.visible) (ctx, []) _ (inl refl)
      (once_if (click && outside ctx mx my) (ctx_hide ctx, []) _ (inl refl)
        (over_items-IsOnce ctx.items (record ctx { hovered = minus_one }) 0 (add ctx.y 4) mx my
          click m (omega (arith, s))))
  where
    once_if :
        (b : Bool) (x y : Contextmenu × List (ℕ × ℕ))
        → IsOnce click x
        → IsOnce click y
        → IsOnce click (if b then x else y)
    once_if true x y hx hy = hx
    once_if false x y hx hy = hy
