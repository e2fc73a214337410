-- ===== src/Ramfs/Hang.antt =====
-- `add_child` of fs/ramfs.c on an inode that was just made: what is at each pointer then.
use blockos.Prelude.{
  ℕ, suc, ◌+◌, ◌<◌, ◌≡◌, ◌≢◌, ap, ◌∙◌, sym, List, [], ◌∷◌, ◌++◌, some, arith, length, set,
  get_or-set_self, get_or-set_ne, get_or-append_lt, get_or-append, length-append, length-set,
}
use blockos.Ramfs.{Inode, inode, no_inode, add_child}

module _ (nodes : List Inode) (new : Inode) (p : ℕ) (old : p < length nodes) where
  abbrev appended : List Inode
  appended = nodes ++ new ∷ []

  -- The new inode is the last, and hangs into the directory `p`.
  abbrev pub hung : List Inode
  hung = add_child appended p (length nodes)

  abbrev linked : List Inode
  linked = set appended (length nodes) (record (inode appended (length nodes)) { parent = some p })

  appended-old : (i : ℕ) → i < length nodes → inode appended i ≡ inode nodes i
  appended-old i h = get_or-append_lt nodes (new ∷ []) i no_inode h

  appended-new : inode appended (length nodes) ≡ new
  appended-new =
      let e : length nodes ≡ length nodes + 0 = omega arith in
      ap (inode appended) e ∙ get_or-append nodes (new ∷ []) 0 no_inode

  length-appended : length appended ≡ suc (length nodes)
  length-appended = omega (arith, length-append nodes (new ∷ []))

  linked-old : (i : ℕ) → i < length nodes → inode linked i ≡ inode nodes i
  linked-old i h =
      get_or-set_ne appended (length nodes) i _ no_inode (omega arith) ∙ appended-old i h

  linked-new : inode linked (length nodes) ≡ record new { parent = some p }
  linked-new =
      get_or-set_self appended (length nodes) _ no_inode (omega (arith, length-appended))
      ∙ ap (λ (n : Inode). record n { parent = some p }) appended-new

  length-linked : length linked ≡ suc (length nodes)
  length-linked = length-set appended (length nodes) _ ∙ length-appended

  pub length-hung : length hung ≡ suc (length nodes)
  unfolding add_child
  length-hung = length-set linked p _ ∙ length-linked

  pub hung-old : (i : ℕ) → i < length nodes → i ≢ p → inode hung i ≡ inode nodes i
  unfolding add_child
  hung-old i h n = get_or-set_ne linked p i _ no_inode (λ e. n (sym e)) ∙ linked-old i h

  pub hung-parent :
      inode hung p ≡ record (inode nodes p) { children = length nodes ∷ (inode nodes p).children }
  unfolding add_child
  hung-parent =
      get_or-set_self linked p _ no_inode (omega (arith, length-linked, old))
      ∙ ap (λ (n : Inode). record n { children = length nodes ∷ n.children }) (linked-old p old)

  pub hung-new : inode hung (length nodes) ≡ record new { parent = some p }
  unfolding add_child
  hung-new = get_or-set_ne linked p (length nodes) _ no_inode (omega (arith, old)) ∙ linked-new
