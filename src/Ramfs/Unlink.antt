-- ===== src/Ramfs/Unlink.antt =====
-- `ramfs_delete` of fs/ramfs.c: what it takes out of the tree.
use blockos.Prelude.{
  ℕ, ◌-◌, ◌≤◌, ◌<◌, ◌≡◌, ◌≢◌, refl, ap, ◌∙◌, sym, inl, inr, ltb, ltb→lt, true, false, List, [], ◌∷◌,
  Option, none, some, arith, ◌==◌, is_some, length, set, get_or-set_self, get_or-set_ne,
  get_or-past, length-set, get_or-set_field, ==_iff, Bool-cases, Option-cases, if_true, if_false,
  subst,
}
use blockos.Slots.Laws.{All}
use blockos.Strings.{is_zero, strcmp, strncpy}
use blockos.Strings.Tokens.{all_tokens}
use blockos.Ramfs.{
  Ramfs, Inode, inode, no_inode, type_file, type_dir, child_named, walk, walk_from, find_inode,
  slash, max_path,
}
use blockos.Ramfs.Find.{child_named-All, walk-none, walk-some}
use blockos.Ramfs.Tree.{Chain, Chain-mono, Chain-parent, IsTree, parent_of}
use blockos.Ramfs.Ops.{
  unlinked, unlink_from, freed, uncounted, delete_from, delete_at, ramfs_delete, ramfs_find,
}

-- Unlinking `node` from the chain of `p`.
Chain-unlinked :
    (parent : ℕ → Option ℕ) (i b node : ℕ) (cs : List ℕ)
    → Chain parent i b cs
    → Chain parent i b (unlinked node cs)
unfolding unlinked
Chain-unlinked parent i b node [] t = tt
Chain-unlinked parent i b node (c ∷ cs) t = elim (Bool-cases (c == node)) [
  | inl y ↦ rw y (Chain-mono parent i c b cs (omega (arith, t.1)) t.3)
  | inr n ↦ rw n (t.0, t.1, t.2, Chain-unlinked parent i c node cs t.3)
]

Chain-absent :
    (parent : ℕ → Option ℕ) (i b node : ℕ) (cs : List ℕ)
    → b ≤ node
    → Chain parent i b cs
    → All (λ c. c ≢ node) cs
Chain-absent parent i b node [] h t = tt
Chain-absent parent i b node (c ∷ cs) h t = (
  (λ e. absurd (omega (arith, e, h, t.1))),
  Chain-absent parent i c node cs (omega (arith, h, t.1)) t.3,
)

-- It was there once only.
pub unlinked-absent :
    (parent : ℕ → Option ℕ) (i b node : ℕ) (cs : List ℕ)
    → Chain parent i b cs
    → All (λ c. c ≢ node) (unlinked node cs)
unfolding unlinked
unlinked-absent parent i b node [] t = tt
unlinked-absent parent i b node (c ∷ cs) t = elim (Bool-cases (c == node)) [
  | inl y ↦
      let e : c ≡ node = (==_iff c node).0 y in
      rw y (Chain-absent parent i c node cs (omega (arith, e)) t.3)
  | inr n ↦ rw n ((λ e. absurd (ground (arith, e, n))), unlinked-absent parent i c node cs t.3)
]

-- It is in no other chain.
pub Chain-elsewhere :
    (parent : ℕ → Option ℕ) (i b node : ℕ) (cs : List ℕ)
    → ¬ (parent node ≡ some i)
    → Chain parent i b cs
    → All (λ c. c ≢ node) cs
Chain-elsewhere parent i b node [] h t = tt
Chain-elsewhere parent i b node (c ∷ cs) h t =
    ((λ e. h (subst (λ k. parent k ≡ some i) e t.2)), Chain-elsewhere parent i c node cs h t.3)

module _ (nodes : List Inode) (node p : ℕ) (tree : IsTree nodes) where
  abbrev emptied : Inode
  emptied = record (inode nodes p) { children = unlinked node (inode nodes p).children }

  abbrev pub without : List Inode
  without = set nodes p emptied

  pub length-without : length nodes ≡ length without
  length-without = sym (length-set nodes p emptied)

  pub parent-without : (c : ℕ) → parent_of nodes c ≡ parent_of without c
  parent-without = get_or-set_field (λ n. n.parent) nodes p emptied no_inode refl

  Chain-without : (i : ℕ) → Chain (parent_of without) i (length nodes) (inode nodes i).children
  Chain-without i =
      Chain-parent (parent_of nodes) (parent_of without) i (length nodes) _
        (λ c h. parent-without c) (tree i)

  -- The chain of `p` after the call; behind the list there is nothing.
  Chain-of_p : Chain (parent_of without) p (length nodes) (inode without p).children
  Chain-of_p = elim (Bool-cases (ltb p (length nodes))) [
    | inl y ↦
        subst (λ (m : Inode). Chain (parent_of without) p (length nodes) m.children)
          (sym (get_or-set_self nodes p emptied no_inode (ltb→lt _ _ y)))
          (Chain-unlinked (parent_of without) p (length nodes) node _ (Chain-without p))
    | inr n ↦
        subst (λ (m : Inode). Chain (parent_of without) p (length nodes) m.children)
          (sym (get_or-past without p no_inode (ground (arith, length-set nodes p emptied, n)))) tt
  ]

  pub unlink-IsTree : IsTree without
  unlink-IsTree i =
      subst (λ n. Chain (parent_of without) i n (inode without i).children)
        (sym (length-set nodes p emptied))
        (elim (Bool-cases (i == p)) [
          | inl y ↦
              subst (λ k. Chain (parent_of without) k (length nodes) (inode without k).children)
                (sym ((==_iff i p).0 y)) Chain-of_p
          | inr n ↦
              subst (λ (m : Inode). Chain (parent_of without) i (length nodes) m.children)
                (sym
                  (get_or-set_ne nodes p i emptied no_inode (λ e. absurd (ground (arith, e, n)))))
                (Chain-without i)
        ])

  absent_from_p : All (λ c. c ≢ node) (inode without p).children
  absent_from_p = elim (Bool-cases (ltb p (length nodes))) [
    | inl y ↦
        subst (λ (m : Inode). All (λ c. c ≢ node) m.children)
          (sym (get_or-set_self nodes p emptied no_inode (ltb→lt _ _ y)))
          (unlinked-absent (parent_of nodes) p (length nodes) node _ (tree p))
    | inr n ↦
        subst (λ (m : Inode). All (λ c. c ≢ node) m.children)
          (sym (get_or-past without p no_inode (ground (arith, length-set nodes p emptied, n)))) tt
  ]

  -- Where `p` is the parent of `node`, no chain has `node` any more.
  pub absent :
      parent_of nodes node ≡ some p → (i : ℕ) → All (λ c. c ≢ node) (inode without i).children
  absent e i = elim (Bool-cases (i == p)) [
    | inl y ↦
        subst (λ k. All (λ c. c ≢ node) (inode without k).children) (sym ((==_iff i p).0 y))
          absent_from_p
    | inr n ↦
        let apart : i ≢ p = λ q. absurd (ground (arith, q, n)) in
        subst (λ (m : Inode). All (λ c. c ≢ node) m.children)
          (sym (get_or-set_ne nodes p i emptied no_inode (λ q. apart (sym q))))
          (Chain-elsewhere (parent_of nodes) i (length nodes) node _
            (λ f. apart (let q : some p ≡ some i = sym e ∙ f in cc)) (tree i))
  ]

-- A walk ends at its start or at a child.
walk-absent :
    (nodes : List Inode) (i node : ℕ) (ts : List (List ℕ))
    → i ≢ node
    → ((k : ℕ) → All (λ c. c ≢ node) (inode nodes k).children)
    → ¬ (walk nodes i ts ≡ some node)
unfolding walk
walk-absent nodes i node [] h a e = h (cc)
walk-absent nodes i node (token ∷ ts) h a e =
    elim (Option-cases (child_named nodes (inode nodes i).children token)) [
      | inl n ↦ absurd (let q : none ≡ some node = sym (walk-none nodes i token ts n) ∙ e in cc)
      | inr (c, y) ↦
          walk-absent nodes c node ts (child_named-All nodes (λ k. k ≢ node) _ token c (a i) y) a
            (sym (walk-some nodes i c token ts y) ∙ e)
    ]

freed-nodes :
    (fs : Ramfs) (n : Inode) → ((freed fs n).nodes ≡ fs.nodes) × ((freed fs n).root ≡ fs.root)
freed-nodes fs n = elim (Bool-cases (is_some n.content)) [
  | inl y ↦ rw y (refl, refl)
  | inr m ↦ rw m (refl, refl)
]

uncounted-nodes :
    (fs : Ramfs) (n : Inode)
    → ((uncounted fs n).nodes ≡ fs.nodes) × ((uncounted fs n).root ≡ fs.root)
uncounted-nodes fs n = elim (Bool-cases (n.type == type_file)) [
  | inl y ↦ rw y (refl, refl)
  | inr m ↦ elim (Bool-cases (n.type == type_dir)) [
    | inl y ↦ rw (m, y) (refl, refl)
    | inr k ↦ rw (m, k) (refl, refl)
  ]
]

-- The inodes and the root after a deletion.
pub delete_from-nodes :
    (fs : Ramfs) (node p : ℕ)
    → ((delete_from fs node (some p)).0.nodes ≡ (unlink_from fs node p).nodes)
      × ((delete_from fs node (some p)).0.root ≡ fs.root)
unfolding delete_from unlink_from
delete_from-nodes fs node p =
    let n = inode fs.nodes node in
    let fs' = unlink_from fs node p in
    (
      (uncounted-nodes (freed fs' n) n).0 ∙ (freed-nodes fs' n).0,
      (uncounted-nodes (freed fs' n) n).1 ∙ (freed-nodes fs' n).1,
    )

-- The root and the chains, after any of the calls.
abbrev pub IsSound : Ramfs → ℕ → Type 0
IsSound fs r =
    (fs.root ≡ some r) × (r < length fs.nodes) × (parent_of fs.nodes r ≡ none) × IsTree fs.nodes

find-absent :
    (fs : Ramfs) (r node : ℕ) (q : List ℕ)
    → fs.root ≡ some r
    → r ≢ node
    → ((k : ℕ) → All (λ c. c ≢ node) (inode fs.nodes k).children)
    → ¬ (find_inode fs q ≡ some node)
unfolding find_inode walk_from
find-absent fs r node q root apart a e = elim (Bool-cases (is_zero (strcmp q slash))) [
  | inl y ↦ let at : some r ≡ some node = sym root ∙ sym (if_true _ _ _ y) ∙ e in apart (cc)
  | inr n ↦
      let ts = all_tokens (length q) slash (strncpy q (max_path - 1)) in
      walk-absent fs.nodes r node ts apart a
        (sym (ap (λ o. walk_from fs.nodes o ts) root) ∙ sym (if_false _ _ _ n) ∙ e)
]

delete_from-absent :
    (fs fs' : Ramfs) (r node : ℕ) (o : Option ℕ) (q : List ℕ)
    → IsSound fs r
    → parent_of fs.nodes node ≡ o
    → delete_from fs node o ≡ (fs', true)
    → ¬ (find_inode fs' q ≡ some node)
unfolding unlink_from delete_from
delete_from-absent fs fs' r node none q s e d =
    absurd (let b : false ≡ true = ap (λ x. x.1) d in cc)
delete_from-absent fs fs' r node (some p) q s e d =
    let same = delete_from-nodes fs node p in
    let nodes : fs'.nodes ≡ without fs.nodes node p s.3 = sym (ap (λ x. x.0.nodes) d) ∙ same.0 in
    let root : fs'.root ≡ some r = sym (ap (λ x. x.0.root) d) ∙ same.1 ∙ s.0 in
    let apart : r ≢ node =
      λ f. absurd (let b : none ≡ some p = sym s.2 ∙ ap (parent_of fs.nodes) f ∙ e in cc) in
    find-absent fs' r node q root apart (λ k.
      subst (λ ns. All (λ c. c ≢ node) (inode ns k).children) (sym nodes)
        (absent fs.nodes node p s.3 e k))

-- Where `ramfs_delete` succeeds, no path leads to the inode any more that its path led to. (The
-- inodes are sound: the root has no parent, and the chains of children make a tree.)
pub ramfs_find-ramfs_delete :
    (fs fs' : Ramfs) (r node : ℕ) (path q : List ℕ)
    → IsSound fs r
    → ramfs_find fs path ≡ some node
    → ramfs_delete fs path ≡ (fs', true)
    → ¬ (ramfs_find fs' q ≡ some node)
unfolding ramfs_find ramfs_delete delete_at
ramfs_find-ramfs_delete fs fs' r node path q s found d =
    delete_from-absent fs fs' r node (parent_of fs.nodes node) q s refl
      (sym (ap (delete_at fs) found) ∙ d)
