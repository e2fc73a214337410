-- ===== src/Ramfs/Tree.antt =====
-- The shape of the inodes of fs/ramfs.c: what `add_child` keeps.
use blockos.Prelude.{
  ℕ, ◌≤◌, ◌<◌, ◌≡◌, ◌≢◌, ap, ◌∙◌, sym, inl, inr, ◌⊎◌, ltb, ltb→lt, List, [], ◌∷◌, Option, some,
  arith, ◌==◌, length, set, get_or-past, length-set, get_or-set_field, ==_iff, Bool-cases, subst,
}
use blockos.Slots.Laws.{All}
use blockos.Ramfs.{Inode, inode, no_inode}
use blockos.Ramfs.Hang.{hung, hung-old, hung-parent, hung-new, length-hung}
use blockos.Ramfs.Find.{InRange}

-- The chain of the children of `i`: the latest first, each behind `i` and with `i` for its parent.
abbrev pub Chain : (ℕ → Option ℕ) → ℕ → ℕ → List ℕ → Type 0
Chain parent i bound [] = Unit
Chain parent i bound (c ∷ cs) = (i < c) × (c < bound) × (parent c ≡ some i) × Chain parent i c cs

abbrev pub parent_of : List Inode → ℕ → Option ℕ
parent_of nodes c = (inode nodes c).parent

-- So no inode hangs in two places, and none below itself.
abbrev pub IsTree : List Inode → Type 0
IsTree nodes = (i : ℕ) → Chain (parent_of nodes) i (length nodes) (inode nodes i).children

pub Chain-mono :
    (parent : ℕ → Option ℕ) (i a b : ℕ) (cs : List ℕ)
    → a ≤ b
    → Chain parent i a cs
    → Chain parent i b cs
Chain-mono parent i a b [] h t = tt
Chain-mono parent i a b (c ∷ cs) h t = (t.0, omega (arith, h, t.1), t.2, t.3)

pub Chain-parent :
    (p q : ℕ → Option ℕ) (i b : ℕ) (cs : List ℕ)
    → ((c : ℕ) → c < b → p c ≡ q c)
    → Chain p i b cs
    → Chain q i b cs
Chain-parent p q i b [] h t = tt
Chain-parent p q i b (c ∷ cs) h t = (
  t.0,
  t.1,
  sym (h c t.1) ∙ t.2,
  Chain-parent p q i c cs (λ d l. h d (omega (arith, l, t.1))) t.3,
)

Chain-All :
    (p : ℕ → Option ℕ) (i b n : ℕ) (cs : List ℕ) → b ≤ n → Chain p i b cs → All (λ c. c < n) cs
Chain-All p i b n [] h t = tt
Chain-All p i b n (c ∷ cs) h t =
    (omega (arith, h, t.1), Chain-All p i c n cs (omega (arith, h, t.1)) t.3)

pub IsTree-InRange : (nodes : List Inode) → IsTree nodes → InRange nodes
IsTree-InRange nodes t i =
    Chain-All (parent_of nodes) i (length nodes) (length nodes) _ (omega arith) (t i)

-- Writes that leave the links alone.
abbrev pub SameLinks : List Inode → List Inode → Type 0
SameLinks nodes nodes' =
    (length nodes ≡ length nodes')
    × ((i : ℕ) → (inode nodes i).children ≡ (inode nodes' i).children)
    × ((i : ℕ) → parent_of nodes i ≡ parent_of nodes' i)

pub IsTree-same :
    (nodes nodes' : List Inode) → SameLinks nodes nodes' → IsTree nodes → IsTree nodes'
IsTree-same nodes nodes' s t i =
    subst (λ n. Chain (parent_of nodes') i n (inode nodes' i).children) s.0
      (subst (Chain (parent_of nodes') i (length nodes)) (s.1 i)
        (Chain-parent (parent_of nodes) (parent_of nodes') i (length nodes) _ (λ c l. s.2 c) (t i)))

pub SameLinks-set :
    (nodes : List Inode) (k : ℕ) (v : Inode)
    → (inode nodes k).children ≡ v.children
    → (inode nodes k).parent ≡ v.parent
    → SameLinks nodes (set nodes k v)
SameLinks-set nodes k v c p = (
  sym (length-set nodes k v),
  get_or-set_field (λ n. n.children) nodes k v no_inode c,
  get_or-set_field (λ n. n.parent) nodes k v no_inode p,
)

place : (i n : ℕ) → (i < n) ⊎ ((i ≡ n) ⊎ (n < i))
place i n = elim (Bool-cases (ltb i n)) [
  | inl y ↦ inl (ltb→lt i n y)
  | inr a ↦ elim (Bool-cases (i == n)) [
    | inl y ↦ inr (inl ((==_iff i n).0 y))
    | inr b ↦ inr (inr (ground (arith, a, b)))
  ]
]

-- A new inode without children, hung into `p`.
module _ (nodes : List Inode) (new : Inode) (p : ℕ) (old : p < length nodes)
    (bare : new.children ≡ []) (tree : IsTree nodes) where
  abbrev after : List Inode
  after = hung nodes new p old

  pub parent-hung : (c : ℕ) → c < length nodes → parent_of nodes c ≡ parent_of after c
  parent-hung c h = elim (Bool-cases (c == p)) [
    | inl y ↦
        subst (λ k. parent_of nodes k ≡ parent_of after k) (sym ((==_iff c p).0 y))
          (sym (ap (λ (n : Inode). n.parent) (hung-parent nodes new p old)))
    | inr n ↦ sym (
        ap (λ (n : Inode). n.parent)
          (hung-old nodes new p old c h (λ e. absurd (ground (arith, e, n)))))
  ]

  -- The old chains, seen after.
  chain : (i : ℕ) → Chain (parent_of after) i (length nodes) (inode nodes i).children
  chain i = Chain-parent (parent_of nodes) (parent_of after) i (length nodes) _ parent-hung (tree i)

  Chain-of_parent : Chain (parent_of after) p (length after) (inode after p).children
  Chain-of_parent =
      subst (λ (n : Inode). Chain (parent_of after) p (length after) n.children)
        (sym (hung-parent nodes new p old))
        (
          old,
          omega (arith, length-hung nodes new p old),
          ap (λ (n : Inode). n.parent) (hung-new nodes new p old),
          chain p,
        )

  Chain-of_old :
      (i : ℕ)
      → i < length nodes
      → i ≢ p
      → Chain (parent_of after) i (length after) (inode after i).children
  Chain-of_old i h n =
      subst (λ (m : Inode). Chain (parent_of after) i (length after) m.children)
        (sym (hung-old nodes new p old i h n))
        (Chain-mono (parent_of after) i (length nodes) (length after) _
          (omega (arith, length-hung nodes new p old)) (chain i))

  Chain-of_none :
      (i : ℕ)
      → (inode after i).children ≡ []
      → Chain (parent_of after) i (length after) (inode after i).children
  Chain-of_none i e = subst (Chain (parent_of after) i (length after)) (sym e) tt

  pub hung-IsTree : IsTree after
  hung-IsTree i = elim (Bool-cases (i == p)) [
    | inl y ↦
        subst (λ k. Chain (parent_of after) k (length after) (inode after k).children)
          (sym ((==_iff i p).0 y)) Chain-of_parent
    | inr n ↦
        let apart : i ≢ p = λ e. absurd (ground (arith, e, n)) in
        elim (place i (length nodes)) [
          | inl h ↦ Chain-of_old i h apart
          | inr (inl e) ↦ Chain-of_none i (
              ap (λ k. (inode after k).children) e
              ∙ ap (λ (m : Inode). m.children) (hung-new nodes new p old)
              ∙ bare)
          | inr (inr h) ↦ Chain-of_none i (
              ap (λ (m : Inode). m.children)
                (get_or-past after i no_inode (omega (arith, h, length-hung nodes new p old))))
        ]
  ]
