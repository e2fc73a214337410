-- ===== src/Ramfs/Find.antt =====
-- Looking a path up in fs/ramfs.c after a file was created: `find_inode` and `ramfs_create_file`.
use blockos.Prelude.{
  ℕ, ◌<◌, ◌≡◌, ◌≢◌, refl, ap, ◌∙◌, sym, inl, inr, true, List, [], ◌∷◌, ◌++◌, none, some, arith,
  if◌then◌else◌, ◌==◌, length, ==_iff, Bool-cases, Option-cases, if_true, if_false, subst,
}
use blockos.Slots.Laws.{All}
use blockos.Strings.{strcmp, is_zero}
use blockos.Strings.Compare.{IsCString, strcmp_eq_iff, strcmp_self}
use blockos.Ramfs.{Inode, inode, child_named, walk}
use blockos.Ramfs.Hang.{hung, hung-old, hung-parent, hung-new}

-- Every child is in the list.
abbrev pub InRange : List Inode → Type 0
InRange nodes = (i : ℕ) → All (λ c. c < length nodes) (inode nodes i).children

module _ (nodes : List Inode) where
  -- The child that is found is one of the children.
  pub child_named-All :
      (P : ℕ → Type 0) (cs token : List ℕ) (c : ℕ)
      → All P cs
      → child_named nodes cs token ≡ some c
      → P c
  unfolding child_named
  child_named-All P [] token c a e = ground arith
  child_named-All P (x ∷ cs) token c a e =
      elim (Bool-cases (is_zero (strcmp (inode nodes x).name token))) [
        | inl y ↦
            let same : some x ≡ some c = sym (if_true _ _ _ y) ∙ e in
            let xc : x ≡ c = cc in subst P xc a.0
        | inr n ↦ child_named-All P cs token c a.1 (sym (if_false _ _ _ n) ∙ e)
      ]

  pub walk-none :
      (i : ℕ) (token : List ℕ) (ts : List (List ℕ))
      → child_named nodes (inode nodes i).children token ≡ none
      → walk nodes i (token ∷ ts) ≡ none
  unfolding walk
  walk-none i token ts e = rw (e, walk)

  pub walk-some :
      (i c : ℕ) (token : List ℕ) (ts : List (List ℕ))
      → child_named nodes (inode nodes i).children token ≡ some c
      → walk nodes i (token ∷ ts) ≡ walk nodes c ts
  unfolding walk
  walk-some i c token ts e = rw (e, walk)

  pub walk-InRange :
      (i j : ℕ) (ts : List (List ℕ))
      → InRange nodes
      → i < length nodes
      → walk nodes i ts ≡ some j
      → j < length nodes
  unfolding walk
  walk-InRange i j [] r h e = let ij : i ≡ j = cc in subst (λ k. k < length nodes) ij h
  walk-InRange i j (token ∷ ts) r h e =
      elim (Option-cases (child_named nodes (inode nodes i).children token)) [
        | inl n ↦ absurd (let q : none ≡ some j = sym (walk-none i token ts n) ∙ e in cc)
        | inr (c, y) ↦
            walk-InRange c j ts r (child_named-All (λ k. k < length nodes) _ token c (r i) y)
              (sym (walk-some i c token ts y) ∙ e)
      ]

  -- One more token.
  pub walk-append :
      (i j : ℕ) (ts us : List (List ℕ))
      → walk nodes i ts ≡ some j
      → walk nodes i (ts ++ us) ≡ walk nodes j us
  unfolding walk
  walk-append i j [] us e = let ij : i ≡ j = cc in ap (λ k. walk nodes k us) ij
  walk-append i j (token ∷ ts) us e =
      elim (Option-cases (child_named nodes (inode nodes i).children token)) [
        | inl n ↦ absurd (let q : none ≡ some j = sym (walk-none i token ts n) ∙ e in cc)
        | inr (c, y) ↦
            walk-some i c token (ts ++ us) y
            ∙ walk-append c j ts us (sym (walk-some i c token ts y) ∙ e)
      ]

  -- What a walk of one token that fails says of the directory.
  pub child_named-none :
      (i : ℕ) (token : List ℕ)
      → walk nodes i (token ∷ []) ≡ none
      → child_named nodes (inode nodes i).children token ≡ none
  unfolding walk
  child_named-none i token e =
      elim (Option-cases (child_named nodes (inode nodes i).children token)) [
        | inl n ↦ n
        | inr (c, y) ↦ absurd (let q : some c ≡ none = sym (walk-some i c token [] y) ∙ e in cc)
      ]

-- A file with a new name in a directory `p`.
module _ (nodes : List Inode) (new : Inode) (p : ℕ) (old : p < length nodes) (r : InRange nodes)
    (c_string : IsCString new.name)
    (fresh : child_named nodes (inode nodes p).children new.name ≡ none) where
  abbrev after : List Inode
  after = hung nodes new p old

  name-hung : (i : ℕ) → i < length nodes → (inode after i).name ≡ (inode nodes i).name
  name-hung i h = elim (Bool-cases (i == p)) [
    | inl y ↦
        let ip : i ≡ p = (==_iff i p).0 y in
        subst (λ k. (inode after k).name ≡ (inode nodes k).name) (sym ip)
          (ap (λ (n : Inode). n.name) (hung-parent nodes new p old))
    | inr n ↦
        let apart : i ≢ p = λ e. absurd (ground (arith, e, n)) in
        ap (λ (n : Inode). n.name) (hung-old nodes new p old i h apart)
  ]

  child_named-hung :
      (cs token : List ℕ)
      → All (λ c. c < length nodes) cs
      → child_named after cs token ≡ child_named nodes cs token
  unfolding child_named
  child_named-hung [] token a = refl
  child_named-hung (c ∷ cs) token a = rw (name-hung c a.0) (
      ap (λ rest. if is_zero (strcmp (inode nodes c).name token) then some c else rest)
        (child_named-hung cs token a.1))

  child_named-new : child_named after (inode after p).children new.name ≡ some (length nodes)
  unfolding child_named
  child_named-new =
      let named : (inode after (length nodes)).name ≡ new.name =
        ap (λ (n : Inode). n.name) (hung-new nodes new p old) in
      let same : is_zero (strcmp (inode after (length nodes)).name new.name) ≡ true =
        subst (λ s. is_zero (strcmp s new.name) ≡ true) (sym named) (strcmp_self new.name) in
      ap (λ (n : Inode). child_named after n.children new.name) (hung-parent nodes new p old)
      ∙ if_true _ _ _ same

  -- The new name is no token that is found in `p`.
  child_named-parent :
      (c : ℕ) (token : List ℕ)
      → IsCString token
      → child_named nodes (inode nodes p).children token ≡ some c
      → child_named after (inode after p).children token ≡ some c
  unfolding child_named
  child_named-parent c token s e =
      elim (Bool-cases (is_zero (strcmp (inode after (length nodes)).name token))) [
        | inl y ↦
            let named : (inode after (length nodes)).name ≡ new.name =
              ap (λ (n : Inode). n.name) (hung-new nodes new p old) in
            let same : new.name ≡ token =
              (strcmp_eq_iff new.name token c_string s).0
                (subst (λ t. is_zero (strcmp t token) ≡ true) named y) in
            let gone : some c ≡ none =
              sym e ∙ ap (child_named nodes (inode nodes p).children) (sym same) ∙ fresh in
            absurd (cc)
        | inr n ↦
            ap (λ (m : Inode). child_named after m.children token) (hung-parent nodes new p old)
            ∙ if_false _ _ _ n
            ∙ child_named-hung (inode nodes p).children token (r p)
            ∙ e
      ]

  child_named-after :
      (i c : ℕ) (token : List ℕ)
      → i < length nodes
      → IsCString token
      → child_named nodes (inode nodes i).children token ≡ some c
      → child_named after (inode after i).children token ≡ some c
  child_named-after i c token h s e = elim (Bool-cases (i == p)) [
    | inl y ↦
        let ip : p ≡ i = sym ((==_iff i p).0 y) in
        subst
          (λ k.
            child_named nodes (inode nodes k).children token ≡ some c
            → child_named after (inode after k).children token ≡ some c)
          ip (child_named-parent c token s) e
    | inr n ↦
        let apart : i ≢ p = λ e. absurd (ground (arith, e, n)) in
        ap (λ (m : Inode). child_named after m.children token) (hung-old nodes new p old i h apart)
        ∙ child_named-hung (inode nodes i).children token (r i)
        ∙ e
  ]

  -- What was found is found.
  pub walk-hung :
      (i j : ℕ) (ts : List (List ℕ))
      → i < length nodes
      → All IsCString ts
      → walk nodes i ts ≡ some j
      → walk after i ts ≡ some j
  unfolding walk
  walk-hung i j [] h s e = e
  walk-hung i j (token ∷ ts) h s e =
      elim (Option-cases (child_named nodes (inode nodes i).children token)) [
        | inl n ↦ absurd (let q : none ≡ some j = sym (walk-none nodes i token ts n) ∙ e in cc)
        | inr (c, y) ↦
            walk-some after i c token ts (child_named-after i c token h s.0 y)
            ∙ walk-hung c j ts (child_named-All nodes (λ k. k < length nodes) _ token c (r i) y) s.1
                (sym (walk-some nodes i c token ts y) ∙ e)
      ]

  -- And behind the directory's own path, the new name leads to the new file.
  pub walk-new :
      (i : ℕ) (ts : List (List ℕ))
      → i < length nodes
      → All IsCString ts
      → walk nodes i ts ≡ some p
      → walk after i (ts ++ new.name ∷ []) ≡ some (length nodes)
  unfolding walk
  walk-new i ts h s e =
      walk-append after i p ts (new.name ∷ []) (walk-hung i p ts h s e)
      ∙ walk-some after p (length nodes) new.name [] child_named-new
