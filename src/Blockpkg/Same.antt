-- ===== src/Blockpkg/Same.antt =====
-- The packages of pkgmgr/blockpkg.c while states change: what stays, and what installing one adds.
use blockos.Prelude.{
  ℕ, zero, suc, ◌+◌, ◌<◌, ◌≡◌, refl, ap, ◌∙◌, sym, inl, inr, true, false, List, [], ◌∷◌, some,
  arith, if◌then◌else◌, ◌==◌, length, take, get_or-set_self, get_or-set_ne, length-set, ==_iff, ◌≢◌,
  get_or-set_field, Bool-cases, if_true, if_false, subst,
}
use blockos.Slots.Laws.{All}
use blockos.Strings.{strcmp, is_zero}
use blockos.Blockpkg.{
  Package, Pkgmgr, no_package, pkg, find_from, pkgmgr_find, is_installed, deps_of, state_installed,
  mark,
}

-- The same packages, in whatever state.
abbrev pub IsSame : Pkgmgr → Pkgmgr → Type 0
IsSame st st' =
    (st.count ≡ st'.count)
    × (length st.packages ≡ length st'.packages)
    × ((i : ℕ) → (pkg st i).name ≡ (pkg st' i).name)
    × ((i : ℕ) → deps_of st i ≡ deps_of st' i)

-- What was installed is.
abbrev pub Keeps : Pkgmgr → Pkgmgr → Type 0
Keeps st st' = (i : ℕ) → is_installed st i ≡ true → is_installed st' i ≡ true

-- Each dependency of the list that is a package is installed.
abbrev pub Has : Pkgmgr → List (List ℕ) → Type 0
Has st = All (λ d. (j : ℕ) → pkgmgr_find st d ≡ some j → is_installed st j ≡ true)

-- An installed package has its dependencies installed.
abbrev pub IsClosed : Pkgmgr → Type 0
IsClosed st = (i : ℕ) → is_installed st i ≡ true → Has st (deps_of st i)

-- Dependencies go down in rank, so there is no cycle.
abbrev pub IsRanked : (ℕ → ℕ) → Pkgmgr → Type 0
IsRanked rank st =
    (i : ℕ) → All (λ d. (j : ℕ) → pkgmgr_find st d ≡ some j → rank j < rank i) (deps_of st i)

find_from-same :
    (rounds i : ℕ) (st st' : Pkgmgr) (name : List ℕ)
    → ((k : ℕ) → (pkg st k).name ≡ (pkg st' k).name)
    → find_from rounds i st name ≡ find_from rounds i st' name
unfolding find_from
find_from-same zero i st st' name e = refl
find_from-same (suc rounds) i st st' name e =
    ap (λ n. if is_zero (strcmp n name) then some i else find_from rounds (suc i) st name) (e i)
    ∙ ap (λ rest. if is_zero (strcmp (pkg st' i).name name) then some i else rest)
        (find_from-same rounds (suc i) st st' name e)

pub pkgmgr_find-same :
    (st st' : Pkgmgr) (name : List ℕ) → IsSame st st' → pkgmgr_find st name ≡ pkgmgr_find st' name
unfolding pkgmgr_find
pkgmgr_find-same st st' name s =
    find_from-same st.count 0 st st' name s.2 ∙ ap (λ n. find_from n 0 st' name) s.0

pub IsSame-trans : (a b c : Pkgmgr) → IsSame a b → IsSame b c → IsSame a c
IsSame-trans a b c s t = (s.0 ∙ t.0, s.1 ∙ t.1, λ i. s.2 i ∙ t.2 i, λ i. s.3 i ∙ t.3 i)

-- With more installed, what was there is there.
Has-same :
    (st st' : Pkgmgr) (ds : List (List ℕ)) → IsSame st st' → Keeps st st' → Has st ds → Has st' ds
Has-same st st' [] s k h = tt
Has-same st st' (d ∷ ds) s k h =
    (λ j e. k j (h.0 j (pkgmgr_find-same st st' d s ∙ e)), Has-same st st' ds s k h.1)

Ranked-All :
    (rank : ℕ → ℕ) (i : ℕ) (st st' : Pkgmgr) (ds : List (List ℕ))
    → IsSame st st'
    → All (λ d. (j : ℕ) → pkgmgr_find st d ≡ some j → rank j < rank i) ds
    → All (λ d. (j : ℕ) → pkgmgr_find st' d ≡ some j → rank j < rank i) ds
Ranked-All rank i st st' [] s a = tt
Ranked-All rank i st st' (d ∷ ds) s a =
    (λ j e. a.0 j (pkgmgr_find-same st st' d s ∙ e), Ranked-All rank i st st' ds s a.1)

pub IsRanked-same :
    (rank : ℕ → ℕ) (st st' : Pkgmgr) → IsSame st st' → IsRanked rank st → IsRanked rank st'
IsRanked-same rank st st' s r i =
    subst (All (λ d. (j : ℕ) → pkgmgr_find st' d ≡ some j → rank j < rank i)) (s.3 i)
      (Ranked-All rank i st st' (deps_of st i) s (r i))

pub find_from-lt :
    (rounds i j : ℕ) (st : Pkgmgr) (name : List ℕ)
    → find_from rounds i st name ≡ some j
    → j < i + rounds
unfolding find_from
find_from-lt zero i j st name e = absurd (cc)
find_from-lt (suc rounds) i j st name e =
    elim (Bool-cases (is_zero (strcmp (pkg st i).name name))) [
      | inl y ↦
          let at : some i ≡ some j = sym (if_true _ _ _ y) ∙ e in
          let ij : i ≡ j = cc in omega (arith, ij)
      | inr n ↦ omega (arith, find_from-lt rounds (suc i) j st name (sym (if_false _ _ _ n) ∙ e))
    ]

-- Marking one package.
module _ (st : Pkgmgr) (i : ℕ) where
  abbrev one : Package
  one = record (pkg st i) { state = state_installed }

  pub mark-IsSame : IsSame st (mark st i)
  unfolding mark
  mark-IsSame = (
    refl,
    sym (length-set st.packages i one),
    get_or-set_field (λ p. p.name) st.packages i one no_package refl,
    get_or-set_field (λ p. take p.dep_count p.deps) st.packages i one no_package refl,
  )

  module _ (h : i < length st.packages) where
    marked : pkg (mark st i) i ≡ one
    unfolding mark
    marked = get_or-set_self st.packages i one no_package h

    others : (j : ℕ) → i ≢ j → pkg (mark st i) j ≡ pkg st j
    unfolding mark
    others j n = get_or-set_ne st.packages i j one no_package n

    pub mark-installed : is_installed (mark st i) i ≡ true
    mark-installed = ap (λ (p : Package). p.state == state_installed) marked

    apart : (j : ℕ) → (i == j) ≡ false → i ≢ j
    apart j n e = absurd (ground (arith, e, n))

    pub mark-Keeps : Keeps st (mark st i)
    mark-Keeps j e = elim (Bool-cases (i == j)) [
      | inl y ↦ subst (λ k. is_installed (mark st i) k ≡ true) ((==_iff i j).0 y) mark-installed
      | inr n ↦ ap (λ (p : Package). p.state == state_installed) (others j (apart j n)) ∙ e
    ]

    mark-Has : (j : ℕ) → Has st (deps_of st j) → Has (mark st i) (deps_of (mark st i) j)
    mark-Has j has =
        subst (Has (mark st i)) (mark-IsSame.3 j)
          (Has-same st (mark st i) (deps_of st j) mark-IsSame mark-Keeps has)

    pub mark-IsClosed : Has st (deps_of st i) → IsClosed st → IsClosed (mark st i)
    mark-IsClosed has c j e = elim (Bool-cases (i == j)) [
      | inl y ↦ mark-Has j (subst (λ k. Has st (deps_of st k)) ((==_iff i j).0 y) has)
      | inr n ↦
          mark-Has j (
            c j (sym (ap (λ (p : Package). p.state == state_installed) (others j (apart j n))) ∙ e))
    ]
