-- ===== src/Blockpkg/Install.antt =====
-- What `pkgmgr_install` of pkgmgr/blockpkg.c installs, and that it returns.
use blockos.Prelude.{
  ℕ, zero, suc, ◌≤◌, ◌<◌, ◌≡◌, refl, ◌∙◌, sym, inl, inr, Bool, true, false, List, [], ◌∷◌, Option,
  none, some, arith, length, Bool-cases, if_true, if_false, subst,
}
use blockos.Slots.Laws.{All}
use blockos.Blockpkg.{
  Pkgmgr, pkgmgr_find, is_installed, deps_of, mark, install_deps, installed_with, install_found,
  pkgmgr_install,
}
use blockos.Blockpkg.Same.{
  IsSame, Keeps, Has, IsClosed, IsRanked, find_from-lt, pkgmgr_find-same, IsSame-trans,
  IsRanked-same, mark-IsSame, mark-installed, mark-Keeps, mark-IsClosed,
}

-- A call that returns, and what it did.
abbrev pub Done : Pkgmgr → List ℕ → Pkgmgr → Bool → Type 0
Done st name st' b =
    IsSame st st'
    × Keeps st st'
    × (IsClosed st → IsClosed st')
    × ((i : ℕ) → pkgmgr_find st name ≡ some i → (b ≡ true) × (is_installed st' i ≡ true))

abbrev pub Returns : Option (Pkgmgr × Bool) → Pkgmgr → List ℕ → Type 0
Returns o st name = (st' : Pkgmgr) × (b : Bool) × (o ≡ some (st', b)) × Done st name st' b

abbrev Installs : Option Pkgmgr → Pkgmgr → List (List ℕ) → Type 0
Installs o st ds =
    (st' : Pkgmgr) × (o ≡ some st')
    × IsSame st st'
    × Keeps st st'
    × (IsClosed st → IsClosed st')
    × Has st' ds

IsSame-refl : (st : Pkgmgr) → IsSame st st
IsSame-refl st = (refl, refl, λ i. refl, λ i. refl)

module _ (install : Pkgmgr → List ℕ → Option (Pkgmgr × Bool)) (low : Pkgmgr → List ℕ → Type 0)
    (low_same : (st st' : Pkgmgr) (d : List ℕ) → IsSame st st' → low st d → low st' d)
    (returns : (st : Pkgmgr) (d : List ℕ) → low st d → Returns (install st d) st d) where
  All-low :
      (st st' : Pkgmgr) (ds : List (List ℕ)) → IsSame st st' → All (low st) ds → All (low st') ds
  All-low st st' [] s a = tt
  All-low st st' (d ∷ ds) s a = (low_same st st' d s a.0, All-low st st' ds s a.1)

  install_deps-Installs :
      (st : Pkgmgr) (ds : List (List ℕ))
      → All (low st) ds
      → Installs (install_deps install st ds) st ds
  unfolding install_deps
  install_deps-Installs st [] a = (st, refl, IsSame-refl st, (λ i e. e), (λ c. c), tt)
  install_deps-Installs st (d ∷ ds) a =
      let (st1, b, e1, (s1, k1, c1, i1)) = returns st d a.0 in
      let (st2, e2, s2, k2, c2, has2) = install_deps-Installs st1 ds (All-low st st1 ds s1 a.1) in
      let same = IsSame-trans st st1 st2 s1 s2 in
      (
        st2,
        rw (e1, install_deps) e2,
        same,
        (λ i e. k2 i (k1 i e)),
        (λ c. c2 (c1 c)),
        ((λ j e. k2 j (i1 j (pkgmgr_find-same st st2 d same ∙ e)).1), has2),
      )

-- Dependencies that go down, in a table that has room, and packages whose rank the fuel is more than.
abbrev pub IsLow : (ℕ → ℕ) → ℕ → Pkgmgr → List ℕ → Type 0
IsLow rank fuel st name =
    IsRanked rank st
    × (st.count ≤ length st.packages)
    × (0 < fuel)
    × ((i : ℕ) → pkgmgr_find st name ≡ some i → suc (rank i) < fuel)

module _ (rank : ℕ → ℕ) where
  IsLow-same :
      (fuel : ℕ) (st st' : Pkgmgr) (d : List ℕ)
      → IsSame st st'
      → IsLow rank fuel st d
      → IsLow rank fuel st' d
  IsLow-same fuel st st' d s l = (
    IsRanked-same rank st st' s l.0,
    omega (arith, s.0, s.1, l.1),
    l.2,
    λ i e. l.3 i (pkgmgr_find-same st st' d s ∙ e),
  )

  -- The dependencies of a package are low, with one less.
  deps-IsLow :
      (fuel i : ℕ) (st : Pkgmgr) (ds : List (List ℕ))
      → IsRanked rank st
      → st.count ≤ length st.packages
      → suc (rank i) < suc fuel
      → All (λ d. (j : ℕ) → pkgmgr_find st d ≡ some j → rank j < rank i) ds
      → All (IsLow rank fuel st) ds
  deps-IsLow fuel i st [] r room f a = tt
  deps-IsLow fuel i st (d ∷ ds) r room f a = (
    (r, room, omega (arith, f), λ j e. omega (arith, f, a.0 j e)),
    deps-IsLow fuel i st ds r room f a.1,
  )

  installed_with-Returns :
      (o : Option Pkgmgr) (st : Pkgmgr) (name : List ℕ) (i : ℕ)
      → st.count ≤ length st.packages
      → pkgmgr_find st name ≡ some i
      → i < st.count
      → Installs o st (deps_of st i)
      → Returns (installed_with o i) st name
  unfolding installed_with
  installed_with-Returns o st name i room found h (st1, e, s, k, c, has) =
      let in1 : i < length st1.packages = omega (arith, h, room, s.1) in
      let deps = subst (Has st1) (s.3 i) has in
      (
        mark st1 i,
        true,
        rw e refl,
        (
          IsSame-trans st st1 (mark st1 i) s (mark-IsSame st1 i),
          λ j y. mark-Keeps st1 i in1 j (k j y),
          λ closed. mark-IsClosed st1 i in1 deps (c closed),
          λ j q. (
            refl,
            (let ij : i ≡ j = some-eq (sym found ∙ q) in
                subst (λ m. is_installed (mark st1 i) m ≡ true) ij (mark-installed st1 i in1)),
          ),
        ),
      )
    where
      some-eq : {a b : ℕ} → some a ≡ some b → a ≡ b
      some-eq q = cc

  install_found-Returns :
      (fuel : ℕ) (st : Pkgmgr) (name : List ℕ) (o : Option ℕ)
      → ((st : Pkgmgr) (d : List ℕ)
          → IsLow rank fuel st d
          → Returns (pkgmgr_install fuel st d) st d)
      → pkgmgr_find st name ≡ o
      → IsLow rank (suc fuel) st name
      → Returns (install_found (pkgmgr_install fuel) st o) st name
  unfolding install_found pkgmgr_find
  install_found-Returns fuel st name none ih found l = (
    st,
    false,
    refl,
    (
      IsSame-refl st,
      λ i e. e,
      λ c. c,
      λ i q. absurd (let gone : none ≡ some i = sym found ∙ q in cc),
    ),
  )
  install_found-Returns fuel st name (some i) ih found l = elim (Bool-cases (is_installed st i)) [
    | inl y ↦ (
      st,
      true,
      if_true _ _ _ y,
      (
        IsSame-refl st,
        λ j e. e,
        λ c. c,
        λ j q. (
          refl,
          (let same : some i ≡ some j = sym found ∙ q in
              let ij : i ≡ j = cc in subst (λ m. is_installed st m ≡ true) ij y),
        ),
      ),
    )
    | inr n ↦
        let deps =
          install_deps-Installs (pkgmgr_install fuel) (IsLow rank fuel) (IsLow-same fuel) ih st
            (deps_of st i) (deps-IsLow fuel i st (deps_of st i) l.0 l.1 (l.3 i found) (l.0 i)) in
        subst (λ r. Returns r st name) (sym (if_false _ _ _ n))
          (installed_with-Returns (install_deps (pkgmgr_install fuel) st (deps_of st i)) st name i
            l.1 found (omega (arith, find_from-lt st.count 0 i st name found)) deps)
  ]

  -- Where the dependencies of every package that are packages have a smaller rank than it, so that
  -- none depends on itself, and with more fuel than one more than the rank of the package asked for,
  -- `pkgmgr_install` returns. It changes nothing but states, what was installed stays installed, if
  -- every installed package had its dependencies installed that is so after it too, and the package
  -- asked for, if there is one, is installed and the answer true.
  pub pkgmgr_install-Returns :
      (fuel : ℕ) (st : Pkgmgr) (name : List ℕ)
      → IsLow rank fuel st name
      → Returns (pkgmgr_install fuel st name) st name
  unfolding pkgmgr_install
  pkgmgr_install-Returns zero st name l = absurd (omega (arith, l.2))
  pkgmgr_install-Returns (suc fuel) st name l =
      install_found-Returns fuel st name (pkgmgr_find st name) (pkgmgr_install-Returns fuel) refl l
