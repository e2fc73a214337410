-- ===== src/Blockpkg/Tests.antt =====
-- pkgmgr/blockpkg.c with two packages.
use blockos.Prelude.{ℕ, zero, suc, ◌<◌, ◌≡◌, [], ◌∷◌, some, arith, bytes_of}
use blockos.Strings.{strcmp}
use blockos.Blockpkg.{Pkgmgr, no_package, pkgmgr_install, pkgmgr_find, find_from}
use blockos.Blockpkg.Same.{IsRanked}
use blockos.Blockpkg.Install.{Returns, pkgmgr_install-Returns}

-- The editor needs the terminal.
abbrev two_packages : Pkgmgr
two_packages = record {
  packages =
      record no_package { name = bytes_of "editor"; deps = bytes_of "term" ∷ []; dep_count = 1 }
      ∷ record no_package { name = bytes_of "term" }
      ∷ [];
  count = 2;
  installed = 0;
}

-- The editor is the first.
abbrev rank : ℕ → ℕ
rank zero = 1
rank (suc i) = 0

two_packages-IsRanked : IsRanked rank two_packages
unfolding pkgmgr_find find_from strcmp
two_packages-IsRanked zero = ((λ j e. low j e), tt)
  where
    low : (j : ℕ) → some 1 ≡ some j → rank j < 1
    low zero e = absurd (cc)
    low (suc j) e = omega arith
two_packages-IsRanked (suc zero) = tt
two_packages-IsRanked (suc (suc i)) = tt

pkgmgr_install-Returns_example :
    Returns (pkgmgr_install 3 two_packages (bytes_of "editor")) two_packages (bytes_of "editor")
unfolding pkgmgr_find find_from strcmp
pkgmgr_install-Returns_example =
    pkgmgr_install-Returns rank 3 two_packages (bytes_of "editor")
      (two_packages-IsRanked, omega arith, omega arith, λ i e. of_rank i e)
  where
    of_rank : (i : ℕ) → some 0 ≡ some i → suc (rank i) < 3
    of_rank zero e = omega arith
    of_rank (suc i) e = omega arith
