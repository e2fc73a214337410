-- ===== src/Blockpkg.antt =====
-- pkgmgr/blockpkg.c and pkgmgr/blockpkg.h: the table of packages. A pointer to a package is its place
-- in the table. A package has at most 16 dependencies, which is what its array holds. `pkgmgr_install`
-- calls itself for each of them; how deep it may go is the fuel, and `none` is what does not return.
pub mod Same
pub mod Install
pub mod Tests
use blockos.Prelude.{
  ℕ, zero, suc, ◌+◌, ◌-◌, ◌%◌, ◌^◌, Bool, true, false, List, [], ◌∷◌, Option, none, some,
  if◌then◌else◌, ◌==◌, take, get_or, set, replicate,
}
use blockos.Strings.{strcmp, is_zero}

abbrev pub max_packages : ℕ
max_packages = 1024

abbrev pub state_none : ℕ
state_none = 0

abbrev pub state_installed : ℕ
state_installed = 1

-- `package_t`
pub record Package : Type 0 where
  pub name : List ℕ
  pub version : List ℕ
  pub description : List ℕ
  pub size : ℕ
  pub state : ℕ
  pub deps : List (List ℕ)
  pub dep_count : ℕ

-- `g_packages`, `g_count` and `g_installed`
pub record Pkgmgr : Type 0 where
  pub packages : List Package
  pub count : ℕ
  pub installed : ℕ

abbrev pub no_package : Package
no_package = record {
  name = [];
  version = [];
  description = [];
  size = 0;
  state = 0;
  deps = [];
  dep_count = 0;
}

abbrev pub pkg : Pkgmgr → ℕ → Package
pkg st i = get_or st.packages i no_package

unfoldable pub pkgmgr_init : Pkgmgr → Pkgmgr × Bool
pkgmgr_init st = (record st { packages = replicate max_packages no_package }, true)

-- for (uint32_t i = 0; i < g_count; i++) if (strcmp(...) == 0) return &g_packages[i];
unfoldable pub find_from : ℕ → ℕ → Pkgmgr → List ℕ → Option ℕ
find_from zero i st name = none
find_from (suc rounds) i st name =
    let rest = find_from rounds (suc i) st name in
    if is_zero (strcmp (pkg st i).name name) then some i else rest

unfoldable pub pkgmgr_find : Pkgmgr → List ℕ → Option ℕ
unfolding find_from
pkgmgr_find st name = find_from st.count 0 st name

abbrev pub is_installed : Pkgmgr → ℕ → Bool
is_installed st i = (pkg st i).state == state_installed

abbrev pub deps_of : Pkgmgr → ℕ → List (List ℕ)
deps_of st i = take (pkg st i).dep_count (pkg st i).deps

-- pkg->state = PKG_STATE_INSTALLED; g_installed++;
unfoldable pub mark : Pkgmgr → ℕ → Pkgmgr
mark st i = record st {
  packages = set st.packages i (record (pkg st i) { state = state_installed });
  installed = (st.installed + 1) % 2 ^ 32;
}

-- for (uint32_t i = 0; i < pkg->dep_count; i++) pkgmgr_install(pkg->deps[i]);
unfoldable pub install_deps :
    (Pkgmgr → List ℕ → Option (Pkgmgr × Bool)) → Pkgmgr → List (List ℕ) → Option Pkgmgr
install_deps install st [] = some st
install_deps install st (d ∷ ds) = elim (install st d) [
  | none ↦ none
  | some (st', b) ↦ install_deps install st' ds
]

unfoldable pub installed_with : Option Pkgmgr → ℕ → Option (Pkgmgr × Bool)
unfolding mark
installed_with none i = none
installed_with (some st) i = some (mark st i, true)

-- After `pkgmgr_find` has answered.
unfoldable pub install_found :
    (Pkgmgr → List ℕ → Option (Pkgmgr × Bool)) → Pkgmgr → Option ℕ → Option (Pkgmgr × Bool)
unfolding install_deps installed_with
install_found install st none = some (st, false)
install_found install st (some i) =
    if is_installed st i
    then some (st, true)
    else installed_with (install_deps install st (deps_of st i)) i

unfoldable pub pkgmgr_install : ℕ → Pkgmgr → List ℕ → Option (Pkgmgr × Bool)
unfolding install_found pkgmgr_find
pkgmgr_install zero st name = none
pkgmgr_install (suc fuel) st name = install_found (pkgmgr_install fuel) st (pkgmgr_find st name)

remove_at : Pkgmgr → Option ℕ → Pkgmgr × Bool
remove_at st none = (st, false)
remove_at st (some i) =
    if is_installed st i
    then (
      record st {
        packages = set st.packages i (record (pkg st i) { state = state_none });
        installed = (st.installed + 2 ^ 32 - 1) % 2 ^ 32;
      },
      true,
    )
    else (st, false)

unfoldable pub pkgmgr_remove : Pkgmgr → List ℕ → Pkgmgr × Bool
unfolding remove_at
pkgmgr_remove st name = remove_at st (pkgmgr_find st name)

pub pkgmgr_update : Bool
pkgmgr_update = true

-- The installed ones of the packages from `i` on.
unfoldable pub installed_from : ℕ → ℕ → Pkgmgr → List ℕ
installed_from zero i st = []
installed_from (suc rounds) i st =
    let rest = installed_from rounds (suc i) st in if is_installed st i then i ∷ rest else rest

-- At most `max` of them.
unfoldable pub pkgmgr_list_installed : Pkgmgr → ℕ → List ℕ
unfolding installed_from
pkgmgr_list_installed st max = take max (installed_from st.count 0 st)

sizes : Pkgmgr → List ℕ → ℕ → ℕ
sizes st [] size = size
sizes st (i ∷ is) size = sizes st is ((size + (pkg st i).size) % 2 ^ 32)

-- Total, installed, and the bytes of those installed.
unfoldable pub pkgmgr_stats : Pkgmgr → ℕ × ℕ × ℕ
unfolding sizes installed_from
pkgmgr_stats st = (st.count, st.installed, sizes st (installed_from st.count 0 st) 0)
