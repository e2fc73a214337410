-- ===== src/Slots.antt =====
-- Fixed tables of slots with an `active` flag: the search `for (i = 0; i < N; i++) if (!t[i].active)`
-- that kernel/ipc.c, vfs.c and network/network.c share. A table is the list of its N slots, so the
-- guard `fd < 0 || fd >= N` is a lookup that finds nothing.
pub mod Laws
use mathlib.Core.Option
use blockos.Prelude.{
  ℕ, zero, suc, ◌+◌, ◌<◌, ◌≤◌, ◌≡◌, refl, Bool, true, false, List, [], ◌∷◌, Option, none, some, ℤ,
  pos, negsuc, arith, if◌then◌else◌, get_elem?, set, length,
}

abbrev pub slot {ℓ} : {A : Type ℓ} → List A → ℤ → Option A
slot xs (pos i) = get_elem? xs i
slot xs (negsuc n) = none

-- A write through a descriptor that has a slot.
unfoldable pub slot_set {ℓ} : {A : Type ℓ} → List A → ℤ → A → List A
slot_set xs (pos i) a = set xs i a
slot_set xs (negsuc n) a = xs

abbrev pub bit : Bool → ℕ
bit true = 1
bit false = 0

module _ {ℓ} {A : Type ℓ} (active : A → Bool) where
  unfoldable pub first_free : List A → Option ℕ
  first_free [] = none
  first_free (x ∷ xs) = if active x then Option.map suc (first_free xs) else some 0

  abbrev pub AllActive : List A → Type 0
  AllActive [] = Unit {0}
  AllActive (x ∷ xs) = (active x ≡ true) × AllActive xs

  unfoldable pub count_active : List A → ℕ
  count_active [] = 0
  count_active (x ∷ xs) = bit (active x) + count_active xs

  map-suc-ne-zero : (o : Option ℕ) → ¬ (Option.map suc o ≡ some 0)
  map-suc-ne-zero none e = ground arith
  map-suc-ne-zero (some n) e = ground arith

  map-suc_inj : (o : Option ℕ) (i : ℕ) → Option.map suc o ≡ some (suc i) → o ≡ some i
  map-suc_inj none i e = ground arith
  map-suc_inj (some n) i e = ground arith

  tail_found :
      (x : A) (xs : List A) (i : ℕ) → first_free (x ∷ xs) ≡ some (suc i) → first_free xs ≡ some i
  unfolding first_free
  tail_found x xs i e = ground (arith, map-suc_inj (first_free xs) i)

  pub first_free-inactive :
      (xs : List A) (i : ℕ)
      → first_free xs ≡ some i
      → (a : A) × (get_elem? xs i ≡ some a) × (active a ≡ false)
  unfolding first_free
  first_free-inactive [] i e = ground arith
  first_free-inactive (x ∷ xs) zero e = (x, refl, ground (arith, map-suc-ne-zero (first_free xs)))
  first_free-inactive (x ∷ xs) (suc i) e = first_free-inactive xs i (tail_found x xs i e)

  pub first_free_least :
      (xs : List A) (i j : ℕ) {b : A}
      → first_free xs ≡ some i
      → j < i
      → get_elem? xs j ≡ some b
      → active b ≡ true
  unfolding first_free
  first_free_least [] i j e h g = ground arith
  first_free_least (x ∷ xs) zero j e h g = elim h [ ]
  first_free_least (x ∷ xs) (suc i) zero e h g = ground arith
  first_free_least (x ∷ xs) (suc i) (suc j) e h g =
      first_free_least xs i j (tail_found x xs i e) (omega arith) g

  pub first_free-none : (xs : List A) → first_free xs ≡ none → AllActive xs
  unfolding first_free
  first_free-none [] e = tt
  first_free-none (x ∷ xs) e = ground (arith, first_free-none xs)

  pub count_active-set :
      (xs : List A) (i : ℕ) (b : A) {a : A}
      → get_elem? xs i ≡ some a
      → count_active (set xs i b) + bit (active a) ≡ count_active xs + bit (active b)
  unfolding count_active
  count_active-set [] i b e = ground arith
  count_active-set (x ∷ xs) zero b e = ground arith
  count_active-set (x ∷ xs) (suc i) b e = omega (arith, count_active-set xs i b e)

  pub count_active-le : (xs : List A) → count_active xs ≤ length xs
  unfolding count_active
  count_active-le [] = omega arith
  count_active-le (x ∷ xs) = ground (arith, count_active-le xs)
