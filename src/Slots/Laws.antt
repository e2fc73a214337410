-- ===== src/Slots/Laws.antt =====
-- Lookups in a table after a write, predicates on every slot, and a table seen through a function.
use mathlib.Core.Option
use blockos.Prelude.{
  ℕ, zero, suc, ◌≡◌, refl, ap, Bool, List, [], ◌∷◌, map, Option, none, some, ℤ, pos, negsuc, arith,
  get_elem?, set, modify, replicate, subst,
}
use blockos.Slots.{slot, slot_set, first_free}

module _ {ℓ κ} {A : Type ℓ} (P : A → Type κ) where
  abbrev pub All : List A → Type κ
  All [] = Unit {κ}
  All (x ∷ xs) = P x × All xs

  pub All-get : (xs : List A) (i : ℕ) {a : A} → All xs → get_elem? xs i ≡ some a → P a
  All-get [] i h e = ground arith
  All-get (x ∷ xs) zero h e = subst P (ground arith) h.0
  All-get (x ∷ xs) (suc i) h e = All-get xs i h.1 e

  pub All-set : (xs : List A) (i : ℕ) (a : A) → All xs → P a → All (set xs i a)
  All-set [] i a h p = tt
  All-set (x ∷ xs) zero a h p = (p, h.1)
  All-set (x ∷ xs) (suc i) a h p = (h.0, All-set xs i a h.1 p)

  pub All-modify :
      (xs : List A) (i : ℕ) (f : A → A) → All xs → ((a : A) → P a → P (f a)) → All (modify xs i f)
  All-modify [] i f h p = tt
  All-modify (x ∷ xs) zero f h p = (p x h.0, h.1)
  All-modify (x ∷ xs) (suc i) f h p = (h.0, All-modify xs i f h.1 p)

  pub All-replicate : (n : ℕ) (a : A) → P a → All (replicate n a)
  All-replicate zero a p = tt
  All-replicate (suc n) a p = (p, All-replicate n a p)

  pub All-slot : (xs : List A) (fd : ℤ) {a : A} → All xs → slot xs fd ≡ some a → P a
  All-slot xs (pos i) h e = All-get xs i h e
  All-slot xs (negsuc n) h e = absurd (none-ne-some e)
    where
      none-ne-some : {a : A} → ¬ (◌≡◌ {A = Option A} none (some a))
      none-ne-some q = ground arith

  pub All-slot_set : (xs : List A) (fd : ℤ) (a : A) → All xs → P a → All (slot_set xs fd a)
  unfolding slot_set
  All-slot_set xs (pos i) a h p = All-set xs i a h p
  All-slot_set xs (negsuc n) a h p = h

module _ {ℓ κ} {A : Type ℓ} {B : Type κ} (f : A → B) where
  pub map-set : (xs : List A) (i : ℕ) (a : A) → map f (set xs i a) ≡ set (map f xs) i (f a)
  map-set [] i a = refl
  map-set (x ∷ xs) zero a = refl
  map-set (x ∷ xs) (suc i) a = ap (◌∷◌ (f x)) (map-set xs i a)

  pub map-replicate : (n : ℕ) (a : A) → map f (replicate n a) ≡ replicate n (f a)
  map-replicate zero a = refl
  map-replicate (suc n) a = ap (◌∷◌ (f a)) (map-replicate n a)

  pub map-modify_const :
      (xs : List A) (i : ℕ) (g : A → A) (b : B)
      → ((a : A) → f (g a) ≡ b)
      → map f (modify xs i g) ≡ set (map f xs) i b
  map-modify_const [] i g b h = refl
  map-modify_const (x ∷ xs) zero g b h = ap (λ t. t ∷ map f xs) (h x)
  map-modify_const (x ∷ xs) (suc i) g b h = ap (◌∷◌ (f x)) (map-modify_const xs i g b h)

  pub map-slot_set :
      (xs : List A) (fd : ℤ) (a : A) → map f (slot_set xs fd a) ≡ slot_set (map f xs) fd (f a)
  unfolding slot_set
  map-slot_set xs (pos i) a = map-set xs i a
  map-slot_set xs (negsuc n) a = refl

  pub get_elem?-map : (xs : List A) (i : ℕ) → get_elem? (map f xs) i ≡ Option.map f (get_elem? xs i)
  get_elem?-map [] i = refl
  get_elem?-map (x ∷ xs) zero = refl
  get_elem?-map (x ∷ xs) (suc i) = get_elem?-map xs i

  pub slot-map : (xs : List A) (fd : ℤ) → slot (map f xs) fd ≡ Option.map f (slot xs fd)
  slot-map xs (pos i) = get_elem?-map xs i
  slot-map xs (negsuc n) = refl

  -- Where `f` keeps the flag, the first free slot is the same.
  pub first_free-map :
      (on : A → Bool) (on' : B → Bool)
      → ((a : A) → on' (f a) ≡ on a)
      → (xs : List A) → first_free on' (map f xs) ≡ first_free on xs
  unfolding first_free
  first_free-map on on' h [] = refl
  first_free-map on on' h (x ∷ xs) = rw (h x, first_free-map on on' h xs)

-- A write of what is already there changes nothing.
pub slot_set_same {ℓ} :
    {A : Type ℓ} (xs : List A) (fd : ℤ) {a : A} → slot xs fd ≡ some a → slot_set xs fd a ≡ xs
unfolding slot_set
slot_set_same xs (negsuc n) e = refl
slot_set_same {A} xs (pos i) {a} e = go xs i e
  where
    go : (ys : List A) (j : ℕ) → get_elem? ys j ≡ some a → set ys j a ≡ ys
    go [] j q = refl
    go (y ∷ ys) zero q = ground arith
    go (y ∷ ys) (suc j) q = ap (◌∷◌ y) (go ys j q)
