-- ===== src/Strings/Compare.antt =====
-- What the results of the string functions say of their arguments.
use mathlib.Core.Path.{ap₂}
use blockos.Prelude.{
  ℕ, zero, suc, ◌-◌, ◌<◌, ◌≡◌, refl, ◌↔◌, inl, inr, true, false, List, [], ◌∷◌, ◌++◌, pos, arith,
  ◌==◌, ltb, length, Bool-cases, ==_refl, ==_iff, subst, sym,
}
use blockos.Slots.Laws.{All}
use blockos.Strings.{byte_diff, strcmp, strncmp, is_zero}

-- No byte of the string is NUL.
abbrev pub IsCString : List ℕ → Type 0
IsCString = All (λ c. 0 < c)

zero_pos : (n : ℕ) → is_zero (pos n) ≡ true → n ≡ 0
zero_pos zero e = refl
zero_pos (suc n) e = cc

byte_diff_zero : (a b : ℕ) → is_zero (byte_diff a b) ≡ true → a ≡ b
byte_diff_zero a b e = elim (Bool-cases (ltb a b)) [
  | inl below ↦ absurd (cc (rw below at e))
  | inr above ↦ let z = zero_pos (a - b) (rw above at e) in ground arith
]

-- For C strings, `strcmp` answers 0 exactly where they are equal.
pub strcmp_eq_iff :
    (a b : List ℕ) → IsCString a → IsCString b → (is_zero (strcmp a b) ≡ true) ↔ (a ≡ b)
unfolding strcmp
strcmp_eq_iff [] [] ha hb = ((λ e. refl), λ e. refl)
strcmp_eq_iff [] (y ∷ b) ha hb = (λ e. absurd (omega (arith, byte_diff_zero 0 y e, hb.0)), λ e. cc)
strcmp_eq_iff (x ∷ a) [] ha hb = (λ e. absurd (omega (arith, byte_diff_zero x 0 e, ha.0)), λ e. cc)
strcmp_eq_iff (x ∷ a) (y ∷ b) ha hb = elim (Bool-cases (x == y)) [
  | inl same ↦
      let xy : x ≡ y = (==_iff x y).0 same in
      let ih = strcmp_eq_iff a b ha.1 hb.1 in rw same (λ e. ap₂ ◌∷◌ xy (ih.0 e), λ e. ih.1 (cc))
  | inr different ↦
      rw different
        (λ e. absurd (apart (byte_diff_zero x y e) different), λ e. absurd (apart (cc) different))
]
  where
    apart : x ≡ y → (x == y) ≡ false → ⊥
    apart e f = ground arith

pub strcmp_self : (a : List ℕ) → is_zero (strcmp a a) ≡ true
unfolding strcmp
strcmp_self [] = refl
strcmp_self (x ∷ a) = rw (==_refl x) (strcmp_self a)

starts_of_strncmp :
    (a b : List ℕ)
    → IsCString a
    → IsCString b
    → is_zero (strncmp a b (length b)) ≡ true
    → (rest : List ℕ) × (a ≡ b ++ rest)
unfolding strncmp
starts_of_strncmp a [] ha hb e = (a, refl)
starts_of_strncmp [] (y ∷ b) ha hb e = absurd (omega (arith, byte_diff_zero 0 y e, hb.0))
starts_of_strncmp (x ∷ a) (y ∷ b) ha hb e = elim (Bool-cases (x == y)) [
  | inl same ↦
      let (rest, p) = starts_of_strncmp a b ha.1 hb.1 (rw same at e) in
      (rest, ap₂ ◌∷◌ ((==_iff x y).0 same) p)
  | inr different ↦ absurd (apart (byte_diff_zero x y (rw different at e)) different)
]
  where
    apart : x ≡ y → (x == y) ≡ false → ⊥
    apart e f = ground arith

pub strncmp-append : (b rest : List ℕ) → is_zero (strncmp (b ++ rest) b (length b)) ≡ true
unfolding strncmp
strncmp-append [] rest = refl
strncmp-append (y ∷ b) rest = rw (==_refl y) (strncmp-append b rest)

-- For C strings, `strncmp(a, b, strlen(b))` answers 0 exactly where `a` starts with `b`.
pub strncmp_prefix_iff :
    (a b : List ℕ)
    → IsCString a
    → IsCString b
    → (is_zero (strncmp a b (length b)) ≡ true) ↔ ((rest : List ℕ) × (a ≡ b ++ rest))
strncmp_prefix_iff a b ha hb = (
  starts_of_strncmp a b ha hb,
  λ (rest, e). subst (λ s. is_zero (strncmp s b (length b)) ≡ true) (sym e) (strncmp-append b rest),
)
