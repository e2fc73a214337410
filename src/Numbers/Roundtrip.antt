-- ===== src/Numbers/Roundtrip.antt =====
-- Reading back what was printed.
use mathlib.Core.List.{reverse, reverse-cons}
use blockos.Prelude.{
  ℕ, zero, suc, ◌+◌, ◌-◌, ◌*◌, ◌/◌, ◌%◌, ◌^◌, ◌≤◌, ◌<◌, ◌≡◌, refl, ap, ◌∙◌, inl, inr, true, ◌≢◌,
  List, [], ◌∷◌, ◌++◌, arith, ◌==◌, ltb, Bool-cases,
}
use blockos.Slots.Laws.{All}
use blockos.Numbers.{digit, digits_loop, uint_to_str, is_digit, atoi_loop, atoi, int_digits, itoa}

-- The number that a list of digits stands for, the last digit first.
value : List ℕ → ℕ
value [] = 0
value (c ∷ s) = (c - b'0') + 10 * value s

abbrev Digits : List ℕ → Type 0
Digits = All (λ c. is_digit c ≡ true)

digits_loop-Digits : (rounds n : ℕ) → Digits (digits_loop rounds n 10)
unfolding digits_loop is_digit digit
digits_loop-Digits zero n = tt
digits_loop-Digits (suc rounds) n = ground (arith, digits_loop-Digits rounds (n / 10))

value-digits_loop : (rounds n : ℕ) → n ≤ rounds → value (digits_loop rounds n 10) ≡ n
unfolding digits_loop digit value
value-digits_loop zero n h = omega arith
value-digits_loop (suc rounds) n h = ground (arith, value-digits_loop rounds (n / 10))

-- Reading the digits of a list from its end.
atoi_loop-append :
    (acc c : ℕ) (s : List ℕ)
    → is_digit c ≡ true
    → Digits s
    → atoi_loop acc (s ++ c ∷ []) ≡ (atoi_loop acc s * 10 + (c - b'0')) % 2 ^ 32
unfolding atoi_loop
atoi_loop-append acc c [] d h = rw d
atoi_loop-append acc c (x ∷ s) d h =
    rw (h.0) (atoi_loop-append ((acc * 10 + (x - b'0')) % 2 ^ 32) c s d h.1)

Digits-append : (s t : List ℕ) → Digits s → Digits t → Digits (s ++ t)
Digits-append [] t h k = k
Digits-append (c ∷ s) t h k = (h.0, Digits-append s t h.1 k)

Digits-reverse : (s : List ℕ) → Digits s → Digits (reverse s)
Digits-reverse [] h = tt
Digits-reverse (c ∷ s) h =
    rw (reverse-cons c s) (Digits-append (reverse s) (c ∷ []) (Digits-reverse s h.1) (h.0, tt))

atoi_loop-reverse : (s : List ℕ) → Digits s → atoi_loop 0 (reverse s) ≡ value s % 2 ^ 32
unfolding value
atoi_loop-reverse [] h = unfold atoi_loop in refl
atoi_loop-reverse (c ∷ s) h =
    rw
      (
        reverse-cons c s,
        atoi_loop-append 0 c (reverse s) h.0 (Digits-reverse s h.1),
        atoi_loop-reverse s h.1,
      )
      (omega arith)

-- A text of digits has no sign in front.
atoi-Digits : (s : List ℕ) → Digits s → atoi s ≡ atoi_loop 0 s
unfolding atoi is_digit
atoi-Digits [] h = refl
atoi-Digits (c ∷ s) h = ground arith

atoi_zero : atoi (b'0' ∷ []) ≡ 0
unfolding atoi
atoi_zero = refl

-- Reading the digits that the loop prints, from the first to the last.
atoi_loop-digits_loop : (n : ℕ) → n < 2 ^ 32 → atoi_loop 0 (reverse (digits_loop n n 10)) ≡ n
atoi_loop-digits_loop n h =
    atoi_loop-reverse (digits_loop n n 10) (digits_loop-Digits n n)
    ∙ omega (arith, value-digits_loop n n (omega arith))

atoi-digits_loop : (n : ℕ) → n < 2 ^ 32 → atoi (reverse (digits_loop n n 10)) ≡ n
atoi-digits_loop n h =
    atoi-Digits (reverse (digits_loop n n 10))
      (Digits-reverse (digits_loop n n 10) (digits_loop-Digits n n))
    ∙ atoi_loop-digits_loop n h

-- `atoi` reads back the number that `uint_to_str` prints in base ten, for every 32-bit number.
atoi-uint_to_str : (n : ℕ) → n < 2 ^ 32 → atoi (uint_to_str n 10) ≡ n
unfolding uint_to_str
atoi-uint_to_str n h = elim (Bool-cases (n == 0)) [
  | inl zero_n ↦ rw zero_n (atoi_zero ∙ ground arith)
  | inr more ↦ rw more (atoi-digits_loop n h)
]

atoi_minus : (s : List ℕ) → atoi (b'-' ∷ s) ≡ (2 ^ 32 - atoi_loop 0 s) % 2 ^ 32
unfolding atoi
atoi_minus s = refl

-- `atoi` reads back what `itoa` prints in base ten, for every int but the least.
pub atoi-itoa : (n : ℕ) → n < 2 ^ 32 → n ≢ 2 ^ 31 → atoi (itoa n 10) ≡ n
unfolding itoa int_digits
atoi-itoa n h ne = elim (Bool-cases (n == 0)) [
  | inl zero_n ↦ rw zero_n (atoi_zero ∙ ground arith)
  | inr more ↦ elim (Bool-cases (ltb n (2 ^ 31))) [
    | inl positive ↦ rw (more, positive) (atoi-digits_loop n h)
    | inr negative ↦
        let m : ℕ = (2 ^ 32 - n) % 2 ^ 32 in
        let small : ltb m (2 ^ 31) ≡ true = ground arith in
        rw (more, negative, small)
          (atoi_minus (reverse (digits_loop m m 10))
            ∙ ap (λ t. (2 ^ 32 - t) % 2 ^ 32) (atoi_loop-digits_loop m (omega arith))
            ∙ ground arith)
  ]
]

-- The negation of the least int overflows: `itoa` prints its sign alone.
itoa_least : itoa (2 ^ 31) 10 ≡ b'-' ∷ []
unfolding itoa int_digits
itoa_least = refl
