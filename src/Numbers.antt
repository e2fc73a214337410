-- ===== src/Numbers.antt =====
-- Decimal and hexadecimal text: `uint_to_str` of kernel/generic.c and `atoi` of libc/libc.c. The
-- digits that the loop leaves in `tmp`, last first, are a list, and so is the text.
pub mod Roundtrip
pub mod Tests
use mathlib.Core.List.{reverse}
use blockos.Prelude.{
  ℕ, zero, suc, ◌+◌, ◌-◌, ◌*◌, ◌/◌, ◌%◌, ◌^◌, Bool, true, false, not, ◌&&◌, List, [], ◌∷◌, ◌++◌,
  if◌then◌else◌, ◌==◌, ltb, leb,
}

-- r < 10 ? '0' + r : 'a' + r - 10
unfoldable pub digit : ℕ → ℕ
digit r = if ltb r 10 then b'0' + r else b'a' + r - 10

-- while (n > 0) { tmp[i++] = digit(n % base); n /= base; }
-- The first argument bounds the rounds.
unfoldable pub digits_loop : ℕ → ℕ → ℕ → List ℕ
digits_loop zero n base = []
digits_loop (suc rounds) n base =
    let rest = digits_loop rounds (n / base) base in if n == 0 then [] else digit (n % base) ∷ rest

-- A quotient by a base of at least two is smaller, so `n` rounds are enough.
unfoldable pub uint_to_str : ℕ → ℕ → List ℕ
unfolding digits_loop digit
uint_to_str n base = if n == 0 then b'0' ∷ [] else reverse (digits_loop n n base)

unfoldable pub is_digit : ℕ → Bool
is_digit c = leb b'0' c && leb c b'9'

-- while (isdigit(*s)) result = result * 10 + (*s++ - '0');
-- An `int` is its bit pattern: the arithmetic wraps at 2 ^ 32.
unfoldable pub atoi_loop : ℕ → List ℕ → ℕ
unfolding is_digit
atoi_loop result [] = result
atoi_loop result (c ∷ s) =
    let rest = atoi_loop ((result * 10 + (c - b'0')) % 2 ^ 32) s in
    if is_digit c then rest else result

-- result * sign
unfoldable pub atoi : List ℕ → ℕ
unfolding atoi_loop
atoi [] = 0
atoi (c ∷ s) = if c == b'-' then (2 ^ 32 - atoi_loop 0 s) % 2 ^ 32 else atoi_loop 0 (c ∷ s)

-- The digits of an `int`, by its bit pattern: the loop runs only while it is positive.
unfoldable pub int_digits : ℕ → ℕ → List ℕ
unfolding digits_loop digit
int_digits n base = if ltb n (2 ^ 31) then reverse (digits_loop n n base) else []

-- libc's `itoa`: a sign only in base ten.
unfoldable pub itoa : ℕ → ℕ → List ℕ
itoa n base =
    if n == 0
    then b'0' ∷ []
    else if not (ltb n (2 ^ 31)) && base == 10
    then b'-' ∷ int_digits ((2 ^ 32 - n) % 2 ^ 32) base
    else int_digits n base
