-- ===== src/Strings/Tokens.antt =====
-- `strtok` of kernel/generic.c. `strtok_ptr` is the text that is left; the byte that ends a token is
-- overwritten by the NUL that the token's list has no need of.
use blockos.Prelude.{
  ℕ, zero, suc, ◌≤◌, ◌≡◌, refl, ap, ◌∙◌, sym, inl, inr, Bool, false, List, [], ◌∷◌, Option, none,
  some, arith, if◌then◌else◌, is_some, length, Bool-cases, if_true, if_false, subst,
}
use mathlib.Core.Path.{ap₂}
use blockos.Strings.{strchr}

-- strchr(delim, c)
abbrev pub is_delim : List ℕ → ℕ → Bool
is_delim delim c = is_some (strchr delim c)

-- while (*strtok_ptr && strchr(delim, *strtok_ptr)) strtok_ptr++;
unfoldable pub skip : List ℕ → List ℕ → List ℕ
skip delim [] = []
skip delim (c ∷ s) = if is_delim delim c then skip delim s else c ∷ s

-- The token up to the next delimiter, and what follows that delimiter.
unfoldable pub cut : List ℕ → List ℕ → List ℕ × List ℕ
cut delim [] = ([], [])
cut delim (c ∷ s) =
    let (token, rest) = cut delim s in if is_delim delim c then ([], s) else (c ∷ token, rest)

-- A token and the text that is left; `none` is NULL.
unfoldable pub strtok : List ℕ → List ℕ → Option (List ℕ × List ℕ)
unfolding skip cut
strtok delim s = elim (skip delim s) [ [] ↦ none | c ∷ rest ↦ some (cut delim (c ∷ rest)) ]

-- while (token) { ...; token = strtok(NULL, delim); }
-- A token has a byte at least, so `length s` rounds are enough.
unfoldable pub all_tokens : ℕ → List ℕ → List ℕ → List (List ℕ)
unfolding strtok
all_tokens zero delim s = []
all_tokens (suc rounds) delim s = elim (strtok delim s) [
  | none ↦ []
  | some (token, rest) ↦ token ∷ all_tokens rounds delim rest
]

-- The tokens in one go.
abbrev pub cons_some : List ℕ → List (List ℕ) → List (List ℕ)
cons_some [] ts = ts
cons_some (c ∷ t) ts = (c ∷ t) ∷ ts

unfoldable pub split : List ℕ → List ℕ → List ℕ × List (List ℕ)
split delim [] = ([], [])
split delim (c ∷ s) =
    let (t, ts) = split delim s in if is_delim delim c then ([], cons_some t ts) else (c ∷ t, ts)

unfoldable pub words : List ℕ → List ℕ → List (List ℕ)
unfolding split
words delim s = let (t, ts) = split delim s in cons_some t ts

words-skip : (delim s : List ℕ) → words delim (skip delim s) ≡ words delim s
unfolding words skip split
words-skip delim [] = refl
words-skip delim (c ∷ s) = elim (Bool-cases (is_delim delim c)) [
  | inl d ↦ rw d (words-skip delim s)
  | inr n ↦ ap (words delim) (if_false _ _ _ n)
]

-- What `cut` takes off is the first word, and what it leaves has the others.
split-cut :
    (delim s : List ℕ)
    → ((split delim s).0 ≡ (cut delim s).0) × ((split delim s).1 ≡ words delim (cut delim s).1)
unfolding words cut split
split-cut delim [] = (refl, refl)
split-cut delim (c ∷ s) = elim (Bool-cases (is_delim delim c)) [
  | inl d ↦ rw d (refl, refl)
  | inr n ↦ rw n (ap (◌∷◌ c) (split-cut delim s).0, (split-cut delim s).1)
]

length-cut : (delim s : List ℕ) → length (cut delim s).1 ≤ length s
unfolding cut
length-cut delim [] = omega arith
length-cut delim (c ∷ s) = ground (arith, length-cut delim s)

length-skip : (delim s : List ℕ) → length (skip delim s) ≤ length s
unfolding skip
length-skip delim [] = omega arith
length-skip delim (c ∷ s) = ground (arith, length-skip delim s)

skip-head : (delim s rest : List ℕ) (c : ℕ) → skip delim s ≡ c ∷ rest → is_delim delim c ≡ false
unfolding skip
skip-head delim [] rest c e = cc
skip-head delim (x ∷ s) rest c e = elim (Bool-cases (is_delim delim x)) [
  | inl d ↦ skip-head delim s rest c (sym (if_true _ _ _ d) ∙ e)
  | inr n ↦
      let same : x ∷ s ≡ c ∷ rest = sym (if_false _ _ _ n) ∙ e in
      let xc : x ≡ c = cc in subst (λ d. is_delim delim d ≡ false) xc n
]

-- A text that starts with no delimiter has what `cut` takes off for its first word.
words-cut :
    (delim rest : List ℕ) (c : ℕ)
    → is_delim delim c ≡ false
    → words delim (c ∷ rest) ≡ (cut delim (c ∷ rest)).0 ∷ words delim (cut delim (c ∷ rest)).1
unfolding words split cut
words-cut delim rest c n =
    rw n (ap₂ (λ t ts. (c ∷ t) ∷ ts) (split-cut delim rest).0 (split-cut delim rest).1)

length-cut_cons :
    (delim rest : List ℕ) (c : ℕ)
    → is_delim delim c ≡ false
    → length (cut delim (c ∷ rest)).1 ≤ length rest
unfolding cut
length-cut_cons delim rest c n = rw n (length-cut delim rest)

pub strtok-nil : (delim s : List ℕ) → skip delim s ≡ [] → strtok delim s ≡ none
unfolding strtok
strtok-nil delim s e = rw (e, strtok)

pub strtok-cons :
    (delim s rest : List ℕ) (c : ℕ)
    → skip delim s ≡ c ∷ rest
    → strtok delim s ≡ some (cut delim (c ∷ rest))
unfolding strtok
strtok-cons delim s rest c e = rw (e, strtok)

-- One round, from what `skip` leaves.
next_token :
    (rounds : ℕ) (delim s r : List ℕ)
    → skip delim s ≡ r
    → length r ≤ suc rounds
    → ((u : List ℕ) → length u ≤ rounds → all_tokens rounds delim u ≡ words delim u)
    → all_tokens (suc rounds) delim s ≡ words delim r
unfolding all_tokens
next_token rounds delim s [] e h ih =
    rw (strtok-nil delim s e, all_tokens) (unfold words split in refl)
next_token rounds delim s (c ∷ rest) e h ih =
    let head = skip-head delim s rest c e in
    let left = length-cut_cons delim rest c head in
    rw (strtok-cons delim s rest c e, all_tokens)
      (ap (◌∷◌ (cut delim (c ∷ rest)).0) (ih (cut delim (c ∷ rest)).1 (omega (arith, left, h)))
        ∙ sym (words-cut delim rest c head))

-- Enough rounds of `strtok` give the words of the text: those between the delimiters that are not
-- empty.
pub all_tokens-eq-words :
    (rounds : ℕ) (delim s : List ℕ) → length s ≤ rounds → all_tokens rounds delim s ≡ words delim s
unfolding all_tokens
all_tokens-eq-words zero delim [] h = unfold words split in refl
all_tokens-eq-words zero delim (c ∷ s) h = absurd (omega arith)
all_tokens-eq-words (suc rounds) delim s h =
    next_token rounds delim s (skip delim s) refl (omega (arith, length-skip delim s, h))
      (all_tokens-eq-words rounds delim)
    ∙ words-skip delim s
