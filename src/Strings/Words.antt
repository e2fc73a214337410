-- ===== src/Strings/Words.antt =====
-- The words of a text to which a delimiter and a word are added.
use blockos.Prelude.{
  ℕ, zero, suc, ◌≡◌, refl, ap, ◌∙◌, inl, inr, true, false, List, [], ◌∷◌, ◌++◌, Bool-cases,
}
use blockos.Slots.Laws.{All}
use blockos.Strings.Tokens.{
  is_delim, skip, cut, strtok-nil, strtok-cons, all_tokens, split, words, cons_some,
}

cons_some-append :
    (t : List ℕ) (ts us : List (List ℕ)) → cons_some t (ts ++ us) ≡ cons_some t ts ++ us
cons_some-append [] ts us = refl
cons_some-append (c ∷ t) ts us = refl

module _ (delim : List ℕ) where
  -- A word: no delimiter is in it.
  abbrev pub IsWord : List ℕ → Type 0
  IsWord = All (λ c. is_delim delim c ≡ false)

  split-IsWord : (w : List ℕ) → IsWord w → split delim w ≡ (w, [])
  unfolding split
  split-IsWord [] a = refl
  split-IsWord (c ∷ w) a = rw (a.0) (ap (λ p. (c ∷ p.0, p.1)) (split-IsWord w a.1))

  split-append :
      (s w : List ℕ) (d c : ℕ)
      → is_delim delim d ≡ true
      → IsWord (c ∷ w)
      → split delim (s ++ d ∷ c ∷ w) ≡ ((split delim s).0, (split delim s).1 ++ (c ∷ w) ∷ [])
  unfolding split
  split-append [] w d c h a = rw h (ap (λ p. ([], cons_some p.0 p.1)) (split-IsWord (c ∷ w) a))
  split-append (x ∷ s) w d c h a = elim (Bool-cases (is_delim delim x)) [
    | inl y ↦ rw y (
        ap (λ p. ([], cons_some p.0 p.1)) (split-append s w d c h a)
        ∙ ap (λ l. ([], l)) (cons_some-append (split delim s).0 (split delim s).1 ((c ∷ w) ∷ [])))
    | inr n ↦ rw n (ap (λ p. (x ∷ p.0, p.1)) (split-append s w d c h a))
  ]

  pub words-append :
      (s w : List ℕ) (d c : ℕ)
      → is_delim delim d ≡ true
      → IsWord (c ∷ w)
      → words delim (s ++ d ∷ c ∷ w) ≡ words delim s ++ (c ∷ w) ∷ []
  unfolding words
  words-append s w d c h a =
      ap (λ p. cons_some p.0 p.1) (split-append s w d c h a)
      ∙ cons_some-append (split delim s).0 (split delim s).1 ((c ∷ w) ∷ [])

-- The bytes of the tokens are bytes of the text.
module _ {κ} (P : ℕ → Type κ) (delim : List ℕ) where
  skip-All : (s : List ℕ) → All P s → All P (skip delim s)
  unfolding skip
  skip-All [] a = tt
  skip-All (c ∷ s) a = elim (Bool-cases (is_delim delim c)) [
    | inl y ↦ rw y (skip-All s a.1)
    | inr n ↦ rw n a
  ]

  cut-All : (s : List ℕ) → All P s → All P (cut delim s).0 × All P (cut delim s).1
  unfolding cut
  cut-All [] a = (tt, tt)
  cut-All (c ∷ s) a = elim (Bool-cases (is_delim delim c)) [
    | inl y ↦ rw y (tt, a.1)
    | inr n ↦ rw n ((a.0, (cut-All s a.1).0), (cut-All s a.1).1)
  ]

  tokens_of_skipped :
      (rounds : ℕ) (s r : List ℕ)
      → skip delim s ≡ r
      → All P r
      → ((u : List ℕ) → All P u → All (All P) (all_tokens rounds delim u))
      → All (All P) (all_tokens (suc rounds) delim s)
  unfolding all_tokens
  tokens_of_skipped rounds s [] e a ih = rw (strtok-nil delim s e, all_tokens) tt
  tokens_of_skipped rounds s (c ∷ r) e a ih =
      let p = cut-All (c ∷ r) a in
      rw (strtok-cons delim s r c e, all_tokens) (p.0, ih (cut delim (c ∷ r)).1 p.1)

  pub all_tokens-All : (rounds : ℕ) (s : List ℕ) → All P s → All (All P) (all_tokens rounds delim s)
  unfolding all_tokens
  all_tokens-All zero s a = tt
  all_tokens-All (suc rounds) s a =
      tokens_of_skipped rounds s (skip delim s) refl (skip-All s a) (all_tokens-All rounds)
