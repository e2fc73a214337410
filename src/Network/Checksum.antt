-- ===== src/Network/Checksum.antt =====
-- `net_checksum` of network/network.c is the internet checksum.
use blockos.Prelude.{
  ℕ, ◌+◌, ◌-◌, ◌*◌, ◌/◌, ◌%◌, ◌^◌, ◌≤◌, ◌<◌, ◌≡◌, refl, ap, ◌∙◌, inl, inr, ◌⊎◌, ◌↔◌, List, [], ◌∷◌,
  ◌++◌, arith, length,
}
use blockos.Slots.Laws.{All}
use blockos.Network.{sum_words, fold_carries, net_checksum}

abbrev pub IsBytes : List ℕ → Type 0
IsBytes = All (λ b. b < 256)

-- The carries are gone after two rounds, and what is left is the sum modulo 2 ^ 16 - 1.
fold_carries_lem :
    (sum : ℕ)
    → sum < 2 ^ 32
    → (fold_carries 2 sum < 2 ^ 16)
      × (fold_carries 2 sum % 65535 ≡ sum % 65535)
      × ((fold_carries 2 sum ≡ 0) ↔ (sum ≡ 0))
unfolding fold_carries
fold_carries_lem sum h = ground arith

sum_words-append :
    (sum lo hi words : ℕ) (data' : List ℕ)
    → length data' ≡ 2 * words
    → sum_words sum (data' ++ lo ∷ hi ∷ []) ≡ (sum_words sum data' + (lo + 256 * hi)) % 2 ^ 32
unfolding sum_words
sum_words-append sum lo hi words [] e = refl
sum_words-append sum lo hi words (b ∷ []) e = ground arith
sum_words-append sum lo hi words (a ∷ b ∷ data') e =
    sum_words-append ((sum + (a + 256 * b)) % 2 ^ 32) lo hi (words - 1) data' (omega (arith, e))

-- Without a wrap, each word adds less than 2 ^ 16.
sum_words-le :
    (sum words : ℕ) (data' : List ℕ)
    → IsBytes data'
    → length data' ≡ 2 * words
    → sum + 65535 * words < 2 ^ 32
    → sum_words sum data' ≤ sum + 65535 * words
unfolding sum_words
sum_words-le sum words [] b e h = omega arith
sum_words-le sum words (x ∷ []) b e h = ground arith
sum_words-le sum words (x ∷ y ∷ data') b e h =
    let ih =
      sum_words-le ((sum + (x + 256 * y)) % 2 ^ 32) (words - 1) data' b.1.1 (omega (arith, e))
        (omega (arith, e, b.0, b.1.0)) in
    omega (arith, ih, e, b.0, b.1.0)

two_cases : (n : ℕ) → n < 65536 → n % 65535 ≡ 0 → (n ≡ 0) ⊎ (n ≡ 65535)
two_cases n h e = ground arith

-- The checksum of a sum, added to that sum, leaves all ones.
fold_carries_ones :
    (sum : ℕ) → sum + 65535 < 2 ^ 32 → fold_carries 2 (sum + (65535 - fold_carries 2 sum)) ≡ 65535
fold_carries_ones sum h =
    let (small, same, zero_iff) = fold_carries_lem sum (omega arith) in
    let all : ℕ = sum + (65535 - fold_carries 2 sum) in
    let (small', same', zero_iff') = fold_carries_lem all (omega arith) in
    let none_left : all % 65535 ≡ 0 = omega (arith, small, same) in
    elim (two_cases (fold_carries 2 all) (omega (arith, small')) (same' ∙ none_left)) [
      | inl nothing ↦ omega (arith, zero_iff'.0 nothing, zero_iff.1, small)
      | inr ones ↦ ones
    ]

net_checksum_lem :
    (data' : List ℕ) → net_checksum data' ≡ 65535 - fold_carries 2 (sum_words 0 data') % 65536
unfolding net_checksum
net_checksum_lem data' = refl

-- Data of whole words, at most 65536 of them, that is followed by its checksum, low byte first, has
-- checksum 0.
pub net_checksum_verifies :
    (words : ℕ) (data' : List ℕ)
    → IsBytes data'
    → length data' ≡ 2 * words
    → words ≤ 65536
    → net_checksum (data' ++ net_checksum data' % 256 ∷ net_checksum data' / 256 ∷ []) ≡ 0
net_checksum_verifies words data' b e h =
    let sum : ℕ = sum_words 0 data' in
    let top : sum ≤ 65535 * words = omega (arith, sum_words-le 0 words data' b e (omega arith)) in
    let (small, same, zero_iff) = fold_carries_lem sum (omega (arith, top)) in
    let c : net_checksum data' ≡ 65535 - fold_carries 2 sum =
      net_checksum_lem data' ∙ omega (arith, small) in
    let total : sum_words 0 (data' ++ net_checksum data' % 256 ∷ net_checksum data' / 256 ∷ [])
        ≡ sum + (65535 - fold_carries 2 sum) =
      sum_words-append 0 (net_checksum data' % 256) (net_checksum data' / 256) words data' e
      ∙ omega (arith, c, small, top) in
    net_checksum_lem (data' ++ net_checksum data' % 256 ∷ net_checksum data' / 256 ∷ [])
    ∙ ap (λ n. 65535 - fold_carries 2 n % 65536) total
    ∙ ap (λ n. 65535 - n % 65536) (fold_carries_ones sum (omega (arith, top)))
