-- ===== src/Ring/Contents.antt =====
-- What a ring holds, oldest first, and the effect of `put` and `drop_front` on it.
use mathlib.Core.Path.{ap₂}
use native.Mathlib.Nat.{mod-add-mod, mod-eq_of_lt, mod-eq-sub-mod, mod-lt}
use native.Mathlib.Decide.{dec_lt}
use blockos.Prelude.{
  ℕ, zero, suc, ◌+◌, ◌-◌, ◌%◌, ◌^◌, ◌≤◌, ◌<◌, ◌≡◌, refl, sym, ◌∙◌, ap, ◌≢◌, List, [], ◌∷◌, ◌++◌,
  arith, length, get_or, set, length-set, get_or-set_self, get_or-set_ne,
}
use blockos.Ring.{Ring, inc32, put, front, drop_front}

-- A number of slots that divides 2 ^ 32, so that the counters may wrap.
pub record IsCapacity (cap : ℕ) : Type 0 where
  pub cap_pos : 0 < cap
  pub cap_small : cap < 2 ^ 32
  pub wrap : (x : ℕ) → x % 2 ^ 32 % cap ≡ x % cap

pub record IsValid {ℓ} (A : Type ℓ) (cap : ℕ) (r : Ring A) : Type 0 where
  pub storage : length r.slots ≡ cap
  pub fits : r.count ≤ cap
  pub tail_at : r.tail ≡ (r.head + r.count) % 2 ^ 32

module _ {ℓ} {A : Type ℓ} (cap : ℕ) (d : A) where
  unfoldable pub window : List A → ℕ → ℕ → List A
  window xs h zero = []
  window xs h (suc n) = get_or xs (h % cap) d ∷ window xs (h + 1) n

  unfoldable pub contents : Ring A → List A
  contents r = window r.slots r.head r.count

  pub length-window : (xs : List A) (h n : ℕ) → length (window xs h n) ≡ n
  unfolding window
  length-window xs h zero = refl
  length-window xs h (suc n) = ap suc (length-window xs (h + 1) n)

  pub length-contents : (r : Ring A) → length (contents r) ≡ r.count
  unfolding contents
  length-contents r = length-window r.slots r.head r.count

  mod-suc : (h k : ℕ) → h % cap ≡ k % cap → (h + 1) % cap ≡ (k + 1) % cap
  mod-suc h k e = omega (arith, mod-add-mod h cap 1, mod-add-mod k cap 1, ap (λ t. (t + 1) % cap) e)

  pub window_mod : (xs : List A) (h k n : ℕ) → h % cap ≡ k % cap → window xs h n ≡ window xs k n
  unfolding window
  window_mod xs h k zero e = refl
  window_mod xs h k (suc n) e =
      rw e (ap (◌∷◌ (get_or xs (k % cap) d)) (window_mod xs (h + 1) (k + 1) n (mod-suc h k e)))

  -- `window` matches on `suc`, the code tests `count > 0`.
  pub window_ne_zero :
      (xs : List A) (h n : ℕ)
      → n ≢ 0
      → window xs h n ≡ get_or xs (h % cap) d ∷ window xs (h + 1) (n - 1)
  unfolding window
  window_ne_zero xs h zero p = absurd (p refl)
  window_ne_zero xs h (suc n) p = ap (λ k. window xs h (suc k)) (omega arith)

  -- Fewer than `cap` slots further on is another slot.
  wrapped_ne : (gap at : ℕ) → 0 < gap → gap < cap → at < cap → (at + gap) % cap ≢ at
  wrapped_ne gap at some_gap small inside same = elim (dec_lt (at + gap) cap) [
    | yes fits ↦ omega (arith, mod-eq_of_lt fits)
    | no wraps ↦
        let once : (at + gap) % cap ≡ (at + gap - cap) % cap =
          mod-eq-sub-mod {n = at + gap} {m = cap} (omega arith) in
        omega (arith, once, mod-eq_of_lt {n = at + gap - cap} {m = cap} (omega arith))
  ]

  slots_ne : (gap at : ℕ) → 0 < gap → gap < cap → (at + gap) % cap ≢ at % cap
  slots_ne gap at some_gap small same =
      let inside : at % cap < cap = mod-lt at (omega arith) in
      wrapped_ne gap (at % cap) some_gap small inside (mod-add-mod at cap gap ∙ same)

  pub window-set :
      (xs : List A) (x : A) (h n i : ℕ)
      → length xs ≡ cap
      → n < cap
      → i ≡ (h + n) % cap
      → window (set xs i x) h (suc n) ≡ window xs h n ++ x ∷ []
  unfolding window
  window-set xs x h zero i l p e =
      let here : i ≡ h % cap = e ∙ ap (λ t. t % cap) (omega arith) in
      rw (here, get_or-set_self xs (h % cap) x d (rw l (mod-lt h p)))
  window-set xs x h (suc n) i l p e =
      let later : i ≡ (h + 1 + n) % cap = e ∙ ap (λ t. t % cap) (omega arith) in
      ap₂ ◌∷◌ (get_or-set_ne xs i (h % cap) x d (rw e (slots_ne (suc n) h (omega arith) p)))
        (window-set xs x (h + 1) n i l (omega arith) later)

module _ {ℓ} {A : Type ℓ} (cap : ℕ) (d : A) (c : IsCapacity cap) (r : Ring A)
    (v : IsValid A cap r) where
  -- A valid ring that is not full takes one more element, at the end of its contents.
  pub contents-put :
      (x : A) → r.count < cap → contents cap d (put cap r x) ≡ contents cap d r ++ x ∷ []
  unfolding contents put
  contents-put x h =
      let at : r.tail % cap ≡ (r.head + r.count) % cap =
        ap (λ t. t % cap) v.tail_at ∙ c.wrap (r.head + r.count) in
      let more : inc32 r.count ≡ suc r.count = omega (arith, c.cap_small) in
      rw more (window-set cap d r.slots x r.head r.count (r.tail % cap) v.storage h at)

  pub put-IsValid : (x : A) → r.count < cap → IsValid A cap (put cap r x)
  unfolding put
  put-IsValid x h = record {
    storage = length-set r.slots (r.tail % cap) x ∙ v.storage;
    fits = omega (arith, c.cap_small);
    tail_at = omega (arith, c.cap_small, v.tail_at);
  }

  pub count-put : (x : A) → r.count < cap → (put cap r x).count ≡ r.count + 1
  unfolding put
  count-put x h = omega (arith, c.cap_small)

  -- A valid ring that is not empty starts with its front, and `drop_front` leaves the rest.
  pub contents-drop_front :
      r.count ≢ 0 → contents cap d r ≡ front cap d r ∷ contents cap d (drop_front r)
  unfolding contents drop_front front
  contents-drop_front h = rw (window_ne_zero cap d r.slots r.head r.count h) (
      ap (◌∷◌ (get_or r.slots (r.head % cap) d)) (
        window_mod cap d r.slots (r.head + 1) (inc32 r.head) (r.count - 1)
          (sym (c.wrap (r.head + 1)))))

  pub drop_front-IsValid : r.count ≢ 0 → IsValid A cap (drop_front r)
  unfolding drop_front
  drop_front-IsValid h = record {
    storage = v.storage;
    fits = omega (arith, v.fits);
    tail_at = omega (arith, v.tail_at);
  }
