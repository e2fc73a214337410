-- ===== src/Scheduler/Next.antt =====
-- Which process `scheduler_next` of kernel/scheduler.c chooses.
use blockos.Prelude.{
  if_true, if_false, ℕ, zero, suc, ◌+◌, ◌%◌, ◌^◌, ◌<◌, ◌≡◌, ◌≢◌, refl, ap, sym, ◌∙◌, ◌⊎◌, inl, inr,
  true, false, ◌&&◌, List, [], ◌∷◌, ℤ, negsuc, arith, ◌==◌, Bool-cases, subst,
}
use blockos.Slots.Laws.{All}
use blockos.Scheduler.Order.{greater_irrefl, greater_below, greater_asym, both, not_both}
use blockos.Scheduler.{
  Scheduler, Processes, queue_size, round_robin, priority_mode, queued, place, greater, is_ready,
  next_round_robin, next_priority, scheduler_next,
}

-- The slots that the rounds from `i` on look at.
unfoldable pub seen : Scheduler → ℕ → ℕ → List ℕ
seen st zero i = []
seen st (suc rounds) i = queued st i ∷ seen st rounds (i + 1)

module _ {ℓ} {M : Type ℓ} (procs : Processes M) (st : Scheduler) (m : M) where
  abbrev pub Idle : ℕ → Type 0
  Idle p = is_ready procs m p ≡ false

  -- The outcome of the rounds from `i` on: the first ready process, and the head behind it.
  abbrev pub IsTurn : ℕ → ℕ → Scheduler × ℕ → Type 0
  IsTurn rounds i (st', p) =
      ((p ≡ 0) × (st' ≡ st) × All Idle (seen st rounds i))
      ⊎ ((k : ℕ) × (k < rounds)
          × (p ≡ queued st (i + k))
          × (is_ready procs m p ≡ true)
          × (st' ≡ record st { head = (st.head + (i + k) + 1) % 2 ^ 32 % queue_size })
          × All Idle (seen st k i))

  IsTurn-now :
      (rounds i : ℕ)
      → is_ready procs m (queued st i) ≡ true
      → IsTurn
          (suc rounds)
          i
          (record st { head = (st.head + i + 1) % 2 ^ 32 % queue_size }, queued st i)
  unfolding seen
  IsTurn-now rounds i on =
      let same : i ≡ i + 0 = omega arith in
      inr (
        0,
        omega arith,
        ap (λ n. queued st n) same,
        on,
        ap (λ n. record st { head = (st.head + n + 1) % 2 ^ 32 % queue_size }) same,
        tt,
      )

  IsTurn-later :
      (rounds i : ℕ) (r : Scheduler × ℕ)
      → Idle (queued st i)
      → IsTurn rounds (i + 1) r
      → IsTurn (suc rounds) i r
  unfolding seen
  IsTurn-later rounds i (st', p) idle (inl (a, b, all)) = inl (a, b, (idle, all))
  IsTurn-later rounds i (st', p) idle (inr (k, small, found, on, head, all)) =
      let same : i + 1 + k ≡ i + suc k = omega arith in
      inr (
        suc k,
        omega (arith, small),
        found ∙ ap (λ n. queued st n) same,
        on,
        head ∙ ap (λ n. record st { head = (st.head + n + 1) % 2 ^ 32 % queue_size }) same,
        (idle, all),
      )

  next_round_robin-IsTurn : (rounds i : ℕ) → IsTurn rounds i (next_round_robin procs rounds i st m)
  unfolding next_round_robin seen
  next_round_robin-IsTurn zero i = inl (refl, refl, tt)
  next_round_robin-IsTurn (suc rounds) i = elim (Bool-cases (is_ready procs m (queued st i))) [
    | inl now ↦ subst (IsTurn (suc rounds) i) (sym (if_true _ _ _ now)) (IsTurn-now rounds i now)
    | inr later ↦
        subst (IsTurn (suc rounds) i) (sym (if_false _ _ _ later))
          (IsTurn-later rounds i _ later (next_round_robin-IsTurn rounds (i + 1)))
  ]

  -- No process may have a higher priority.
  abbrev pub Below : ℤ → ℕ → Type 0
  Below best_prio p = Idle p ⊎ (greater (procs.priority m p) best_prio ≡ false)

  abbrev pub IsBest : ℕ → ℕ → ℕ × ℤ → ℕ × ℤ → Type 0
  IsBest rounds i (b, best_prio) (b', best_prio') =
      (greater best_prio best_prio' ≡ false)
      × All (Below best_prio') (seen st rounds i)
      × (((b' ≡ b) × (best_prio' ≡ best_prio))
          ⊎ ((is_ready procs m b' ≡ true)
              × (best_prio' ≡ procs.priority m b')
              × ((k : ℕ) × (b' ≡ queued st k))))

  IsBest-taken :
      (rounds i : ℕ) (b : ℕ) (best_prio : ℤ) (r : ℕ × ℤ)
      → (is_ready procs m (queued st i) && greater (procs.priority m (queued st i)) best_prio)
        ≡ true
      → IsBest rounds (i + 1) (queued st i, procs.priority m (queued st i)) r
      → IsBest (suc rounds) i (b, best_prio) r
  unfolding seen
  IsBest-taken rounds i b best_prio (b', best_prio') h (above, all, from) =
      let (on, more) = both _ _ h in
      (
        greater_below best_prio (procs.priority m (queued st i)) best_prio' (greater_asym _ _ more)
            above,
        (inr above, all),
        inr (chosen b' best_prio' on from),
      )
    where
      chosen :
          (c : ℕ) (prio : ℤ)
          → is_ready procs m (queued st i) ≡ true
          → ((c ≡ queued st i) × (prio ≡ procs.priority m (queued st i)))
            ⊎ ((is_ready procs m c ≡ true)
                × (prio ≡ procs.priority m c)
                × ((k : ℕ) × (c ≡ queued st k)))
          → (is_ready procs m c ≡ true)
            × (prio ≡ procs.priority m c)
            × ((k : ℕ) × (c ≡ queued st k))
      chosen c prio on (inl (e, f)) = (
        subst (λ p. is_ready procs m p ≡ true) (sym e) on,
        f ∙ ap (procs.priority m) (sym e),
        (i, e),
      )
      chosen c prio on (inr s) = s

  IsBest-kept :
      (rounds i : ℕ) (b : ℕ) (best_prio : ℤ) (r : ℕ × ℤ)
      → (is_ready procs m (queued st i) && greater (procs.priority m (queued st i)) best_prio)
        ≡ false
      → IsBest rounds (i + 1) (b, best_prio) r
      → IsBest (suc rounds) i (b, best_prio) r
  unfolding seen
  IsBest-kept rounds i b best_prio (b', best_prio') h (above, all, from) = (
    above,
    (
      elim (not_both _ _ h) [
        | inl off ↦ inl off
        | inr low ↦
            inr (greater_below (procs.priority m (queued st i)) best_prio best_prio' low above)
      ],
      all,
    ),
    from,
  )

  next_priority-IsBest :
      (rounds i : ℕ) (best : ℕ × ℤ) → IsBest rounds i best (next_priority procs rounds i st m best)
  unfolding next_priority seen
  next_priority-IsBest zero i (b, best_prio) = (greater_irrefl best_prio, tt, inl (refl, refl))
  next_priority-IsBest (suc rounds) i (b, best_prio) =
      elim (Bool-cases
        (is_ready procs m (queued st i) && greater (procs.priority m (queued st i)) best_prio)) [
          | inl taken ↦
              subst
                (λ best.
                  IsBest (suc rounds) i (b, best_prio)
                    (next_priority procs rounds (i + 1) st m best))
                (sym (if_true _ _ _ taken))
                (IsBest-taken rounds i b best_prio _ taken (next_priority-IsBest rounds (i + 1) _))
          | inr kept ↦
              subst
                (λ best.
                  IsBest (suc rounds) i (b, best_prio)
                    (next_priority procs rounds (i + 1) st m best))
                (sym (if_false _ _ _ kept))
                (IsBest-kept rounds i b best_prio _ kept (next_priority-IsBest rounds (i + 1) _))
        ]

  -- In round-robin mode with a count that is not 0, `scheduler_next` goes once around the queue from
  -- the head: it returns the first process that is ready and puts the head behind it, or, if none is
  -- ready, returns NULL and leaves the head.
  pub scheduler_next-IsTurn :
      st.count ≢ 0 → st.mode ≡ round_robin → IsTurn queue_size 0 (scheduler_next procs st m)
  unfolding scheduler_next
  scheduler_next-IsTurn some_count mode =
      let counted : (st.count == 0) ≡ false = ground arith in
      let first : (st.mode == round_robin) ≡ true = ground arith in
      subst (IsTurn queue_size 0) (sym (if_false _ _ _ counted ∙ if_true _ _ _ first))
        (next_round_robin-IsTurn queue_size 0)

  -- The choice by priority: nobody, or a ready process that no ready one is above.
  abbrev pub IsTop : ℕ → Type 0
  IsTop p =
      ((p ≡ 0) × All (Below (negsuc 999)) (seen st queue_size 0))
      ⊎ ((is_ready procs m p ≡ true)
          × ((k : ℕ) × (p ≡ queued st k))
          × All (Below (procs.priority m p)) (seen st queue_size 0))

  IsBest-IsTop : (b : ℕ) (prio : ℤ) → IsBest queue_size 0 (0, negsuc 999) (b, prio) → IsTop b
  IsBest-IsTop b prio (above, all, inl (e, f)) =
      inl (e, subst (λ x. All (Below x) (seen st queue_size 0)) f all)
  IsBest-IsTop b prio (above, all, inr (on, f, place)) =
      inr (on, place, subst (λ x. All (Below x) (seen st queue_size 0)) f all)

  -- In priority mode with a count that is not 0, `scheduler_next` changes nothing, and returns a ready
  -- process of the queue than which no ready one has a higher priority, or NULL if no ready one has a
  -- priority above -1000.
  pub scheduler_next-IsTop :
      st.count ≢ 0
      → st.mode ≡ priority_mode
      → ((scheduler_next procs st m).0 ≡ st) × IsTop (scheduler_next procs st m).1
  unfolding scheduler_next
  scheduler_next-IsTop some_count mode =
      let counted : (st.count == 0) ≡ false = ground arith in
      let not_first : (st.mode == round_robin) ≡ false = ground arith in
      let second : (st.mode == priority_mode) ≡ true = ground arith in
      subst (λ (r : Scheduler × ℕ). (r.0 ≡ st) × IsTop r.1)
        (sym (if_false _ _ _ counted ∙ if_false _ _ _ not_first ∙ if_true _ _ _ second))
        (refl, IsBest-IsTop _ _ (next_priority-IsBest queue_size 0 (0, negsuc 999)))
