-- ===== src/Scheduler/Remove.antt =====
-- `scheduler_remove` of kernel/scheduler.c after the head has moved.
use blockos.Prelude.{
  if_true, if_false, ℕ, ◌+◌, ◌%◌, ◌^◌, ◌≡◌, ◌≢◌, ap, sym, ◌∙◌, true, false, arith, ◌==◌, subst,
  get_or,
}
use blockos.Scheduler.{
  Scheduler, Processes, queue_size, round_robin, queued, is_ready, next_round_robin, scheduler_next,
  scheduler_remove, remove_from,
}

abbrev behind : Scheduler → Scheduler
behind st = record st { head = (st.head + 0 + 1) % 2 ^ 32 % queue_size }

-- The slot that the head is moved to.
queued-behind : (st : Scheduler) → queued (behind st) 0 ≡ queued st 1
queued-behind st = ap (λ n. get_or st.queue n 0) (omega arith)

not_found :
    (st : Scheduler) (p : ℕ)
    → st.count ≡ 1
    → queued st 1 ≢ p
    → scheduler_remove (behind st) p ≡ behind st
unfolding scheduler_remove remove_from
not_found st p one apart =
    let other : (queued (behind st) 0 == p) ≡ false = differ (queued-behind st) in
    ap (λ n. remove_from n 0 (behind st) p) one ∙ if_false _ _ _ other
  where
    differ : queued (behind st) 0 ≡ queued st 1 → (queued (behind st) 0 == p) ≡ false
    differ e = ground arith

module _ {ℓ} {M : Type ℓ} (procs : Processes M) (st : Scheduler) (m : M) where
  next_first :
      st.count ≡ 1
      → st.mode ≡ round_robin
      → is_ready procs m (queued st 0) ≡ true
      → scheduler_next procs st m ≡ (behind st, queued st 0)
  unfolding scheduler_next next_round_robin
  next_first one mode on =
      let counted : (st.count == 0) ≡ false = ground arith in
      let first : (st.mode == round_robin) ≡ true = ground arith in
      if_false _ _ _ counted ∙ if_true _ _ _ first ∙ if_true _ _ _ on

  -- In round-robin mode, a queue with one process, at the head and ready, whose next slot does not
  -- hold it too: once `scheduler_next` has returned the process, `scheduler_remove` does not find it
  -- and changes nothing.
  pub scheduler_remove_lost :
      st.count ≡ 1
      → st.mode ≡ round_robin
      → is_ready procs m (queued st 0) ≡ true
      → queued st 1 ≢ queued st 0
      → scheduler_remove (scheduler_next procs st m).0 (queued st 0) ≡ (scheduler_next procs st m).0
  scheduler_remove_lost one mode on apart =
      subst (λ (r : Scheduler × ℕ). scheduler_remove r.0 (queued st 0) ≡ r.0)
        (sym (next_first one mode on)) (not_found st (queued st 0) one apart)
