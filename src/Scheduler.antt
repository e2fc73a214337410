-- ===== src/Scheduler.antt =====
-- kernel/scheduler.c. The processes belong to process.h and process.c, which the repository does not
-- contain: they are a record of operations on a state `M` of their own. A process is its address, 0
-- for NULL.
pub mod Order
pub mod Next
pub mod Remove
pub mod Tests
use blockos.Prelude.{
  ℕ, zero, suc, ◌+◌, ◌-◌, ◌*◌, ◌/◌, ◌%◌, ◌^◌, Bool, true, false, not, ◌&&◌, ◌||◌, List, [], ◌∷◌, ℤ,
  pos, negsuc, if◌then◌else◌, ◌==◌, ltb, leb, set, get_or, replicate,
}

abbrev pub queue_size : ℕ
queue_size = 256

-- SCHED_ROUND_ROBIN, SCHED_PRIORITY, SCHED_TIME_SLICE
abbrev pub round_robin : ℕ
round_robin = 0

abbrev pub priority_mode : ℕ
priority_mode = 1

abbrev pub sched_time_slice : ℕ
sched_time_slice = 20

-- What the scheduler reads and writes of the processes: the field `state`, with its two constants,
-- the fields `priority`, `jiffies_used` and `time_slice`, and the current process.
pub record Processes {ℓ} (M : Type ℓ) : Type ℓ where
  pub ready : ℕ
  pub blocked : ℕ
  pub state : M → ℕ → ℕ
  pub set_state : M → ℕ → ℕ → M
  pub priority : M → ℕ → ℤ
  pub inc_jiffies_used : M → ℕ → M
  pub dec_time_slice : M → ℕ → M
  pub set_time_slice : M → ℕ → ℕ → M
  -- time_slice <= 0
  pub slice_used_up : M → ℕ → Bool
  pub get_current : M → ℕ
  pub set_current : M → ℕ → M

-- `g_mode`, `g_queue` and its counters, `g_tick`
pub record Scheduler : Type 0 where
  pub mode : ℕ
  pub queue : List ℕ
  pub head : ℕ
  pub tail : ℕ
  pub count : ℕ
  pub tick : ℕ

unfoldable pub scheduler_init : Scheduler → ℕ → Scheduler
scheduler_init st mode = record st {
  mode = mode;
  queue = replicate queue_size 0;
  head = 0;
  tail = 0;
  count = 0;
}

unfoldable pub scheduler_add : Scheduler → ℕ → Scheduler
scheduler_add st proc = if proc == 0 || leb queue_size st.count then st else record st {
  queue = set st.queue (st.tail % queue_size) proc;
  tail = (st.tail + 1) % 2 ^ 32;
  count = (st.count + 1) % 2 ^ 32;
}

-- (g_queue_head + i) % 256, and what is there
abbrev pub place : Scheduler → ℕ → ℕ
place st i = (st.head + i) % 2 ^ 32 % queue_size

abbrev pub queued : Scheduler → ℕ → ℕ
queued st i = get_or st.queue (place st i) 0

-- The loop from round `i` on, for `rounds` more.
unfoldable pub remove_from : ℕ → ℕ → Scheduler → ℕ → Scheduler
remove_from zero i st proc = st
remove_from (suc rounds) i st proc =
    let rest = remove_from rounds (i + 1) st proc in
    if queued st i == proc
    then record st { queue = set st.queue (place st i) 0; count = (st.count + 2 ^ 32 - 1) % 2 ^ 32 }
    else rest

unfoldable pub scheduler_remove : Scheduler → ℕ → Scheduler
unfolding remove_from
scheduler_remove st proc = remove_from st.count 0 st proc

-- a > b
unfoldable pub greater : ℤ → ℤ → Bool
greater (pos a) (pos b) = ltb b a
greater (pos a) (negsuc b) = true
greater (negsuc a) (pos b) = false
greater (negsuc a) (negsuc b) = ltb a b

unfoldable pub scheduler_set_mode : Scheduler → ℕ → Scheduler
scheduler_set_mode st mode = record st { mode = mode }

unfoldable pub scheduler_get_running_count : Scheduler → ℕ
scheduler_get_running_count st = st.count

module _ {ℓ} {M : Type ℓ} (procs : Processes M) where
  -- p && p->state == PROCESS_STATE_READY
  abbrev pub is_ready : M → ℕ → Bool
  is_ready m p = not (p == 0) && procs.state m p == procs.ready

  unfoldable pub next_round_robin : ℕ → ℕ → Scheduler → M → Scheduler × ℕ
  next_round_robin zero i st m = (st, 0)
  next_round_robin (suc rounds) i st m =
      let rest = next_round_robin rounds (i + 1) st m in
      if is_ready m (queued st i)
      then (record st { head = (st.head + i + 1) % 2 ^ 32 % queue_size }, queued st i)
      else rest

  -- `best` and `best_prio`
  unfoldable pub next_priority : ℕ → ℕ → Scheduler → M → ℕ × ℤ → ℕ × ℤ
  unfolding greater
  next_priority zero i st m best = best
  next_priority (suc rounds) i st m (best, best_prio) = next_priority rounds (i + 1) st m (
      if is_ready m (queued st i) && greater (procs.priority m (queued st i)) best_prio
      then (queued st i, procs.priority m (queued st i))
      else (best, best_prio))

  unfoldable pub scheduler_next : Scheduler → M → Scheduler × ℕ
  unfolding next_round_robin next_priority
  scheduler_next st m =
      if st.count == 0
      then (st, 0)
      else if st.mode == round_robin
      then next_round_robin queue_size 0 st m
      else if st.mode == priority_mode
      then (st, (next_priority queue_size 0 st m (0, negsuc 999)).0)
      else (st, 0)

  -- next && next != cur
  switch_to : Scheduler × ℕ → M → ℕ → Scheduler × M
  switch_to (st, next) m cur =
      if not (next == 0) && not (next == cur)
      then (
        st,
        procs.set_state (procs.set_current (procs.set_state m cur procs.ready) next) next
            procs.ready,
      )
      else (st, m)

  -- The end of a time slice.
  expire : Scheduler → M → ℕ → Scheduler × M
  unfolding switch_to
  expire st m cur =
      let m' = procs.set_time_slice m cur sched_time_slice in
      switch_to (scheduler_next st m') m' cur

  charge : Scheduler → M → ℕ → Scheduler × M
  unfolding expire
  charge st m cur =
      let m' = procs.dec_time_slice (procs.inc_jiffies_used m cur) cur in
      if procs.slice_used_up m' cur then expire st m' cur else (st, m')

  start : Scheduler × ℕ → M → Scheduler × M
  start (st, next) m = (st, procs.set_current m next)

  unfoldable pub scheduler_tick : Scheduler → M → Scheduler × M
  unfolding charge start
  scheduler_tick st m =
      let st' : Scheduler = record st { tick = (st.tick + 1) % 2 ^ 32 } in
      if procs.get_current m == 0
      then start (scheduler_next st' m) m
      else charge st' m (procs.get_current m)

  unfoldable pub scheduler_yield : Scheduler → M → Scheduler × M
  unfolding scheduler_tick
  scheduler_yield st m =
      let cur = procs.get_current m in
      if cur == 0 then (st, m) else scheduler_tick st (procs.set_time_slice m cur 0)

  unfoldable pub scheduler_block : M → ℕ → M
  scheduler_block m proc = if proc == 0 then m else procs.set_state m proc procs.blocked

  unfoldable pub scheduler_unblock : M → ℕ → M
  scheduler_unblock m proc = if proc == 0 then m else procs.set_state m proc procs.ready
