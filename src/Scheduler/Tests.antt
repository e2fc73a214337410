-- ===== src/Scheduler/Tests.antt =====
-- The theorems about kernel/scheduler.c with three processes.
use blockos.Prelude.{ℕ, ◌≡◌, refl, true, [], ◌∷◌, pos, if◌then◌else◌, ◌==◌, arith}
use blockos.Scheduler.{
  Scheduler, Processes, scheduler_next, scheduler_remove, queue_size, round_robin, priority_mode,
}
use blockos.Scheduler.Remove.{scheduler_remove_lost}
use blockos.Scheduler.Next.{IsTurn, IsTop, scheduler_next-IsTurn, scheduler_next-IsTop}

-- Every process but the blocked one is ready, and its priority is its number.
abbrev Memory : Type 0
Memory = ℕ × ℕ

abbrev processes : Processes Memory
processes = record {
  ready = 1;
  blocked = 2;
  state = λ m p. if p == m.0 then 2 else 1;
  set_state = λ m p s. if s == 2 then (p, m.1) else m;
  priority = λ m p. pos p;
  inc_jiffies_used = λ m p. m;
  dec_time_slice = λ m p. m;
  set_time_slice = λ m p n. m;
  slice_used_up = λ m p. true;
  get_current = λ m. m.1;
  set_current = λ m p. (m.0, p);
}

abbrev empty_queue : Scheduler
empty_queue = record { mode = 0; queue = []; head = 0; tail = 0; count = 0; tick = 0 }

abbrev three : ℕ → Scheduler
three mode = record {
  mode = mode;
  queue = 10 ∷ 30 ∷ 20 ∷ [];
  head = 0;
  tail = 3;
  count = 3;
  tick = 0;
}

scheduler_next-IsTurn_example :
    IsTurn processes
      (three round_robin)
      (10, 0)
      queue_size
      0
      (scheduler_next processes (three round_robin) (10, 0))
scheduler_next-IsTurn_example =
    scheduler_next-IsTurn processes (three round_robin) (10, 0) (omega arith) refl

scheduler_next-IsTop_example :
    ((scheduler_next processes (three priority_mode) (10, 0)).0 ≡ three priority_mode)
    × IsTop processes
        (three priority_mode)
        (10, 0)
        (scheduler_next processes (three priority_mode) (10, 0)).1
scheduler_next-IsTop_example =
    scheduler_next-IsTop processes (three priority_mode) (10, 0) (omega arith) refl

abbrev lone : Scheduler
lone = record { mode = round_robin; queue = 30 ∷ []; head = 0; tail = 1; count = 1; tick = 0 }

scheduler_remove_lost_example :
    scheduler_remove (scheduler_next processes lone (10, 0)).0 30
    ≡ (scheduler_next processes lone (10, 0)).0
scheduler_remove_lost_example =
    scheduler_remove_lost processes lone (10, 0) refl refl refl (omega arith)
