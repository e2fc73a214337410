-- ===== src/Ipc/Queue/Sender.antt =====
-- `ipc_queue_send` writes the type, the size and the text of a message, and never its `sender_pid`.
use blockos.Prelude.{
  ℕ, zero, suc, ◌%◌, ◌≡◌, refl, inl, inr, List, [], ◌∷◌, Option, none, some, ℤ, ◌==◌, leb,
  Bool-cases, get_or,
}
use blockos.Ring.{Ring, put, front, drop_front}
use blockos.Slots.{slot}
use blockos.Slots.Laws.{All, All-set, All-slot, All-slot_set, All-modify, All-replicate}
use blockos.Ipc.Queue.{
  Message, Queue, msg_max, max_queues, blank, zeroed, init, opened, filled, create, create_at, send,
  send_at, recv, recv_at, destroy, destroy_at, Call, Reply, handle, done, received, step, run,
}

abbrev NoSender : Message → Type 0
NoSender m = m.sender_pid ≡ 0

abbrev Quiet : Queue → Type 0
Quiet q = All NoSender q.ring.slots

-- A message that a call hands out names no sender.
abbrev pub Unsigned : Reply → Type 0
Unsigned (handle qid) = Unit {0}
Unsigned (done b) = Unit {0}
Unsigned (received none) = Unit {0}
Unsigned (received (some m)) = NoSender m

get_or-NoSender : (ms : List Message) (i : ℕ) → All NoSender ms → NoSender (get_or ms i blank)
unfolding blank
get_or-NoSender [] i h = refl
get_or-NoSender (m ∷ ms) zero h = h.0
get_or-NoSender (m ∷ ms) (suc i) h = get_or-NoSender ms i h.1

put-Quiet :
    (r : Ring Message) (m : Message)
    → All NoSender r.slots
    → NoSender m
    → All NoSender (put msg_max r m).slots
unfolding put
put-Quiet r m h k = All-set NoSender r.slots (r.tail % msg_max) m h k

filled-NoSender : (m : Message) (type : ℕ) (bs : List ℕ) → NoSender m → NoSender (filled m type bs)
unfolding filled
filled-NoSender m type bs h = h

module _ (t : List Queue) (v : All Quiet t) where
  create-Quiet : (owner : ℕ) (o : Option ℕ) → All Quiet (create_at t o owner).0
  unfolding create_at opened
  create-Quiet owner none = v
  create-Quiet owner (some i) = All-modify Quiet t i _ v (λ q h. h)

  send-Quiet :
      (qid : ℤ) (type : ℕ) (bs : List ℕ) (o : Option Queue)
      → slot t qid ≡ o
      → All Quiet (send_at t qid o type bs).0
  unfolding send_at
  send-Quiet qid type bs none e = v
  send-Quiet qid type bs (some q) e =
      let quiet : Quiet q = All-slot Quiet t qid v e in
      let m : Message = filled (get_or q.ring.slots (q.ring.tail % msg_max) blank) type bs in
      let old = get_or-NoSender q.ring.slots (q.ring.tail % msg_max) quiet in
      let kept =
        All-slot_set Quiet t qid (record q { ring = put msg_max q.ring m }) v
          (put-Quiet q.ring m quiet
            (filled-NoSender (get_or q.ring.slots (q.ring.tail % msg_max) blank) type bs old)) in
      elim (Bool-cases q.active) [
        | inl on ↦ rw on (elim (Bool-cases (leb msg_max q.ring.count)) [
          | inl full ↦ rw full v
          | inr room ↦ rw room (rw on at kept)
        ])
        | inr off ↦ rw off v
      ]

  recv-Quiet :
      (qid : ℤ) (o : Option Queue)
      → slot t qid ≡ o
      → All Quiet (recv_at t qid o).0 × Unsigned (received (recv_at t qid o).1)
  unfolding recv_at front drop_front
  recv-Quiet qid none e = (v, tt)
  recv-Quiet qid (some q) e =
      let quiet : Quiet q = All-slot Quiet t qid v e in
      elim (Bool-cases q.active) [
        | inl on ↦ rw on (elim (Bool-cases (q.ring.count == 0)) [
          | inl empty ↦ rw empty (v, tt)
          | inr some_left ↦ rw some_left (
            All-slot_set Quiet t qid _ v quiet,
            get_or-NoSender q.ring.slots (q.ring.head % msg_max) quiet,
          )
        ])
        | inr off ↦ rw off (v, tt)
      ]

  destroy-Quiet : (qid : ℤ) (o : Option Queue) → slot t qid ≡ o → All Quiet (destroy_at t qid o).0
  unfolding destroy_at
  destroy-Quiet qid none e = v
  destroy-Quiet qid (some q) e = All-slot_set Quiet t qid _ v (All-slot Quiet t qid v e)

  step-Quiet : (c : Call) → All Quiet (step t c).0 × Unsigned (step t c).1
  unfolding step create send recv destroy
  step-Quiet (Call.creates owner) = (create-Quiet owner _, tt)
  step-Quiet (Call.sends qid type bs) = (send-Quiet qid type bs _ refl, tt)
  step-Quiet (Call.recvs qid) = recv-Quiet qid _ refl
  step-Quiet (Call.destroys qid) = (destroy-Quiet qid _ refl, tt)

run-Quiet : (t : List Queue) (cs : List Call) → All Quiet t → All Unsigned (run t cs)
unfolding run
run-Quiet t [] v = tt
run-Quiet t (c ∷ cs) v = let s = step-Quiet t v c in (s.1, run-Quiet (step t c).0 cs s.0)

-- Whatever is called after `ipc_init`, every message received has 0 for its sender's pid.
pub queue_run-Unsigned : (cs : List Call) → All Unsigned (run init cs)
unfolding init zeroed blank
queue_run-Unsigned cs =
    run-Quiet _ cs
      (All-replicate Quiet max_queues zeroed (All-replicate NoSender msg_max blank refl))
