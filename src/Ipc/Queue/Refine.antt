-- ===== src/Ipc/Queue/Refine.antt =====
-- A table of valid message queues behaves as the table of the texts that they hold.
use mathlib.Core.Option
use mathlib.Core.List.{map-append}
use blockos.Prelude.{
  ℕ, ◌%◌, ◌<◌, ◌≡◌, refl, sym, ◌∙◌, ap, inl, inr, ◌≢◌, List, [], ◌∷◌, ◌++◌, map, Option, none, some,
  ℤ, arith, if◌then◌else◌, ◌==◌, ltb, leb, is_some, Bool-cases, replicate, length-replicate, take,
  drop, length, length-map, get_or, nil_of_length, take-append_take, take-of_length_le,
}
use blockos.Ring.{Ring, put}
use blockos.Ring.Contents.{
  IsCapacity, IsValid, contents, window, length-contents, contents-put, put-IsValid,
  contents-drop_front, drop_front-IsValid,
}
use blockos.Slots.{slot, slot_set, first_free}
use blockos.Slots.Laws.{
  All, All-slot, All-slot_set, All-modify, All-replicate, map-replicate, map-modify_const,
  map-slot_set, slot-map, first_free-map,
}
use blockos.Ipc.Queue.{
  Message, Queue, msg_max, msg_max_size, max_queues, blank, zeroed, init, opened, filled, create,
  create_at, send, send_at, recv, recv_at, destroy, destroy_at, Call, Reply, handle, done, received,
  step, run,
}
use blockos.Ipc.Queue.Spec

capacity : IsCapacity msg_max
capacity = record { cap_pos = omega arith; cap_small = omega arith; wrap = λ x. omega arith }

abbrev held : Ring Message → List Message
held r = contents msg_max blank r

-- What a receiver reads of a message: its type, and the `size` bytes of its text.
abbrev pub text : Message → Spec.Text
text m = (m.type, take m.size m.bytes)

abbrev pub IsQueue : Queue → Type 0
IsQueue q = IsValid Message msg_max q.ring

abbrev pub view : Queue → Option (List Spec.Text)
view q = if q.active then some (map text (held q.ring)) else none

abbrev pub see : Reply → Spec.Reply
see (handle qid) = Spec.handle qid
see (done b) = Spec.done b
see (received m) = Spec.received (Option.map text m)

is_some-view : (q : Queue) → is_some (view q) ≡ q.active
is_some-view q = ground arith

-- The number of bytes that a send copies.
abbrev fit : ℕ → List ℕ → ℕ
fit k bs = if ltb (length bs) k then length bs else k

take-fit : (k : ℕ) (bs ys : List ℕ) → take (fit k bs) (take (fit k bs) bs ++ ys) ≡ take k bs
take-fit k bs ys = elim (Bool-cases (ltb (length bs) k)) [
  | inl short ↦ rw short (
      take-append_take (length bs) bs ys (omega arith)
      ∙ take-of_length_le (length bs) bs (omega arith)
      ∙ sym (take-of_length_le k bs (ground arith)))
  | inr long ↦ rw long (take-append_take k bs ys (ground arith))
]

text-filled :
    (m : Message) (type : ℕ) (bs : List ℕ) → text (filled m type bs) ≡ (type, take msg_max_size bs)
unfolding filled
text-filled m type bs =
    ap (λ b. (type, b)) (take-fit msg_max_size bs (drop (fit msg_max_size bs) m.bytes))

abbrev Agrees : List Queue × Reply → Spec.Table × Spec.Reply → Type 0
Agrees (t, r) (s, q) = (map view t ≡ s) × (see r ≡ q) × All IsQueue t

-- A send adds its type and the bytes that fit behind the texts that are waiting.
texts :
    (r : Ring Message) (type : ℕ) (bs : List ℕ)
    → IsValid Message msg_max r
    → r.count < msg_max
    → map text (held (put msg_max r (filled (get_or r.slots (r.tail % msg_max) blank) type bs)))
      ≡ map text (held r) ++ (type, take msg_max_size bs) ∷ []
texts r type bs v h =
    let m : Message = filled (get_or r.slots (r.tail % msg_max) blank) type bs in
    ap (map text) (contents-put msg_max blank capacity r v m h)
    ∙ map-append text (held r) (m ∷ [])
    ∙ ap (λ x. map text (held r) ++ x ∷ [])
        (text-filled (get_or r.slots (r.tail % msg_max) blank) type bs)

module _ (t : List Queue) (v : All IsQueue t) where
  create_refines :
      (owner : ℕ) (o : Option ℕ)
      → Agrees
          (let (t', qid) = create_at t o owner in (t', handle qid))
          (Spec.create_at (map view t) o)
  unfolding create_at opened Spec.create_at contents window
  create_refines owner none = (refl, refl, v)
  create_refines owner (some i) = (
    map-modify_const view t i (λ q. opened q owner) (some []) (λ q. refl),
    refl,
    All-modify IsQueue t i _ v
        (λ q h. record { storage = h.storage; fits = omega arith; tail_at = refl }),
  )

  length-view : (q : Queue) → length (map text (held q.ring)) ≡ q.ring.count
  length-view q = length-map (held q.ring) text ∙ length-contents msg_max blank q.ring

  send_refines :
      (qid : ℤ) (type : ℕ) (bs : List ℕ) (o : Option Queue)
      → slot t qid ≡ o
      → Agrees
          (let (t', b) = send_at t qid o type bs in (t', done b))
          (Spec.send_at (map view t) qid (Option.map view o) type bs)
  unfolding send_at Spec.send_at
  send_refines qid type bs none e = (refl, refl, v)
  send_refines qid type bs (some q) e = elim (Bool-cases q.active) [
    | inl on ↦
        rw (on, length-view q)
          (elim (Bool-cases (leb msg_max q.ring.count)) [
            | inl full ↦ rw full (refl, refl, v)
            | inr room ↦
                let valid : IsQueue q = All-slot IsQueue t qid v e in
                let h : q.ring.count < msg_max = ground arith in
                let m : Message =
                  filled (get_or q.ring.slots (q.ring.tail % msg_max) blank) type bs in
                rw room (
                  map-slot_set view t qid _
                      ∙ ap (λ l. slot_set (map view t) qid (some l)) (texts q.ring type bs valid h),
                  refl,
                  All-slot_set IsQueue t qid _ v
                      (put-IsValid msg_max blank capacity q.ring valid m h),
                )
          ])
    | inr off ↦ rw off (refl, refl, v)
  ]

  recv_refines :
      (qid : ℤ) (o : Option Queue)
      → slot t qid ≡ o
      → Agrees
          (let (t', m) = recv_at t qid o in (t', received m))
          (Spec.recv_at (map view t) qid (Option.map view o))
  unfolding recv_at Spec.recv_at
  recv_refines qid none e = (refl, refl, v)
  recv_refines qid (some q) e = elim (Bool-cases q.active) [
    | inl on ↦ rw on (elim (Bool-cases (q.ring.count == 0)) [
      | inl empty ↦
          let nothing : held q.ring ≡ [] =
            nil_of_length (held q.ring) (length-contents msg_max blank q.ring ∙ ground arith) in
          rw (empty, nothing) (refl, refl, v)
      | inr some_left ↦
          let valid : IsQueue q = All-slot IsQueue t qid v e in
          let h : q.ring.count ≢ 0 = ground arith in
          rw (some_left, contents-drop_front msg_max blank capacity q.ring valid h)
            (
              map-slot_set view t qid _,
              refl,
              All-slot_set IsQueue t qid _ v
                  (drop_front-IsValid msg_max blank capacity q.ring valid h),
            )
    ])
    | inr off ↦ rw off (refl, refl, v)
  ]

  destroy_refines :
      (qid : ℤ) (o : Option Queue)
      → slot t qid ≡ o
      → Agrees
          (let (t', b) = destroy_at t qid o in (t', done b))
          (Spec.destroy_at (map view t) qid (Option.map view o))
  unfolding destroy_at Spec.destroy_at
  destroy_refines qid none e = (refl, refl, v)
  destroy_refines qid (some q) e =
      (map-slot_set view t qid _, refl, All-slot_set IsQueue t qid _ v (All-slot IsQueue t qid v e))

  step_refines : (c : Call) → Agrees (step t c) (Spec.step (map view t) c)
  unfolding step create send recv destroy Spec.step
  step_refines (Call.creates owner) =
      rw (first_free-map view (λ q. q.active) is_some is_some-view t)
        (create_refines owner (first_free (λ q. q.active) t))
  step_refines (Call.sends qid type bs) =
      rw (slot-map view t qid) (send_refines qid type bs (slot t qid) refl)
  step_refines (Call.recvs qid) = rw (slot-map view t qid) (recv_refines qid (slot t qid) refl)
  step_refines (Call.destroys qid) =
      rw (slot-map view t qid) (destroy_refines qid (slot t qid) refl)

pub run_refines :
    (t : List Queue) (cs : List Call)
    → All IsQueue t
    → map see (run t cs) ≡ Spec.run (map view t) cs
unfolding run Spec.run
run_refines t [] v = refl
run_refines t (c ∷ cs) v =
    let a = step_refines t v c in
    rw (a.1, ← a.0) (ap (◌∷◌ (Spec.step (map view t) c).1) (run_refines (step t c).0 cs a.2))

zeroed-IsQueue : IsQueue zeroed
unfolding zeroed
zeroed-IsQueue = record {
  storage = length-replicate {A = Message} msg_max blank;
  fits = omega arith;
  tail_at = refl;
}

view-zeroed : view zeroed ≡ none
unfolding zeroed
view-zeroed = refl

-- After `ipc_init`, what a client sees of any sequence of calls is what a table of closed bounded
-- queues of texts answers: first in first out, at most 64 messages, texts cut at 512 bytes.
pub queue_run-init :
    (cs : List Call) → map see (run init cs) ≡ Spec.run (replicate max_queues none) cs
unfolding init
queue_run-init cs =
    rw (← view-zeroed, ← map-replicate view max_queues zeroed)
      (run_refines (replicate max_queues zeroed) cs
        (All-replicate IsQueue max_queues zeroed zeroed-IsQueue))
