-- ===== src/Ipc/Pipe/Refine.antt =====
-- A table of valid pipes behaves as the table of the queues that the pipes hold.
use mathlib.Core.Option
use mathlib.Core.List.{append-nil, append_assoc}
use blockos.Prelude.{
  ℕ, zero, suc, ◌-◌, ◌<◌, ◌≡◌, refl, sym, ◌∙◌, ap, inl, inr, List, [], ◌∷◌, ◌++◌, map, Option, none,
  some, ℤ, arith, if◌then◌else◌, ◌==◌, leb, is_some, Bool-cases, replicate, length-replicate, take,
  drop, length, take-nil, nil_of_length, ◌≢◌,
}
use blockos.Ring.{Ring, put, front, drop_front}
use blockos.Ring.Contents.{
  IsCapacity, IsValid, window, contents, length-contents, contents-put, put-IsValid, count-put,
  contents-drop_front, drop_front-IsValid,
}
use blockos.Slots.{slot, slot_set, first_free}
use blockos.Slots.Laws.{
  All, All-slot, All-slot_set, map-modify_const, All-modify, All-replicate, map-replicate,
  map-slot_set, slot-map, first_free-map,
}
use blockos.Ipc.Pipe.{
  create_at, write_at, read_at, close_at, handle, done, bytes, Pipe, pipe_size, max_pipes, zeroed,
  init, opened, create, write_loop, write, read_loop, read, close, Call, Reply, step, run,
}
use blockos.Ipc.Pipe.Spec

capacity : IsCapacity pipe_size
capacity = record { cap_pos = omega arith; cap_small = omega arith; wrap = λ x. omega arith }

abbrev held : Ring ℕ → List ℕ
held r = contents pipe_size 0 r

abbrev IsRing : Ring ℕ → Type 0
IsRing r = IsValid ℕ pipe_size r

-- The loop of a write appends the bytes that fit, and succeeds when all of them do.
pub write_loop_lem :
    (r : Ring ℕ) (bs : List ℕ)
    → IsRing r
    → (held (write_loop r bs).0 ≡ held r ++ take (pipe_size - r.count) bs)
      × ((write_loop r bs).1 ≡ leb (length bs) (pipe_size - r.count))
      × IsRing (write_loop r bs).0
unfolding write_loop
write_loop_lem r [] v = (
  sym (ap (◌++◌ (held r)) (take-nil (pipe_size - r.count)) ∙ append-nil (held r)),
  ground arith,
  v,
)
write_loop_lem r (b ∷ bs) v = elim (Bool-cases (leb pipe_size r.count)) [
  | inl full ↦
      let none_left : pipe_size - r.count ≡ 0 = ground arith in
      rw (full, none_left) (sym (append-nil (held r)), ground arith, v)
  | inr room ↦
      let h : r.count < pipe_size = ground arith in
      let r' : Ring ℕ = put pipe_size r b in
      let ih = write_loop_lem r' bs (put-IsValid pipe_size 0 capacity r v b h) in
      let left : pipe_size - r.count ≡ suc (pipe_size - r'.count) =
        omega (arith, count-put pipe_size 0 capacity r v b h) in
      rw (room, left)
        (
          ih.0
              ∙ ap (λ q. q ++ take (pipe_size - r'.count) bs)
                  (contents-put pipe_size 0 capacity r v b h)
              ∙ append_assoc (held r) (b ∷ []) (take (pipe_size - r'.count) bs),
          ih.1 ∙ ground arith,
          ih.2,
        )
]

-- The loop of a read takes the oldest bytes, up to the number that was asked for.
pub read_loop_lem :
    (n : ℕ) (r : Ring ℕ)
    → IsRing r
    → ((read_loop n r).0 ≡ take n (held r))
      × (held (read_loop n r).1 ≡ drop n (held r))
      × IsRing (read_loop n r).1
unfolding read_loop
read_loop_lem zero r v = (refl, refl, v)
read_loop_lem (suc n) r v = elim (Bool-cases (r.count == 0)) [
  | inl empty ↦
      let nothing : held r ≡ [] =
        nil_of_length (held r) (length-contents pipe_size 0 r ∙ ground arith) in
      rw empty (sym (ap (take (suc n)) nothing), nothing ∙ sym (ap (drop (suc n)) nothing), v)
  | inr some_left ↦
      let h : r.count ≢ 0 = ground arith in
      let first = contents-drop_front pipe_size 0 capacity r v h in
      let ih = read_loop_lem n (drop_front r) (drop_front-IsValid pipe_size 0 capacity r v h) in
      rw (some_left, first) (ap (◌∷◌ (front pipe_size 0 r)) ih.0, ih.1, ih.2)
]

abbrev pub IsPipe : Pipe → Type 0
IsPipe p = IsRing p.ring

-- What a client can see of a slot: the bytes of an open pipe.
abbrev pub view : Pipe → Option (List ℕ)
view p = if p.active then some (held p.ring) else none

is_some-view : (p : Pipe) → is_some (view p) ≡ p.active
is_some-view p = ground arith

-- An operation agrees with the specification: on the queues, on the reply, and it keeps pipes valid.
abbrev Agrees : List Pipe × Reply → Spec.Table × Reply → Type 0
Agrees (t, r) (s, q) = (map view t ≡ s) × (r ≡ q) × All IsPipe t

module _ (t : List Pipe) (v : All IsPipe t) where
  create_refines :
      (rpid wpid : ℕ) (o : Option ℕ)
      → Agrees
          (let (t', fd) = create_at t o rpid wpid in (t', handle fd))
          (Spec.create_at (map view t) o)
  unfolding create_at opened Spec.create_at contents window
  create_refines rpid wpid none = (refl, refl, v)
  create_refines rpid wpid (some i) = (
    map-modify_const view t i (λ p. opened p rpid wpid) (some []) (λ p. refl),
    refl,
    All-modify IsPipe t i _ v
        (λ p q. record { storage = q.storage; fits = omega arith; tail_at = refl }),
  )

  write_refines :
      (fd : ℤ) (bs : List ℕ) (o : Option Pipe)
      → slot t fd ≡ o
      → Agrees
          (let (t', b) = write_at t fd o bs in (t', done b))
          (Spec.write_at (map view t) fd (Option.map view o) bs)
  unfolding write_at Spec.write_at
  write_refines fd bs none e = (refl, refl, v)
  write_refines fd bs (some p) e = elim (Bool-cases p.active) [
    | inl on ↦
        let l = write_loop_lem p.ring bs (All-slot IsPipe t fd v e) in
        rw (on, length-contents pipe_size 0 p.ring)
          (
            map-slot_set view t fd _ ∙ ap (λ q. slot_set (map view t) fd (some q)) l.0,
            ap done l.1,
            All-slot_set IsPipe t fd _ v l.2,
          )
    | inr off ↦ rw off (refl, refl, v)
  ]

  read_refines :
      (fd : ℤ) (size : ℕ) (o : Option Pipe)
      → slot t fd ≡ o
      → Agrees
          (let (t', bs) = read_at t fd o size in (t', bytes bs))
          (Spec.read_at (map view t) fd (Option.map view o) size)
  unfolding read_at Spec.read_at
  read_refines fd size none e = (refl, refl, v)
  read_refines fd size (some p) e = elim (Bool-cases p.active) [
    | inl on ↦
        let l = read_loop_lem size p.ring (All-slot IsPipe t fd v e) in
        rw on (
          map-slot_set view t fd _ ∙ ap (λ q. slot_set (map view t) fd (some q)) l.1,
          ap bytes l.0,
          All-slot_set IsPipe t fd _ v l.2,
        )
    | inr off ↦ rw off (refl, refl, v)
  ]

  close_refines :
      (fd : ℤ) (o : Option Pipe)
      → slot t fd ≡ o
      → Agrees
          (let (t', b) = close_at t fd o in (t', done b))
          (Spec.close_at (map view t) fd (Option.map view o))
  unfolding close_at Spec.close_at
  close_refines fd none e = (refl, refl, v)
  close_refines fd (some p) e =
      (map-slot_set view t fd _, refl, All-slot_set IsPipe t fd _ v (All-slot IsPipe t fd v e))

  -- Each call of the interface agrees with the specification, and keeps the pipes valid.
  pub step_refines : (c : Call) → Agrees (step t c) (Spec.step (map view t) c)
  unfolding step create write read close Spec.step
  step_refines (Call.creates rpid wpid) =
      rw (first_free-map view (λ p. p.active) is_some is_some-view t)
        (create_refines rpid wpid (first_free (λ p. p.active) t))
  step_refines (Call.writes fd bs) = rw (slot-map view t fd) (write_refines fd bs (slot t fd) refl)
  step_refines (Call.reads fd size) =
      rw (slot-map view t fd) (read_refines fd size (slot t fd) refl)
  step_refines (Call.closes fd) = rw (slot-map view t fd) (close_refines fd (slot t fd) refl)

-- No sequence of calls tells a table of valid pipes from the table of the bounded queues that the
-- pipes hold: every reply of every call is the specification's.
pub run_refines :
    (t : List Pipe) (cs : List Call) → All IsPipe t → run t cs ≡ Spec.run (map view t) cs
unfolding run Spec.run
run_refines t [] v = refl
run_refines t (c ∷ cs) v =
    let a = step_refines t v c in
    rw (a.1, ← a.0) (ap (◌∷◌ (Spec.step (map view t) c).1) (run_refines (step t c).0 cs a.2))

zeroed-IsPipe : IsPipe zeroed
unfolding zeroed
zeroed-IsPipe = record {
  storage = length-replicate {A = ℕ} pipe_size 0;
  fits = omega arith;
  tail_at = refl;
}

view-zeroed : view zeroed ≡ none
unfolding zeroed
view-zeroed = refl

-- After `ipc_init`, no sequence of calls tells the pipes from a table of closed bounded queues.
pub pipe_run-init : (cs : List Call) → run init cs ≡ Spec.run (replicate max_pipes none) cs
unfolding init
pipe_run-init cs =
    rw (← view-zeroed, ← map-replicate view max_pipes zeroed)
      (run_refines (replicate max_pipes zeroed) cs
        (All-replicate IsPipe max_pipes zeroed zeroed-IsPipe))
