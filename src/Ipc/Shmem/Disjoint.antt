-- ===== src/Ipc/Shmem/Disjoint.antt =====
-- The segments that are open at one time do not overlap.
use mathlib.Core.Option
use blockos.Prelude.{
  ℕ, zero, suc, ◌+◌, ◌≤◌, ◌≡◌, refl, sym, ◌∙◌, ap, ◌≢◌, ◌⊎◌, inl, inr, false, List, [], ◌∷◌, Option,
  none, some, ℤ, pos, negsuc, arith, if◌then◌else◌, Bool-cases, get_elem?, modify, replicate,
  modify-eq-set, get_elem?-modify_ne, get_elem?-modify,
}
use native.Mathlib.Decide.{ℕ_discrete}
use blockos.Heap.{malloc}
use blockos.Heap.Blocks.{Block, Apart, IsHeapPtr, IsSmall, malloc_block, malloc_next}
use blockos.Slots.{slot, slot_set}
use blockos.Slots.Laws.{All}
use blockos.Ipc.Shmem.{
  Segment, Shmem, zeroed, init, fill, create_at, create, attach_at, attach, destroy_at, destroy,
  Call, creates, destroys, after, max_shmem,
}

-- The memory of an open segment.
abbrev span : Segment → Option Block
span s = if s.active then Option.map (λ a. record { at = a; size = s.size }) s.addr else none

abbrev spanned : Option Segment → Option Block
spanned none = none
spanned (some s) = span s

abbrev pub span_at : List Segment → ℕ → Option Block
span_at segments i = spanned (get_elem? segments i)

pub record IsValid (st : Shmem) : Type 0 where
  pub ptr : IsHeapPtr st.heap_ptr
  pub under : (i : ℕ) (b : Block) → span_at st.segments i ≡ some b → b.at + b.size ≤ st.heap_ptr
  pub apart :
      (i j : ℕ) (b c : Block)
      → i ≢ j
      → span_at st.segments i ≡ some b
      → span_at st.segments j ≡ some c
      → Apart b c

-- A slot whose memory is given up, or kept, does not disturb the others.
narrowing :
    (segments : List Segment) (i k : ℕ) (f : Segment → Segment) {b : Block}
    → ((s : Segment) (c : Block) → span (f s) ≡ some c → span s ≡ some c)
    → span_at (modify segments i f) k ≡ some b
    → span_at segments k ≡ some b
narrowing [] i k f narrow e = e
narrowing (s ∷ segments) zero zero f narrow e = narrow s _ e
narrowing (s ∷ segments) zero (suc k) f narrow e = e
narrowing (s ∷ segments) (suc i) zero f narrow e = e
narrowing (s ∷ segments) (suc i) (suc k) f narrow e = narrowing segments i k f narrow e

closing-IsValid :
    (st : Shmem) (i next : ℕ) (f : Segment → Segment)
    → IsValid st
    → IsHeapPtr next
    → st.heap_ptr ≤ next
    → ((s : Segment) (c : Block) → span (f s) ≡ some c → span s ≡ some c)
    → IsValid (record { segments = modify st.segments i f; heap_ptr = next })
closing-IsValid st i next f v p h narrow =
    let keep = λ (k : ℕ) (b : Block) (e : span_at (modify st.segments i f) k ≡ some b).
      narrowing st.segments i k f narrow e in
    record {
      ptr = p;
      under = λ k b e. let u = v.under k b (keep k b e) in omega arith;
      apart = λ k j b c ne e e'. v.apart k j b c ne (keep k b e) (keep j c e');
    }

same :
    (o : Option Segment) {b new : Block} (f : Segment → Segment)
    → ((s : Segment) → span (f s) ≡ some new)
    → spanned (Option.map f o) ≡ some b
    → b ≡ new
same none f opened e = ground arith
same (some s) f opened e = cc (opened s)

-- Where a slot is opened, each span is the new one or an old one of another slot.
span_cases :
    (segments : List Segment) (i k : ℕ) (new b : Block) (f : Segment → Segment)
    → ((s : Segment) → span (f s) ≡ some new)
    → span_at (modify segments i f) k ≡ some b
    → ((k ≡ i) × (b ≡ new)) ⊎ ((k ≢ i) × (span_at segments k ≡ some b))
span_cases segments i k new b f opened e = elim (ℕ_discrete k i) [
  | yes q ↦ inl (
    q,
    same (get_elem? segments i) f opened (
        ap spanned (sym (get_elem?-modify segments i f))
        ∙ ap (span_at (modify segments i f)) (sym q)
        ∙ e),
  )
  | no q ↦ inr (q, ap spanned (sym (get_elem?-modify_ne segments i k f (λ r. q (sym r)))) ∙ e)
]

-- A closed slot takes a block that lies above all the others.
module _ (st : Shmem) (i next : ℕ) (new : Block) (f : Segment → Segment) (v : IsValid st)
    (e : new.at ≡ st.heap_ptr) (h : new.at + new.size ≤ next)
    (opened : (s : Segment) → span (f s) ≡ some new) where
  opening-under :
      (k : ℕ) (b : Block) → span_at (modify st.segments i f) k ≡ some b → b.at + b.size ≤ next
  opening-under k b q = elim (span_cases st.segments i k new b f opened q) [
    | inl (_, same_block) ↦ rw same_block h
    | inr (_, old) ↦ omega (arith, v.under k b old)
  ]

  opening-Apart :
      (j k : ℕ) (b c : Block)
      → j ≢ k
      → span_at (modify st.segments i f) j ≡ some b
      → span_at (modify st.segments i f) k ≡ some c
      → Apart b c
  opening-Apart j k b c ne q r = elim (span_cases st.segments i j new b f opened q) [
    | inl (at_j, new_b) ↦ elim (span_cases st.segments i k new c f opened r) [
      | inl (at_k, _) ↦ absurd (ne (at_j ∙ sym at_k))
      | inr (_, old) ↦ inr (rw (new_b, e) (v.under k c old))
    ]
    | inr (_, old_b) ↦ elim (span_cases st.segments i k new c f opened r) [
      | inl (_, new_c) ↦ inl (rw (new_c, e) (v.under j b old_b))
      | inr (_, old_c) ↦ v.apart j k b c ne old_b old_c
    ]
  ]

  opening-IsValid :
      IsHeapPtr next → IsValid (record { segments = modify st.segments i f; heap_ptr = next })
  opening-IsValid p = record { ptr = p; under = opening-under; apart = opening-Apart }

drop_addr : (s : Segment) (c : Block) → span (record s { addr = none }) ≡ some c → span s ≡ some c
drop_addr s c e = ground arith

fill-IsValid :
    (st : Shmem) (i key size : ℕ)
    → IsValid st
    → IsSmall size
    → (r : Option ℕ × ℕ) → malloc st.heap_ptr size ≡ r
    → IsValid (fill st i key size r).0
unfolding fill
fill-IsValid st i key size v small (none, next) e =
    let n = malloc_next st.heap_ptr size v.ptr small in
    closing-IsValid st i next _ v (rw e at n).0 (rw e at n).1 (λ s c. drop_addr s c)
fill-IsValid st i key size v small (some a, next) e =
    let b = malloc_block st.heap_ptr size a v.ptr small (ap (λ r. r.0) e) in
    opening-IsValid st i next (record { at = a; size = size }) _ v b.0 (rw e at b).1 (λ s. refl)
      (rw e at b).2

create-IsValid :
    (st : Shmem) (key size : ℕ) (o : Option ℕ)
    → IsValid st
    → IsSmall size
    → IsValid (create_at st o key size).0
unfolding create_at
create-IsValid st key size none v small = v
create-IsValid st key size (some i) v small = fill-IsValid st i key size v small _ refl

destroy-IsValid :
    (st : Shmem) (id : ℤ) (o : Option Segment)
    → IsValid st
    → slot st.segments id ≡ o
    → IsValid (destroy_at st id o).0
unfolding destroy_at slot_set
destroy-IsValid st id none v e = v
destroy-IsValid st (negsuc n) (some s) v e = ground arith
destroy-IsValid st (pos i) (some s) v e = elim (Bool-cases s.active) [
  | inl on ↦ rw on (rw (modify-eq-set st.segments i close e) at closed)
  | inr off ↦ rw off v
]
  where
    close : Segment → Segment
    close t = record t { active = false }

    closed : IsValid (record { segments = modify st.segments i close; heap_ptr = st.heap_ptr })
    closed = closing-IsValid st i st.heap_ptr close v v.ptr (omega arith) (λ t c q. absurd (cc q))

abbrev pub Small : Call → Type 0
Small (creates key size) = IsSmall size
Small (destroys id) = Unit {0}

after-IsValid : (st : Shmem) (cs : List Call) → IsValid st → All Small cs → IsValid (after st cs)
unfolding after create destroy
after-IsValid st [] v s = v
after-IsValid st (creates key size ∷ cs) v s =
    after-IsValid (create st key size).0 cs (create-IsValid st key size _ v s.0) s.1
after-IsValid st (destroys id ∷ cs) v s =
    after-IsValid (destroy st id).0 cs (destroy-IsValid st id _ v refl) s.1

init-IsValid : (heap_ptr : ℕ) → IsHeapPtr heap_ptr → IsValid (init heap_ptr)
unfolding init
init-IsValid heap_ptr p = record {
  ptr = p;
  under = λ i b e. absurd (none_open max_shmem i e);
  apart = λ i j b c ne e e'. absurd (none_open max_shmem i e);
}
  where
    none_open : (n i : ℕ) {b : Block} → ¬ (span_at (replicate n zeroed) i ≡ some b)
    none_open zero i e = ground arith
    none_open (suc n) zero e = ground arith
    none_open (suc n) (suc i) e = none_open n i e

attached :
    (a : ℕ) (o : Option Segment) {s : Segment}
    → o ≡ some s
    → attach_at o ≡ some a
    → spanned o ≡ some (record { at = a; size = s.size })
unfolding attach_at
attached a o e h = ground arith

-- Whatever segments are created and destroyed after `ipc_init`, with sizes for which the allocator's
-- sum does not wrap: the memory that two different descriptors are attached to does not overlap.
pub attach_apart :
    (heap_ptr : ℕ) (cs : List Call) (i j a b : ℕ) (s t : Segment)
    → IsHeapPtr heap_ptr
    → All Small cs
    → i ≢ j
    → get_elem? (after (init heap_ptr) cs).segments i ≡ some s
    → get_elem? (after (init heap_ptr) cs).segments j ≡ some t
    → attach (after (init heap_ptr) cs) (pos i) ≡ some a
    → attach (after (init heap_ptr) cs) (pos j) ≡ some b
    → (a + s.size ≤ b) ⊎ (b + t.size ≤ a)
unfolding attach
attach_apart heap_ptr cs i j a b s t p small ne es et ea eb =
    let st : Shmem = after (init heap_ptr) cs in
    let v : IsValid st = after-IsValid (init heap_ptr) cs (init-IsValid heap_ptr p) small in
    v.apart i j (record { at = a; size = s.size }) (record { at = b; size = t.size }) ne
      (attached a (get_elem? st.segments i) es ea) (attached b (get_elem? st.segments j) et eb)
