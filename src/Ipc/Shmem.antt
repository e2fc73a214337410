-- ===== src/Ipc/Shmem.antt =====
-- The shared memory segments of kernel/ipc.c. Their memory comes from `malloc`, so the state is the
-- table `g_shmem` with the allocator's `heap_ptr`; an address is an offset in the heap.
pub mod Disjoint
use blockos.Prelude.{
  ℕ, Bool, true, false, List, [], ◌∷◌, Option, none, some, ℤ, pos, minus_one, if◌then◌else◌,
  is_some, modify, replicate,
}
use blockos.Heap.{malloc}
use blockos.Slots.{slot, slot_set, first_free}

-- IPC_MAX_SHMEM
abbrev pub max_shmem : ℕ
max_shmem = 16

-- `ipc_shmem_t`; a null `addr` is `none`.
pub record Segment : Type 0 where
  pub addr : Option ℕ
  pub size : ℕ
  pub key : ℕ
  pub active : Bool
  pub owner_pid : ℕ

pub record Shmem : Type 0 where
  pub segments : List Segment
  pub heap_ptr : ℕ

abbrev pub zeroed : Segment
zeroed = record { addr = none; size = 0; key = 0; active = false; owner_pid = 0 }

-- `ipc_init`, of this table
unfoldable pub init : ℕ → Shmem
init heap_ptr = record { segments = replicate max_shmem zeroed; heap_ptr = heap_ptr }

-- Slot `i` after `malloc` has returned; on failure its `addr` is overwritten all the same.
fill : Shmem → ℕ → ℕ → ℕ → Option ℕ × ℕ → Shmem × ℤ
fill st i key size (none, next) = (
  record { segments = modify st.segments i (λ s. record s { addr = none }); heap_ptr = next },
  minus_one,
)
fill st i key size (some a, next) = (
  record {
    segments =
        modify st.segments i
          (λ s. record s { addr = some a; size = size; key = key; active = true });
    heap_ptr = next;
  },
  pos i,
)

create_at : Shmem → Option ℕ → ℕ → ℕ → Shmem × ℤ
unfolding fill
create_at st none key size = (st, minus_one)
create_at st (some i) key size = fill st i key size (malloc st.heap_ptr size)

unfoldable pub create : Shmem → ℕ → ℕ → Shmem × ℤ
unfolding create_at
create st key size = create_at st (first_free (λ s. s.active) st.segments) key size

attach_at : Option Segment → Option ℕ
attach_at none = none
attach_at (some s) = if s.active then s.addr else none

unfoldable pub attach : Shmem → ℤ → Option ℕ
unfolding attach_at
attach st id = attach_at (slot st.segments id)

-- It only tests the range of `id`.
pub detach : Shmem → ℤ → Bool
detach st id = is_some (slot st.segments id)

destroy_at : Shmem → ℤ → Option Segment → Shmem × Bool
destroy_at st id none = (st, false)
destroy_at st id (some s) =
    if s.active
    then (record st { segments = slot_set st.segments id (record s { active = false }) }, true)
    else (st, false)

-- `free` does nothing, so the heap keeps the segment's memory.
unfoldable pub destroy : Shmem → ℤ → Shmem × Bool
unfolding destroy_at
destroy st id = destroy_at st id (slot st.segments id)

-- The calls that change the state.
pub data Call : Type 0 where
  creates : ℕ → ℕ → Call
  destroys : ℤ → Call

unfoldable pub after : Shmem → List Call → Shmem
after st [] = st
after st (creates key size ∷ cs) = after (create st key size).0 cs
after st (destroys id ∷ cs) = after (destroy st id).0 cs
