-- ===== src/Heap.antt =====
-- `malloc` of kernel/generic.c: a bump allocator. Its state is `heap_ptr`, a uint32_t; an address is
-- an offset in `heap`; `free` does nothing.
pub mod Blocks
pub mod Tests
use blockos.Prelude.{
  ℕ, ◌+◌, ◌*◌, ◌/◌, ◌%◌, ◌^◌, ◌≡◌, List, [], ◌∷◌, Option, none, some, if◌then◌else◌, ltb,
}

-- sizeof(heap)
abbrev pub heap_size : ℕ
heap_size = 8388608

abbrev pub add32 : ℕ → ℕ → ℕ
add32 a b = (a + b) % 2 ^ 32

-- (x + 3) & ~3
abbrev pub align : ℕ → ℕ
align x = add32 x 3 / 4 * 4

-- The result and the new `heap_ptr`.
unfoldable pub malloc : ℕ → ℕ → Option ℕ × ℕ
malloc heap_ptr size =
    if ltb heap_size (add32 heap_ptr size)
    then (none, heap_ptr)
    else (some heap_ptr, align (add32 heap_ptr size))
