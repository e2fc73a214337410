-- ===== src/Heap/Blocks.antt =====
-- The blocks that `malloc` hands out: where they lie, and what goes wrong for sizes near 2 ^ 32.
use blockos.Prelude.{
  ℕ, ◌+◌, ◌-◌, ◌%◌, ◌^◌, ◌≤◌, ◌<◌, ◌≡◌, refl, ◌⊎◌, inl, List, [], ◌∷◌, Option, none, some, arith,
}
use blockos.Slots.Laws.{All}
use blockos.Heap.{heap_size, malloc}

-- `heap_ptr` stays in the heap, at a multiple of four.
pub record IsHeapPtr (heap_ptr : ℕ) : Type 0 where
  pub inside : heap_ptr ≤ heap_size
  pub aligned : heap_ptr % 4 ≡ 0

-- A size for which `heap_ptr + size` does not wrap.
abbrev pub IsSmall : ℕ → Type 0
IsSmall size = size < 2 ^ 32 - heap_size

pub record Block : Type 0 where
  pub at : ℕ
  pub size : ℕ

abbrev pub Apart : Block → Block → Type 0
Apart b c = (b.at + b.size ≤ c.at) ⊎ (c.at + c.size ≤ b.at)

-- A block that `malloc` returns lies in the heap, above `heap_ptr` before and below it after.
pub malloc_block :
    (heap_ptr size p : ℕ)
    → IsHeapPtr heap_ptr
    → IsSmall size
    → (malloc heap_ptr size).0 ≡ some p
    → (p ≡ heap_ptr) × (p + size ≤ (malloc heap_ptr size).1) × IsHeapPtr (malloc heap_ptr size).1
unfolding malloc
malloc_block heap_ptr size p v small e = ground arith

-- `malloc` fails exactly when the block does not fit, and then changes nothing.
pub malloc-none :
    (heap_ptr size : ℕ)
    → IsHeapPtr heap_ptr
    → IsSmall size
    → heap_size < heap_ptr + size
    → malloc heap_ptr size ≡ (none, heap_ptr)
unfolding malloc
malloc-none heap_ptr size v small h = ground arith

handed_out : Option ℕ → ℕ → List Block → List Block
handed_out none size bs = bs
handed_out (some p) size bs = record { at = p; size = size } ∷ bs

-- The blocks that a sequence of calls gets.
pub blocks : ℕ → List ℕ → List Block
unfolding handed_out
blocks heap_ptr [] = []
blocks heap_ptr (size ∷ sizes) =
    let (o, next) = malloc heap_ptr size in handed_out o size (blocks next sizes)

abbrev pub Above : ℕ → Block → Type 0
Above x b = (x ≤ b.at) × (b.at + b.size ≤ heap_size)

Above-mono : (x y : ℕ) (bs : List Block) → y ≤ x → All (Above x) bs → All (Above y) bs
Above-mono x y [] h a = tt
Above-mono x y (b ∷ bs) h a = (omega arith, Above-mono x y bs h a.1)

abbrev pub IsDisjoint : List Block → Type 0
IsDisjoint [] = Unit {0}
IsDisjoint (b ∷ bs) = All (Apart b) bs × IsDisjoint bs

-- Blocks that lie above the end of one block are apart from it.
Above-Apart : (b : Block) (bs : List Block) → All (Above (b.at + b.size)) bs → All (Apart b) bs
Above-Apart b [] a = tt
Above-Apart b (c ∷ bs) a = (inl a.0.0, Above-Apart b bs a.1)

handed_out-IsDisjoint :
    (heap_ptr size next : ℕ) (bs : List Block) (o : Option ℕ)
    → heap_ptr ≤ next
    → ((p : ℕ) → o ≡ some p → (p ≡ heap_ptr) × (p + size ≤ next) × (next ≤ heap_size))
    → IsDisjoint bs × All (Above next) bs
    → IsDisjoint (handed_out o size bs) × All (Above heap_ptr) (handed_out o size bs)
unfolding handed_out
handed_out-IsDisjoint heap_ptr size next bs none h f (d, a) = (d, Above-mono next heap_ptr bs h a)
handed_out-IsDisjoint heap_ptr size next bs (some p) h f (d, a) =
    let (e, end, top) = f p refl in
    (
      (Above-Apart (record { at = p; size = size }) bs (Above-mono next (p + size) bs end a), d),
      ((omega arith, omega arith), Above-mono next heap_ptr bs h a),
    )

pub malloc_next :
    (heap_ptr size : ℕ)
    → IsHeapPtr heap_ptr
    → IsSmall size
    → IsHeapPtr (malloc heap_ptr size).1 × (heap_ptr ≤ (malloc heap_ptr size).1)
unfolding malloc
malloc_next heap_ptr size v small = ground arith

-- Starting from a pointer inside the heap, and for sizes that do not make `heap_ptr + size` wrap, all
-- the blocks of a sequence of calls are pairwise disjoint, and each lies in the heap, from the
-- pointer on.
pub blocks-IsDisjoint :
    (heap_ptr : ℕ) (sizes : List ℕ)
    → IsHeapPtr heap_ptr
    → All IsSmall sizes
    → IsDisjoint (blocks heap_ptr sizes) × All (Above heap_ptr) (blocks heap_ptr sizes)
unfolding blocks
blocks-IsDisjoint heap_ptr [] v s = (tt, tt)
blocks-IsDisjoint heap_ptr (size ∷ sizes) v s =
    let n = malloc_next heap_ptr size v s.0 in
    handed_out-IsDisjoint heap_ptr size (malloc heap_ptr size).1 _ _ n.1
      (λ p e. let b = malloc_block heap_ptr size p v s.0 e in (b.0, b.1, n.0.inside))
      (blocks-IsDisjoint (malloc heap_ptr size).1 sizes n.0 s.1)

-- For a pointer inside the heap and a 32-bit size with which `heap_ptr + size` wraps, `malloc`
-- succeeds with a block that ends past the heap, and moves `heap_ptr` back to at most where that
-- block starts.
pub malloc_wraps :
    (heap_ptr size : ℕ)
    → IsHeapPtr heap_ptr
    → size < 2 ^ 32
    → 2 ^ 32 ≤ heap_ptr + size
    → ((malloc heap_ptr size).0 ≡ some heap_ptr)
      × (heap_size < heap_ptr + size)
      × ((malloc heap_ptr size).1 ≤ heap_ptr)
unfolding malloc
malloc_wraps heap_ptr size v s w = ground arith
