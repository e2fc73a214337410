-- ===== src/Heap/Tests.antt =====
-- The theorems about the allocator at concrete sizes.
use blockos.Prelude.{◌≡◌, ℕ, ◌<◌, ◌≤◌, ◌+◌, ◌-◌, ◌^◌, some, arith, List, [], ◌∷◌, refl}
use blockos.Slots.Laws.{All}
use blockos.Heap.{malloc, heap_size}
use blockos.Heap.Blocks.{blocks, IsDisjoint, Above, blocks-IsDisjoint, malloc_wraps}

abbrev sizes : List ℕ
sizes = 10 ∷ 20 ∷ 3 ∷ []

blocks-IsDisjoint_example : IsDisjoint (blocks 8 sizes) × All (Above 8) (blocks 8 sizes)
blocks-IsDisjoint_example =
    blocks-IsDisjoint 8 sizes (record { inside = omega arith; aligned = refl })
      (omega arith, (omega arith, (omega arith, tt)))

malloc_wraps_example :
    ((malloc 1000 (2 ^ 32 - 400)).0 ≡ some 1000)
    × (heap_size < 1000 + (2 ^ 32 - 400))
    × ((malloc 1000 (2 ^ 32 - 400)).1 ≤ 1000)
malloc_wraps_example =
    malloc_wraps 1000 (2 ^ 32 - 400) (record { inside = omega arith; aligned = refl }) (omega arith)
      (omega arith)
