-- ===== src/Vmm.antt =====
-- kernel/vmm.c: two-level page tables. Directory and tables are words in memory, at byte addresses;
-- the memory comes from `malloc` of kernel/generic.c, whose `heap` starts at the address `base`
-- that the linker chose, a multiple of four, so that no two words overlap; the heap lies below 2 ^
-- 32. Loads of cr0 and cr3 and `invlpg` are not part of the state.
pub mod Translate
pub mod Identity
pub mod Tests
use blockos.Prelude.{
  ℕ, zero, suc, ◌+◌, ◌-◌, ◌*◌, ◌/◌, ◌%◌, ◌^◌, Bool, true, false, not, ◌&&◌, Option, none, some,
  if◌then◌else◌, ◌==◌, ltb, leb,
}
use blockos.Heap.{malloc}

-- PAGE_SIZE, which is also the size of a page_table_t and of a page_dir_t
abbrev pub page_size : ℕ
page_size = 4096

-- `g_kernel_dir` (0 is NULL), `g_current_dir`, the words in memory, and the allocator's `heap_ptr`.
pub record Vmm : Type 0 where
  pub kernel_dir : ℕ
  pub current_dir : ℕ
  pub mem : ℕ → ℕ
  pub heap_ptr : ℕ

abbrev pub poke : (ℕ → ℕ) → ℕ → ℕ → ℕ → ℕ
poke mem a w b = if a == b then w else mem b

-- memset(a, 0, sizeof(page_table_t))
abbrev pub clear_page : (ℕ → ℕ) → ℕ → ℕ → ℕ
clear_page mem a b = if leb a b && ltb b (a + page_size) then 0 else mem b

-- memcpy(a, from, sizeof(page_dir_t))
abbrev pub copy_page : (ℕ → ℕ) → ℕ → ℕ → ℕ → ℕ
copy_page mem a from b = if leb a b && ltb b (a + page_size) then mem (from + (b - a)) else mem b

-- x & ~0xFFF, and x & 0xFFF
abbrev pub page_of : ℕ → ℕ
page_of x = x / page_size * page_size

abbrev pub offset_of : ℕ → ℕ
offset_of x = x % page_size

-- virt >> 22, and (virt >> 12) & 0x3FF
abbrev pub dir_idx : ℕ → ℕ
dir_idx virt = virt / 2 ^ 22

abbrev pub tbl_idx : ℕ → ℕ
tbl_idx virt = virt / 2 ^ 12 % 2 ^ 10

-- entry & PAGE_PRESENT
abbrev pub present : ℕ → Bool
present entry = entry % 2 == 1

-- tbl | PAGE_PRESENT | PAGE_WRITABLE
abbrev pub with_flags : ℕ → ℕ
with_flags tbl = tbl / 4 * 4 + 3

-- The address of entry `i` of the directory or table at `a`.
abbrev pub entry_at : ℕ → ℕ → ℕ
entry_at a i = a + 4 * i

write_entry : Vmm → ℕ → ℕ → ℕ → ℕ → Vmm
write_entry st tbl virt phys flags = record st {
  mem = poke st.mem (entry_at tbl (tbl_idx virt)) (page_of phys + offset_of flags);
}

-- The table of a directory entry that is not present, after `malloc` has returned.
-- Every word is at a multiple of four, so that none overlaps another: `base` is one, and so is each
-- offset that `malloc` gives.
new_table : ℕ → Vmm → ℕ → ℕ → ℕ → Option ℕ × ℕ → Vmm
unfolding write_entry
new_table base st virt phys flags (none, next) = record st { heap_ptr = next }
new_table base st virt phys flags (some off, next) =
    let tbl = base + off in
    write_entry
      (record st {
        mem = poke (clear_page st.mem tbl) (entry_at st.kernel_dir (dir_idx virt)) (with_flags tbl);
        heap_ptr = next;
      })
      tbl virt phys flags

unfoldable pub vmm_map : ℕ → Vmm → ℕ → ℕ → ℕ → Vmm
unfolding new_table write_entry
vmm_map base st virt phys flags =
    let pde = st.mem (entry_at st.kernel_dir (dir_idx virt)) in
    if st.kernel_dir == 0
    then st
    else if present pde
    then write_entry st (page_of pde) virt phys flags
    else new_table base st virt phys flags (malloc st.heap_ptr page_size)

-- Unlike the others, it does not test for a null directory.
unfoldable pub vmm_unmap : Vmm → ℕ → Vmm
vmm_unmap st virt =
    let pde = st.mem (entry_at st.kernel_dir (dir_idx virt)) in
    if present pde
    then record st { mem = poke st.mem (entry_at (page_of pde) (tbl_idx virt)) 0 }
    else st

unfoldable pub vmm_get_phys : Vmm → ℕ → ℕ
vmm_get_phys st virt =
    let pde = st.mem (entry_at st.kernel_dir (dir_idx virt)) in
    if not (st.kernel_dir == 0) && present pde
    then page_of (st.mem (entry_at (page_of pde) (tbl_idx virt))) + offset_of virt
    else 0

unfoldable pub vmm_is_mapped : Vmm → ℕ → Bool
unfolding vmm_get_phys
vmm_is_mapped st virt = not (vmm_get_phys st virt == 0)

unfoldable pub vmm_switch : Vmm → ℕ → Vmm
vmm_switch st dir = record st { current_dir = dir }

copied : ℕ → Vmm → Option ℕ × ℕ → Vmm × ℕ
copied base st (none, next) = (record st { heap_ptr = next }, 0)
copied base st (some off, next) =
    (record st { mem = copy_page st.mem (base + off) st.kernel_dir; heap_ptr = next }, base + off)

-- The address of the new directory, or 0.
unfoldable pub vmm_create_dir : ℕ → Vmm → Vmm × ℕ
unfolding copied
vmm_create_dir base st = copied base st (malloc st.heap_ptr page_size)

-- for (i = from; i < from + rounds; i++) vmm_map(i * PAGE_SIZE, i * PAGE_SIZE, PRESENT | WRITABLE)
unfoldable pub map_identity : ℕ → ℕ → ℕ → Vmm → Vmm
map_identity base zero from st = st
map_identity base (suc rounds) from st =
    map_identity base rounds (from + 1) (vmm_map base st (from * page_size) (from * page_size) 3)

started : ℕ → Vmm → Option ℕ × ℕ → Vmm
started base st (none, next) = record st { kernel_dir = 0; heap_ptr = next }
started base st (some off, next) =
    vmm_switch
      (map_identity base 1024 0 (record st {
        kernel_dir = base + off;
        mem = clear_page st.mem (base + off);
        heap_ptr = next;
      }))
      (base + off)

unfoldable pub vmm_init : ℕ → Vmm → Vmm
unfolding started
vmm_init base st = started base st (malloc st.heap_ptr page_size)
