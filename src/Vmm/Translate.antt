-- ===== src/Vmm/Translate.antt =====
-- What an address is translated to after a page has been mapped or unmapped.
use blockos.Prelude.{ℕ, ◌+◌, ◌*◌, ◌%◌, ◌^◌, ◌≤◌, ◌<◌, ◌≡◌, ◌≢◌, true, false, not, arith, ◌==◌, some}
use blockos.Heap.{malloc}
use blockos.Vmm.{
  Vmm, page_size, page_of, offset_of, dir_idx, tbl_idx, present, entry_at, vmm_map, vmm_unmap,
  vmm_get_phys, vmm_is_mapped,
}

-- The word that the directory holds for an address.
abbrev pub pde : Vmm → ℕ → ℕ
pde st virt = st.mem (entry_at st.kernel_dir (dir_idx virt))

-- The table does not lie over the directory.
abbrev pub Clear : ℕ → ℕ → Type 0
Clear dir tbl = dir + page_size ≤ tbl

-- With a directory, a page whose table is present and lies behind the directory is translated,
-- once mapped, to the frame it was mapped to, with the offset of the address.
get_phys-map_present :
    (base : ℕ) (st : Vmm) (virt phys flags : ℕ)
    → st.kernel_dir ≢ 0
    → virt < 2 ^ 32
    → present (pde st virt) ≡ true
    → Clear st.kernel_dir (page_of (pde st virt))
    → vmm_get_phys (vmm_map base st virt phys flags) virt ≡ page_of phys + offset_of virt
unfolding vmm_map vmm_get_phys
get_phys-map_present base st virt phys flags d small on clear = ground arith

-- With a directory, a page whose table was not present is translated, once mapped, to the frame it
-- was mapped to, if `malloc` finds room for the table, behind the directory and at the start of a
-- page.
pub get_phys-map_new :
    (base : ℕ) (st : Vmm) (virt phys flags off next : ℕ)
    → st.kernel_dir ≢ 0
    → virt < 2 ^ 32
    → present (pde st virt) ≡ false
    → malloc st.heap_ptr page_size ≡ (some off, next)
    → (base + off) % page_size ≡ 0
    → Clear st.kernel_dir (base + off)
    → vmm_get_phys (vmm_map base st virt phys flags) virt ≡ page_of phys + offset_of virt
unfolding vmm_map vmm_get_phys
get_phys-map_new base st virt phys flags off next d small absent e aligned clear = ground arith

-- After a page is unmapped whose table is present and lies behind the directory, an address inside
-- it is still reported as mapped, unless it is the first of the page: the entry's present bit is not
-- looked at, and the offset alone is not 0.
pub is_mapped-unmap :
    (st : Vmm) (virt : ℕ)
    → st.kernel_dir ≢ 0
    → present (pde st virt) ≡ true
    → Clear st.kernel_dir (page_of (pde st virt))
    → virt < 2 ^ 32
    → vmm_is_mapped (vmm_unmap st virt) virt ≡ not (offset_of virt == 0)
unfolding vmm_unmap vmm_is_mapped
is_mapped-unmap st virt d on clear small = ground arith

-- `malloc` aligns to four bytes only. Where the new table, in a page behind the directory, does not
-- start a page, the entry is written to the table and looked up from the start of that page: for the
-- entries that lie before the table there, the translation after mapping is what memory held before,
-- whatever frame was asked for.
pub get_phys-map_unaligned :
    (base : ℕ) (st : Vmm) (virt phys flags off next : ℕ)
    → st.kernel_dir ≢ 0
    → present (pde st virt) ≡ false
    → malloc st.heap_ptr page_size ≡ (some off, next)
    → virt < 2 ^ 32
    → Clear st.kernel_dir (page_of (base + off))
    → 4 * tbl_idx virt < offset_of (base + off)
    → vmm_get_phys (vmm_map base st virt phys flags) virt
      ≡ page_of (st.mem (entry_at (page_of (base + off)) (tbl_idx virt))) + offset_of virt
unfolding vmm_map vmm_get_phys
get_phys-map_unaligned base st virt phys flags off next d absent e small clear before = ground arith
