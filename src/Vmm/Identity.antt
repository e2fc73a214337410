-- ===== src/Vmm/Identity.antt =====
-- `vmm_init` maps the first four megabytes to themselves.
use blockos.Prelude.{
  ℕ, zero, suc, ◌+◌, ◌*◌, ◌%◌, ◌^◌, ◌≤◌, ◌<◌, ◌≡◌, refl, ◌≢◌, arith, some, ◌∙◌, ap, subst,
}
use blockos.Heap.{malloc, heap_size}
use blockos.Vmm.{
  Vmm, page_size, dir_idx, tbl_idx, entry_at, clear_page, vmm_map, vmm_get_phys, map_identity,
  vmm_init, vmm_switch,
}
use blockos.Vmm.Translate.{Clear}

-- The first entry of the directory is the table `tbl`, which maps its first `n` pages to themselves.
record IsMapped (tbl n : ℕ) (st : Vmm) : Type 0 where
  dir : st.kernel_dir ≢ 0
  entry : st.mem st.kernel_dir ≡ tbl + 3
  aligned : tbl % page_size ≡ 0
  clear : Clear st.kernel_dir tbl
  frames : (i : ℕ) → i < n → st.mem (entry_at tbl i) ≡ i * page_size + 3

map-IsMapped :
    (base tbl n : ℕ) (st : Vmm)
    → n < 1024
    → IsMapped tbl n st
    → IsMapped tbl (n + 1) (vmm_map base st (n * page_size) (n * page_size) 3)
unfolding vmm_map
map-IsMapped base tbl n st h v =
    let first : st.mem (entry_at st.kernel_dir (dir_idx (n * page_size))) ≡ tbl + 3 =
      ap st.mem (omega arith) ∙ v.entry in
    record {
      dir = ground arith;
      entry = ground arith;
      aligned = v.aligned;
      clear = ground arith;
      frames = λ i q. ground (arith, v.frames i);
    }

map_identity-IsMapped :
    (base tbl rounds from : ℕ) (st : Vmm)
    → from + rounds ≡ 1024
    → IsMapped tbl from st
    → IsMapped tbl 1024 (map_identity base rounds from st)
unfolding map_identity
map_identity-IsMapped base tbl zero from st e v = subst (λ n. IsMapped tbl n st) (omega arith) v
map_identity-IsMapped base tbl (suc rounds) from st e v =
    map_identity-IsMapped base tbl rounds (from + 1) _ (omega arith)
      (map-IsMapped base tbl from st (omega arith) v)

get_phys_low :
    (tbl virt : ℕ) (st : Vmm) → IsMapped tbl 1024 st → virt < 2 ^ 22 → vmm_get_phys st virt ≡ virt
unfolding vmm_get_phys
get_phys_low tbl virt st v small =
    let first : st.mem (entry_at st.kernel_dir (dir_idx virt)) ≡ tbl + 3 =
      ap st.mem (omega arith) ∙ v.entry in
    ground (arith, v.frames (tbl_idx virt))

malloc_page :
    (heap_ptr : ℕ)
    → heap_ptr % 4 ≡ 0
    → heap_ptr + page_size ≤ heap_size
    → malloc heap_ptr page_size ≡ (some heap_ptr, heap_ptr + page_size)
unfolding malloc
malloc_page heap_ptr p room = ground arith

-- The first round makes the table.
first_round :
    (base : ℕ) (st : Vmm)
    → (base + st.heap_ptr) % page_size ≡ 0
    → 0 < st.kernel_dir
    → st.kernel_dir + page_size ≡ base + st.heap_ptr
    → st.mem st.kernel_dir ≡ 0
    → st.heap_ptr % 4 ≡ 0
    → st.heap_ptr + page_size ≤ heap_size
    → IsMapped (base + st.heap_ptr) 1 (vmm_map base st 0 0 3)
unfolding vmm_map
first_round base st aligned d after_dir empty p room =
    let first : st.mem (entry_at st.kernel_dir (dir_idx 0)) ≡ 0 = ap st.mem (omega arith) ∙ empty in
    let m = malloc_page st.heap_ptr p room in
    record {
      dir = ground arith;
      entry = ground arith;
      aligned = aligned;
      clear = ground arith;
      frames = λ i q. ground arith;
    }

map_identity-suc :
    (base rounds from : ℕ) (st : Vmm)
    → map_identity base (suc rounds) from st
      ≡ map_identity base rounds
          (from + 1)
          (vmm_map base st (from * page_size) (from * page_size) 3)
unfolding map_identity
map_identity-suc base rounds from st = refl

-- Where the heap's next free address starts a page other than that at address 0, its offset in the
-- heap is a multiple of four, as `malloc` keeps it, and the heap has room for a directory and one
-- table, `vmm_init` switches to a directory at that address, which translates every address below four
-- megabytes to itself.
pub vmm_init_identity :
    (base : ℕ) (st : Vmm) (virt : ℕ)
    → (base + st.heap_ptr) % page_size ≡ 0
    → 0 < base + st.heap_ptr
    → st.heap_ptr % 4 ≡ 0
    → st.heap_ptr + 2 * page_size ≤ heap_size
    → virt < 2 ^ 22
    → (vmm_get_phys (vmm_init base st) virt ≡ virt)
      × ((vmm_init base st).current_dir ≡ base + st.heap_ptr)
unfolding vmm_init vmm_switch
vmm_init_identity base st virt aligned b p room small =
    rw (malloc_page st.heap_ptr p (omega arith)) (get_phys_low _ virt _ switched small, refl)
  where
    dir : ℕ
    dir = base + st.heap_ptr

    fresh : Vmm
    fresh = record st {
      kernel_dir = dir;
      mem = clear_page st.mem dir;
      heap_ptr = st.heap_ptr + page_size;
    }

    mapped : IsMapped (base + (st.heap_ptr + page_size)) 1024 (map_identity base 1024 0 fresh)
    mapped = rw (map_identity-suc base 1023 0 fresh) (
        map_identity-IsMapped base _ 1023 1 _ (omega arith) (
          first_round base fresh (omega arith) (omega arith) (omega arith) (ground arith)
            (omega arith) (omega arith)))

    switched :
        IsMapped
          (base + (st.heap_ptr + page_size))
          1024
          (vmm_switch (map_identity base 1024 0 fresh) dir)
    switched = record {
      dir = mapped.dir;
      entry = mapped.entry;
      aligned = mapped.aligned;
      clear = mapped.clear;
      frames = mapped.frames;
    }
