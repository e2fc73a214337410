-- ===== src/Vmm/Tests.antt =====
-- The theorems about kernel/vmm.c at concrete addresses.
use blockos.Prelude.{◌≡◌, refl, true, arith}
use blockos.Heap.{malloc}
use blockos.Vmm.{
  Vmm, vmm_map, vmm_unmap, vmm_get_phys, vmm_is_mapped, vmm_init, vmm_create_dir, poke,
}
use blockos.Vmm.Translate.{get_phys-map_new, get_phys-map_unaligned, is_mapped-unmap}
use blockos.Vmm.Identity.{vmm_init_identity}

-- A directory at 4096 in memory that is all zero.
abbrev empty_vmm : Vmm
empty_vmm = record { kernel_dir = 4096; current_dir = 0; mem = λ a. 0; heap_ptr = 4096 }

-- Its first entry is the table at 8192.
abbrev one_table : Vmm
one_table = record empty_vmm { mem = poke (λ a. 0) 4096 8195 }

get_phys-map_new_example : vmm_get_phys (vmm_map 4096 empty_vmm 5000 70000 3) 5000 ≡ 70536
unfolding malloc
get_phys-map_new_example =
    get_phys-map_new 4096 empty_vmm 5000 70000 3 4096 8192 (omega arith) (omega arith) refl refl
      (omega arith) (omega arith)

-- `malloc` answers 100, so the table is at 8292.
get_phys-map_unaligned_example :
    vmm_get_phys (vmm_map 8192 (record empty_vmm { heap_ptr = 100 }) 5000 70000 3) 5000 ≡ 904
unfolding malloc
get_phys-map_unaligned_example =
    get_phys-map_unaligned 8192 (record empty_vmm { heap_ptr = 100 }) 5000 70000 3 100 4196
      (omega arith) refl refl (omega arith) (omega arith) (omega arith)

is_mapped-unmap_example : vmm_is_mapped (vmm_unmap one_table 5000) 5000 ≡ true
is_mapped-unmap_example =
    is_mapped-unmap one_table 5000 (omega arith) refl (omega arith) (omega arith)

vmm_init_identity_example :
    (vmm_get_phys (vmm_init 4096 empty_vmm) 123456 ≡ 123456)
    × ((vmm_init 4096 empty_vmm).current_dir ≡ 8192)
vmm_init_identity_example =
    vmm_init_identity 4096 empty_vmm 123456 (omega arith) (omega arith) (omega arith) (omega arith)
      (omega arith)

create_dir_runs : (vmm_create_dir 4096 one_table).1 ≡ 8192
unfolding vmm_create_dir malloc
create_dir_runs = refl
