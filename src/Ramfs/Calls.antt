-- ===== src/Ramfs/Calls.antt =====
-- All calls of fs/ramfs.c that change the file system, in any order.
use blockos.Prelude.{
  ℕ, zero, suc, ◌+◌, ◌%◌, ◌^◌, ◌≡◌, refl, ltb, true, false, List, [], ◌∷◌, Option, none, some,
  arith, ◌==◌, length, set, ◌<◌,
}
use blockos.Slots.Laws.{All}
use blockos.Heap.{malloc}
use blockos.Ramfs.{
  Ramfs, Inode, inode, inode_bytes, file_bytes, type_dir, slash, new_inode, find_inode, split_path,
  max_name,
}
use blockos.Ramfs.Ops.{
  alloc_at, alloc_inode, rooted, ramfs_init, ramfs_mount, ramfs_umount, ramfs_create_file,
  ramfs_create_dir, ramfs_create_symlink, ramfs_delete,
}
use blockos.Ramfs.Data.{
  File, write_bytes, grown, ramfs_write, ramfs_open, opened, handle_at, found_or_new,
}
use blockos.Ramfs.Tree.{Chain, SameLinks-set, parent_of}
use blockos.Ramfs.Unlink.{IsSound}
use blockos.Ramfs.Reach.{IsPath}
use blockos.Ramfs.Default.{ramfs_create_default_structure, ramfs_load_initrd}
use blockos.Ramfs.Start.{create_default_structure-IsSound, load_initrd-IsSound}
use blockos.Ramfs.Sound.{
  IsSound-same, IsSound-if, create_file-IsSound, create_dir-IsSound, create_symlink-IsSound,
  delete_at-IsSound,
}

write_bytes-IsSound :
    (fs : Ramfs) (r : ℕ) (f : File) (buffer : List ℕ)
    → IsSound fs r
    → IsSound (write_bytes fs f buffer).0 r
unfolding write_bytes
write_bytes-IsSound fs r f buffer h =
    IsSound-same fs (write_bytes fs f buffer).0 r refl (SameLinks-set fs.nodes f.inode _ refl refl)
      h

grown-IsSound :
    (fs : Ramfs) (r : ℕ) (m : Option ℕ × ℕ) (f : File) (buffer : List ℕ)
    → IsSound fs r
    → IsSound (grown fs m f buffer).0 r
unfolding grown
grown-IsSound fs r (none, next) f buffer h = h
grown-IsSound fs r (some p, next) f buffer h =
    let node = inode fs.nodes f.inode in
    let larger : Inode = record node { data_size = (f.position + length buffer) % 2 ^ 32 } in
    let g : Ramfs = record fs {
      heap_ptr = next;
      used_size = (fs.used_size + length buffer) % 2 ^ 32;
      nodes = set fs.nodes f.inode larger;
    } in
    write_bytes-IsSound g r f buffer
      (IsSound-same fs g r refl (SameLinks-set fs.nodes f.inode larger refl refl) h)

ramfs_write-IsSound :
    (fs : Ramfs) (r : ℕ) (f : File) (buffer : List ℕ)
    → IsSound fs r
    → IsSound (ramfs_write fs f buffer).0 r
unfolding ramfs_write
ramfs_write-IsSound fs r f buffer h =
    let new_size = (f.position + length buffer) % 2 ^ 32 in
    IsSound-if (λ (x : Ramfs × File × ℕ). x.0) (ltb (inode fs.nodes f.inode).data_size new_size)
      (grown fs (malloc fs.heap_ptr new_size) f buffer) (write_bytes fs f buffer) r
      (grown-IsSound fs r (malloc fs.heap_ptr new_size) f buffer h)
      (write_bytes-IsSound fs r f buffer h)

handle_at-IsSound :
    (fs : Ramfs) (r : ℕ) (m : Option ℕ × ℕ) (node flags : ℕ)
    → IsSound fs r
    → IsSound (handle_at fs m node flags).0 r
unfolding handle_at
handle_at-IsSound fs r (none, next) node flags h = h
handle_at-IsSound fs r (some a, next) node flags h = h

opened-IsSound :
    (fs : Ramfs) (r : ℕ) (o : Option ℕ) (flags : ℕ)
    → IsSound fs r
    → IsSound (opened (fs, o) flags).0 r
unfolding opened
opened-IsSound fs r none flags h = h
opened-IsSound fs r (some node) flags h =
    handle_at-IsSound fs r (malloc fs.heap_ptr file_bytes) node flags h

found_or_new-IsSound :
    (fs : Ramfs) (r : ℕ) (o : Option ℕ) (path : List ℕ) (flags : ℕ)
    → IsSound fs r
    → IsSound (found_or_new fs o path flags).0 r
unfolding found_or_new
found_or_new-IsSound fs r (some node) path flags h = h
found_or_new-IsSound fs r none path flags h =
    IsSound-if (λ (x : Ramfs × Option ℕ). x.0) (flags % 2 == 1) _ (fs, none) r
      (create_file-IsSound fs r path 420 h) h

-- A call with its arguments. `ramfs_write` is given any handle.
pub data Call : Type 0 where
  mount : List ℕ → Call
  umount : Call
  create_file : List ℕ → ℕ → Call
  create_dir : List ℕ → ℕ → Call
  create_symlink : List ℕ → List ℕ → Call
  delete : List ℕ → Call
  open_file : List ℕ → ℕ → Call
  write : File → List ℕ → Call
  create_default_structure : Call
  load_initrd : List ℕ → Call

unfoldable pub call : Ramfs → Call → Ramfs
call fs (mount point) = (ramfs_mount fs point).0
call fs umount = (ramfs_umount fs).0
call fs (create_file path permissions) = (ramfs_create_file fs path permissions).0
call fs (create_dir path permissions) = (ramfs_create_dir fs path permissions).0
call fs (create_symlink path target) = (ramfs_create_symlink fs path target).0
call fs (delete path) = (ramfs_delete fs path).0
call fs (open_file path flags) = (ramfs_open fs path flags).0
call fs (write f buffer) = (ramfs_write fs f buffer).0
call fs create_default_structure = ramfs_create_default_structure fs
call fs (load_initrd bytes) = (ramfs_load_initrd fs bytes).0

-- A path that the calls' buffers hold: the whole of it, and the name behind its last slash.
abbrev Fits : List ℕ → Type 0
Fits path = IsPath path × (length (split_path path).1 < max_name)

abbrev pub FitsCall : Call → Type 0
FitsCall (create_file path permissions) = Fits path
FitsCall (create_dir path permissions) = Fits path
FitsCall (create_symlink path target) = Fits path
FitsCall (delete path) = Fits path
FitsCall (open_file path flags) = Fits path
FitsCall c = Unit

unfoldable pub calls : Ramfs → List Call → Ramfs
calls fs [] = fs
calls fs (c ∷ cs) = calls (call fs c) cs

call-IsSound : (fs : Ramfs) (r : ℕ) (c : Call) → IsSound fs r → IsSound (call fs c) r
unfolding call ramfs_mount ramfs_umount ramfs_delete ramfs_open
call-IsSound fs r (mount point) h = h
call-IsSound fs r umount h = h
call-IsSound fs r (create_file path permissions) h = create_file-IsSound fs r path permissions h
call-IsSound fs r (create_dir path permissions) h = create_dir-IsSound fs r path permissions h
call-IsSound fs r (create_symlink path target) h = create_symlink-IsSound fs r path target h
call-IsSound fs r (delete path) h = delete_at-IsSound fs r (find_inode fs path) h
call-IsSound fs r (open_file path flags) h =
    let found = found_or_new fs (find_inode fs path) path flags in
    opened-IsSound found.0 r found.1 flags
      (found_or_new-IsSound fs r (find_inode fs path) path flags h)
call-IsSound fs r (write f buffer) h = ramfs_write-IsSound fs r f buffer h
call-IsSound fs r create_default_structure h = create_default_structure-IsSound fs r h
call-IsSound fs r (load_initrd bytes) h = load_initrd-IsSound fs r bytes h

calls-IsSound : (fs : Ramfs) (r : ℕ) (cs : List Call) → IsSound fs r → IsSound (calls fs cs) r
unfolding calls
calls-IsSound fs r [] h = h
calls-IsSound fs r (c ∷ cs) h = calls-IsSound (call fs c) r cs (call-IsSound fs r c h)

-- The file system in memory that is not yet initialized.
abbrev pub no_files : ℕ → Ramfs
no_files heap_ptr = record {
  mounted = false;
  root = none;
  total_size = 0;
  used_size = 0;
  file_count = 0;
  dir_count = 0;
  mount_point = [];
  nodes = [];
  next_inode_id = 1;
  heap_ptr = heap_ptr;
}

init_with :
    (heap_ptr : ℕ) (m : Option ℕ × ℕ)
    → (rooted (alloc_at (no_files heap_ptr) m slash type_dir 493)).1 ≡ true
    → IsSound (rooted (alloc_at (no_files heap_ptr) m slash type_dir 493)).0 0
unfolding rooted alloc_at new_inode
init_with heap_ptr (none, next) h = absurd (cc)
init_with heap_ptr (some a, next) h = (refl, omega arith, refl, λ i. bare i)
  where
    bare :
        (i : ℕ)
        → Chain
            (parent_of (new_inode 1 slash type_dir 493 ∷ []))
            i
            1
            (inode (new_inode 1 slash type_dir 493 ∷ []) i).children
    bare zero = tt
    bare (suc i) = tt

init-IsSound :
    (heap_ptr : ℕ)
    → (ramfs_init (no_files heap_ptr)).1 ≡ true
    → IsSound (ramfs_init (no_files heap_ptr)).0 0
unfolding ramfs_init alloc_inode
init-IsSound heap_ptr h = init_with heap_ptr (malloc heap_ptr inode_bytes) h

-- After a `ramfs_init` that succeeds and any calls, `ramfs_create_default_structure` and
-- `ramfs_load_initrd` among them, whose paths have at most 1022 bytes and a last name of at most
-- 255, which is what the buffers hold, the root is there and has no parent, and the children of
-- every inode make a chain in which each stands behind its parent, points to it, and is there once:
-- the inodes are a tree.
pub calls-ramfs_init-IsSound :
    (heap_ptr : ℕ) (cs : List Call)
    → All FitsCall cs
    → (ramfs_init (no_files heap_ptr)).1 ≡ true
    → IsSound (calls (ramfs_init (no_files heap_ptr)).0 cs) 0
calls-ramfs_init-IsSound heap_ptr cs fits h = calls-IsSound _ 0 cs (init-IsSound heap_ptr h)
