-- ===== src/Ramfs/Start.antt =====
-- The default structure and the initial disk of fs/ramfs.c keep the tree sound.
use blockos.Prelude.{
  ℕ, ◌+◌, Bool, List, [], ◌∷◌, ◌++◌, Option, none, some, ◌==◌, length, refl, bytes_of, false,
}
use blockos.Heap.{malloc}
use blockos.Ramfs.{Ramfs}
use blockos.Ramfs.Ops.{ramfs_create_file, ramfs_create_dir, ramfs_create_symlink}
use blockos.Ramfs.Default.{
  default_dirs, create_dirs, os_release, filled, text_at, loaded, initrd_at,
  ramfs_create_default_structure, ramfs_load_initrd,
}
use blockos.Ramfs.Tree.{SameLinks-set}
use blockos.Ramfs.Unlink.{IsSound}
use blockos.Ramfs.Sound.{
  IsSound-same, IsSound-if, create_file-IsSound, create_dir-IsSound, create_symlink-IsSound,
}

create_dirs-IsSound :
    (ds : List (List ℕ × ℕ)) (fs : Ramfs) (r : ℕ) → IsSound fs r → IsSound (create_dirs fs ds) r
unfolding create_dirs
create_dirs-IsSound [] fs r h = h
create_dirs-IsSound ((path, permissions) ∷ ds) fs r h =
    create_dirs-IsSound ds (ramfs_create_dir fs path permissions).0 r
      (create_dir-IsSound fs r path permissions h)

filled-IsSound :
    (fs : Ramfs) (r node : ℕ) (m : Option ℕ × ℕ) (text : List ℕ)
    → IsSound fs r
    → IsSound (filled fs node m text) r
unfolding filled
filled-IsSound fs r node (o, next) text h =
    IsSound-same fs (filled fs node (o, next) text) r refl (SameLinks-set fs.nodes node _ refl refl)
      h

text_at-IsSound :
    (made : Ramfs × Option ℕ) (r : ℕ) (text : List ℕ)
    → IsSound made.0 r
    → IsSound (text_at made text) r
unfolding text_at
text_at-IsSound (fs, none) r text h = h
text_at-IsSound (fs, some node) r text h =
    filled-IsSound fs r node (malloc fs.heap_ptr (length text + 1)) text h

text_file-IsSound :
    (fs : Ramfs) (r : ℕ) (path text : List ℕ)
    → IsSound fs r
    → IsSound (text_at (ramfs_create_file fs path 420) text) r
text_file-IsSound fs r path text h =
    text_at-IsSound (ramfs_create_file fs path 420) r text (create_file-IsSound fs r path 420 h)

pub create_default_structure-IsSound :
    (fs : Ramfs) (r : ℕ) → IsSound fs r → IsSound (ramfs_create_default_structure fs) r
unfolding ramfs_create_default_structure
create_default_structure-IsSound fs r h =
    let name = bytes_of "blockos" ++ 10 ∷ [] in
    let dirs = create_dirs fs default_dirs in
    let hostname = text_at (ramfs_create_file dirs (bytes_of "/etc/hostname") 420) name in
    let release =
      text_at (ramfs_create_file hostname (bytes_of "/etc/os-release") 420) os_release in
    let sh = (ramfs_create_symlink release (bytes_of "/bin/sh") (bytes_of "/bin/blocksh")).0 in
    create_symlink-IsSound sh r _ _ (
      create_symlink-IsSound release r _ _ (
        text_file-IsSound hostname r (bytes_of "/etc/os-release") os_release (
          text_file-IsSound dirs r (bytes_of "/etc/hostname") name
            (create_dirs-IsSound default_dirs fs r h))))

loaded-IsSound :
    (fs : Ramfs) (r node : ℕ) (m : Option ℕ × ℕ) (bytes : List ℕ)
    → IsSound fs r
    → IsSound (loaded fs node m bytes).0 r
unfolding loaded
loaded-IsSound fs r node (none, next) bytes h =
    IsSound-same fs (loaded fs node (none, next) bytes).0 r refl
      (SameLinks-set fs.nodes node _ refl refl) h
loaded-IsSound fs r node (some p, next) bytes h =
    IsSound-same fs (loaded fs node (some p, next) bytes).0 r refl
      (SameLinks-set fs.nodes node _ refl refl) h

initrd_at-IsSound :
    (made : Ramfs × Option ℕ) (r : ℕ) (bytes : List ℕ)
    → IsSound made.0 r
    → IsSound (initrd_at made bytes).0 r
unfolding initrd_at
initrd_at-IsSound (fs, none) r bytes h = h
initrd_at-IsSound (fs, some node) r bytes h =
    loaded-IsSound fs r node (malloc fs.heap_ptr (length bytes)) bytes h

pub load_initrd-IsSound :
    (fs : Ramfs) (r : ℕ) (bytes : List ℕ) → IsSound fs r → IsSound (ramfs_load_initrd fs bytes).0 r
unfolding ramfs_load_initrd
load_initrd-IsSound fs r bytes h =
    let start = ramfs_create_default_structure fs in
    let made = ramfs_create_file start (bytes_of "/boot/initrd") 420 in
    IsSound-if (λ (x : Ramfs × Bool). x.0) (length bytes == 0) (fs, false) (initrd_at made bytes) r
      h
      (initrd_at-IsSound made r bytes (
        create_file-IsSound start r (bytes_of "/boot/initrd") 420
          (create_default_structure-IsSound fs r h)))
