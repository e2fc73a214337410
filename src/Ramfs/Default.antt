-- ===== src/Ramfs/Default.antt =====
-- The structure that fs/ramfs.c makes at first, and the loading of an initial disk.
use Prim.Native.String.{String}
use blockos.Prelude.{
  ℕ, ◌+◌, ◌%◌, ◌^◌, Bool, true, false, List, [], ◌∷◌, ◌++◌, Option, none, some, if◌then◌else◌, ◌==◌,
  length, set, bytes_of,
}
use blockos.Heap.{malloc}
use blockos.Ramfs.{Ramfs, inode}
use blockos.Ramfs.Ops.{ramfs_create_file, ramfs_create_dir, ramfs_create_symlink}

-- Path and permissions of a directory.
abbrev dir : String → ℕ → List ℕ × ℕ
dir path permissions = (bytes_of path, permissions)

pub default_dirs : List (List ℕ × ℕ)
default_dirs =
    dir "/bin" 493
    ∷ dir "/boot" 493
    ∷ dir "/dev" 493
    ∷ dir "/etc" 493
    ∷ dir "/home" 493
    ∷ dir "/lib" 493
    ∷ dir "/mnt" 493
    ∷ dir "/proc" 365
    ∷ dir "/root" 448
    ∷ dir "/sys" 365
    ∷ dir "/tmp" 511
    ∷ dir "/usr" 493
    ∷ dir "/usr/bin" 493
    ∷ dir "/usr/lib" 493
    ∷ dir "/var" 493
    ∷ dir "/var/log" 493
    ∷ dir "/blockos" 493
    ∷ dir "/blockos/themes" 493
    ∷ dir "/blockos/wallpaper" 493
    ∷ dir "/blockos/apps" 493
    ∷ []

unfoldable pub create_dirs : Ramfs → List (List ℕ × ℕ) → Ramfs
create_dirs fs [] = fs
create_dirs fs ((path, permissions) ∷ ds) = create_dirs (ramfs_create_dir fs path permissions).0 ds

-- data = strdup(text); size = strlen(text); data_size = size. The copy has the NUL behind it.
unfoldable pub filled : Ramfs → ℕ → Option ℕ × ℕ → List ℕ → Ramfs
filled fs node (o, next) text = record fs {
  nodes = set fs.nodes node (record (inode fs.nodes node) {
    content = elim o [ none ↦ none | some p ↦ some (text ++ 0 ∷ []) ];
    size = length text;
    data_size = length text;
  });
  heap_ptr = next;
}

unfoldable pub text_at : Ramfs × Option ℕ → List ℕ → Ramfs
unfolding filled
text_at (fs, none) text = fs
text_at (fs, some node) text = filled fs node (malloc fs.heap_ptr (length text + 1)) text

-- A key, the text between quotes, and the end of the line.
quoted : String → String → List ℕ
quoted key text = bytes_of key ++ 34 ∷ bytes_of text ++ 34 ∷ 10 ∷ []

pub os_release : List ℕ
unfolding quoted
os_release =
    quoted "NAME=" "BlockOS"
    ++ quoted "VERSION=" "1.0"
    ++ bytes_of "ID=blockos"
    ++ 10 ∷ quoted "PRETTY_NAME=" "BlockOS 1.0"
    ++ quoted "HOME_URL=" "https://sourceforge.net/projects/blockos"

unfoldable pub ramfs_create_default_structure : Ramfs → Ramfs
unfolding default_dirs create_dirs text_at os_release
ramfs_create_default_structure fs =
    let dirs = create_dirs fs default_dirs in
    let hostname =
      text_at (ramfs_create_file dirs (bytes_of "/etc/hostname") 420)
        (bytes_of "blockos" ++ 10 ∷ []) in
    let release =
      text_at (ramfs_create_file hostname (bytes_of "/etc/os-release") 420) os_release in
    let sh = (ramfs_create_symlink release (bytes_of "/bin/sh") (bytes_of "/bin/blocksh")).0 in
    (ramfs_create_symlink sh (bytes_of "/usr/bin/cc") (bytes_of "/usr/bin/gcc")).0

unfoldable pub loaded : Ramfs → ℕ → Option ℕ × ℕ → List ℕ → Ramfs × Bool
loaded fs node (none, next) bytes = (
  record fs {
    nodes = set fs.nodes node (record (inode fs.nodes node) { content = none });
    heap_ptr = next;
  },
  false,
)
loaded fs node (some p, next) bytes = (
  record fs {
    nodes = set fs.nodes node (record (inode fs.nodes node) {
      content = some bytes;
      size = length bytes;
      data_size = length bytes;
    });
    used_size = (fs.used_size + length bytes) % 2 ^ 32;
    heap_ptr = next;
  },
  true,
)

unfoldable pub initrd_at : Ramfs × Option ℕ → List ℕ → Ramfs × Bool
unfolding loaded
initrd_at (fs, none) bytes = (fs, false)
initrd_at (fs, some node) bytes = loaded fs node (malloc fs.heap_ptr (length bytes)) bytes

unfoldable pub ramfs_load_initrd : Ramfs → List ℕ → Ramfs × Bool
unfolding initrd_at
ramfs_load_initrd fs bytes =
    if length bytes == 0
    then (fs, false)
    else initrd_at
        (ramfs_create_file (ramfs_create_default_structure fs) (bytes_of "/boot/initrd") 420) bytes
