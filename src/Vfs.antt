-- ===== src/Vfs.antt =====
-- vfs.c and vfs.h: the mount table and the file descriptors. A path is the list of its bytes; the
-- address of a file system's own data is a number. `g_vfs.root`, the `node` of a descriptor and the
-- `root` and `read_only` of a mount are never used, and left out.
pub mod Files
pub mod Find
pub mod Count
pub mod Fds
pub mod Tests
use blockos.Prelude.{
  ℕ, suc, zero, ◌+◌, ◌-◌, ◌%◌, ◌^◌, Bool, true, false, ◌&&◌, List, [], ◌∷◌, Option, none, some, ℤ,
  pos, minus_one, if◌then◌else◌, ltb, length, replicate, modify, index_or_minus_one, is_some,
}
use blockos.Strings.{strcmp, strncmp, strncpy, is_zero}
use blockos.Slots.{slot, slot_set, first_free}

abbrev pub max_mounts : ℕ
max_mounts = 16

abbrev pub max_fds : ℕ
max_fds = 256

abbrev pub max_path : ℕ
max_path = 1024

abbrev pub max_name : ℕ
max_name = 256

-- VFS_FS_RAMFS and so on
abbrev pub fs_ramfs : ℕ
fs_ramfs = 0

abbrev pub fs_fat32 : ℕ
fs_fat32 = 1

abbrev pub fs_ext4 : ℕ
fs_ext4 = 2

abbrev pub fs_procfs : ℕ
fs_procfs = 3

-- `vfs_mount_t`
pub record Mount : Type 0 where
  pub path : List ℕ
  pub fs_type : ℕ
  pub fs_data : ℕ
  pub active : Bool

-- `vfs_fd_t`
pub record Fd : Type 0 where
  pub position : ℕ
  pub flags : ℕ
  pub active : Bool

-- `vfs_t`
pub record Vfs : Type 0 where
  pub mounts : List Mount
  pub mount_count : ℕ
  pub fds : List Fd

abbrev pub no_mount : Mount
no_mount = record { path = []; fs_type = 0; fs_data = 0; active = false }

abbrev pub no_fd : Fd
no_fd = record { position = 0; flags = 0; active = false }

unfoldable pub vfs_init : Vfs
vfs_init = record {
  mounts = replicate max_mounts no_mount;
  mount_count = 0;
  fds = replicate max_fds no_fd;
}

-- The path starts with the mount point, byte by byte.
abbrev pub fits : List ℕ → Mount → Bool
fits path m = m.active && is_zero (strncmp path m.path (length m.path))

-- len > best_len, where `best_len` is -1 as long as there is no `best`
abbrev pub longer : Mount → Option Mount → Bool
longer m none = true
longer m (some best) = ltb (length best.path) (length m.path)

unfoldable pub find_from : List ℕ → List Mount → Option Mount → Option Mount
find_from path [] best = best
find_from path (m ∷ mounts) best =
    find_from path mounts (if fits path m && longer m best then some m else best)

unfoldable pub vfs_find_mount : Vfs → List ℕ → Option Mount
unfolding find_from
vfs_find_mount vfs path = find_from path vfs.mounts none

abbrev pub mounted : List ℕ → ℕ → ℕ → Mount
mounted path fs_type fs_data = record {
  path = strncpy path (max_path - 1);
  fs_type = fs_type;
  fs_data = fs_data;
  active = true;
}

mount_at : Vfs → Option ℕ → List ℕ → ℕ → ℕ → Vfs × Bool
mount_at vfs none path fs_type fs_data = (vfs, false)
mount_at vfs (some i) path fs_type fs_data = (
  record vfs {
    mounts = modify vfs.mounts i (λ m. mounted path fs_type fs_data);
    mount_count = (vfs.mount_count + 1) % 2 ^ 32;
  },
  true,
)

unfoldable pub vfs_mount : Vfs → List ℕ → ℕ → ℕ → Vfs × Bool
unfolding mount_at
vfs_mount vfs path fs_type fs_data =
    mount_at vfs (first_free (λ m. m.active) vfs.mounts) path fs_type fs_data

-- The mounts with the first active one at this path made inactive; `none` where there is none.
unfoldable pub umounted : List ℕ → List Mount → Option (List Mount)
umounted path [] = none
umounted path (m ∷ mounts) =
    if m.active && is_zero (strcmp m.path path)
    then some (record m { active = false } ∷ mounts)
    else elim (umounted path mounts) [ none ↦ none | some rest ↦ some (m ∷ rest) ]

unfoldable pub vfs_umount : Vfs → List ℕ → Vfs × Bool
unfolding umounted
vfs_umount vfs path = elim (umounted path vfs.mounts) [
  | none ↦ (vfs, false)
  | some mounts ↦
      (record vfs { mounts = mounts; mount_count = (vfs.mount_count + 2 ^ 32 - 1) % 2 ^ 32 }, true)
]

unfoldable pub vfs_alloc_fd : Vfs → ℤ
vfs_alloc_fd vfs = index_or_minus_one (first_free (λ d. d.active) vfs.fds)

close_at : Vfs → ℤ → Option Fd → Vfs × Bool
close_at vfs fd none = (vfs, false)
close_at vfs fd (some d) =
    if d.active
    then (record vfs { fds = slot_set vfs.fds fd (record d { active = false }) }, true)
    else (vfs, false)

unfoldable pub vfs_close : Vfs → ℤ → Vfs × Bool
unfolding close_at
vfs_close vfs fd = close_at vfs fd (slot vfs.fds fd)

seek_at : Vfs → ℤ → Option Fd → ℕ → Vfs × Bool
seek_at vfs fd none offset = (vfs, false)
seek_at vfs fd (some d) offset =
    (record vfs { fds = slot_set vfs.fds fd (record d { position = offset }) }, true)

-- Like `vfs_tell`, it does not ask whether the descriptor is open.
unfoldable pub vfs_seek : Vfs → ℤ → ℕ → Vfs × Bool
unfolding seek_at
vfs_seek vfs fd offset = seek_at vfs fd (slot vfs.fds fd) offset

tell_at : Option Fd → ℕ
tell_at none = 0
tell_at (some d) = d.position

unfoldable pub vfs_tell : Vfs → ℤ → ℕ
unfolding tell_at
vfs_tell vfs fd = tell_at (slot vfs.fds fd)

-- The number of bytes read or written, with or without an open descriptor.
unfoldable pub vfs_read : Vfs → ℤ → ℕ → ℕ
vfs_read vfs fd size = 0

unfoldable pub vfs_write : Vfs → ℤ → List ℕ → ℕ
vfs_write vfs fd buf = 0
