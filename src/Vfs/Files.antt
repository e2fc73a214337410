-- ===== src/Vfs/Files.antt =====
-- The calls of vfs.c that go to a file system. The file systems are a record of operations: `S` is
-- their state together, `malloc` included, and an operation takes the address of the file system's
-- data, a path below the mount point and what else the call passes.
use blockos.Prelude.{
  ℕ, ◌-◌, Bool, true, false, not, List, [], ◌∷◌, Option, none, some, ℤ, pos, minus_one,
  if◌then◌else◌, ◌==◌, ltb, length, drop, modify,
}
use blockos.Slots.{first_free}
use blockos.Strings.{strncpy}
use blockos.Vfs.{Vfs, Mount, vfs_find_mount, fs_ramfs, fs_fat32, fs_ext4, fs_procfs, max_name}

-- A Boolean result says whether the call returned true, or a pointer that is not null.
pub record FileSystems {ℓ} (S : Type ℓ) : Type ℓ where
  pub ext4_open : S → ℕ → List ℕ → ℕ → S × Bool
  -- with `malloc` before and `free` where it fails
  pub fat32_open : S → ℕ → List ℕ → S × Bool
  pub ramfs_open : S → ℕ → List ℕ → ℕ → S × Bool
  pub procfs_open : S → ℕ → List ℕ → S × Bool
  pub ext4_mkdir : S → ℕ → List ℕ → ℕ → S × Bool
  pub ramfs_create_dir : S → ℕ → List ℕ → ℕ → S × Bool
  pub ext4_unlink : S → ℕ → List ℕ → S × Bool
  pub ramfs_delete : S → ℕ → List ℕ → S × Bool
  pub ext4_path_to_inode : S → ℕ → List ℕ → S × ℕ
  pub ramfs_find : S → ℕ → List ℕ → S × Bool
  pub ext4_rename : S → ℕ → List ℕ → List ℕ → S × Bool

-- path + strlen(mount->path)
abbrev pub below : Mount → List ℕ → List ℕ
below m path = drop (length m.path) path

-- The path that `vfs_open` passes on: "/" for the mount point itself.
unfoldable pub rel_path : Mount → List ℕ → List ℕ
rel_path m path = elim (below m path) [ [] ↦ b'/' ∷ [] | c ∷ rest ↦ c ∷ rest ]

module _ {ℓ} {S : Type ℓ} (fs : FileSystems S) where
  -- The switch of `vfs_open`; another type opens nothing, and succeeds.
  unfoldable pub open_in : S → Mount → List ℕ → ℕ → S × Bool
  open_in s m rel flags =
      if m.fs_type == fs_ext4
      then fs.ext4_open s m.fs_data rel flags
      else if m.fs_type == fs_fat32
      then fs.fat32_open s m.fs_data rel
      else if m.fs_type == fs_ramfs
      then fs.ramfs_open s m.fs_data rel flags
      else if m.fs_type == fs_procfs
      then fs.procfs_open s m.fs_data rel
      else (s, true)

  -- Descriptor `i` after the file system has answered; a failure closes it again.
  unfoldable pub opened : Vfs → ℕ → ℕ → S × Bool → (Vfs × S) × ℤ
  opened vfs i flags (s, done) = (
    (
      record vfs {
        fds = modify vfs.fds i (λ d. record d { position = 0; flags = flags; active = done });
      },
      s,
    ),
    (if done then pos i else minus_one),
  )

  unfoldable pub open_at : Vfs → S → Option Mount → Option ℕ → List ℕ → ℕ → (Vfs × S) × ℤ
  unfolding opened open_in
  open_at vfs s none o path flags = ((vfs, s), minus_one)
  open_at vfs s (some m) none path flags = ((vfs, s), minus_one)
  open_at vfs s (some m) (some i) path flags =
      opened vfs i flags (open_in s m (rel_path m path) flags)

  unfoldable pub vfs_open : Vfs → S → List ℕ → ℕ → (Vfs × S) × ℤ
  unfolding open_at
  vfs_open vfs s path flags =
      open_at vfs s (vfs_find_mount vfs path) (first_free (λ d. d.active) vfs.fds) path flags

  mkdir_in : S → Option Mount → List ℕ → ℕ → S × Bool
  mkdir_in s none path mode = (s, false)
  mkdir_in s (some m) path mode =
      if m.fs_type == fs_ext4
      then fs.ext4_mkdir s m.fs_data (below m path) mode
      else if m.fs_type == fs_ramfs
      then fs.ramfs_create_dir s m.fs_data (below m path) mode
      else (s, false)

  unfoldable pub vfs_mkdir : Vfs → S → List ℕ → ℕ → S × Bool
  unfolding mkdir_in
  vfs_mkdir vfs s path mode = mkdir_in s (vfs_find_mount vfs path) path mode

  unlink_in : S → Option Mount → List ℕ → S × Bool
  unlink_in s none path = (s, false)
  unlink_in s (some m) path =
      if m.fs_type == fs_ext4
      then fs.ext4_unlink s m.fs_data (below m path)
      else if m.fs_type == fs_ramfs
      then fs.ramfs_delete s m.fs_data (below m path)
      else (s, false)

  unfoldable pub vfs_unlink : Vfs → S → List ℕ → S × Bool
  unfolding unlink_in
  vfs_unlink vfs s path = unlink_in s (vfs_find_mount vfs path) path

  nonzero : S × ℕ → S × Bool
  nonzero (s, inode) = (s, not (inode == 0))

  exists_in : S → Option Mount → List ℕ → S × Bool
  unfolding nonzero
  exists_in s none path = (s, false)
  exists_in s (some m) path =
      if m.fs_type == fs_ext4
      then nonzero (fs.ext4_path_to_inode s m.fs_data (below m path))
      else if m.fs_type == fs_ramfs
      then fs.ramfs_find s m.fs_data (below m path)
      else (s, false)

  unfoldable pub vfs_exists : Vfs → S → List ℕ → S × Bool
  unfolding exists_in
  vfs_exists vfs s path = exists_in s (vfs_find_mount vfs path) path

  -- `none` where `newp + strlen(m->path)` points behind the NUL of the new path.
  rename_in : S → Option Mount → List ℕ → List ℕ → Option (S × Bool)
  rename_in s none old newp = some (s, false)
  rename_in s (some m) old newp =
      if not (m.fs_type == fs_ext4)
      then some (s, false)
      else if ltb (length newp) (length m.path)
      then none
      else some (fs.ext4_rename s m.fs_data (below m old) (below m newp))

  unfoldable pub vfs_rename : Vfs → S → List ℕ → List ℕ → Option (S × Bool)
  unfolding rename_in
  vfs_rename vfs s old newp = rename_in s (vfs_find_mount vfs old) old newp

stat_of : Option Mount → List ℕ → Option (List ℕ × ℕ)
stat_of none path = none
stat_of (some m) path = some (strncpy path (max_name - 1), m.fs_type)

-- The `name` and `fs_type` of the node filled in, whose other fields are zero.
unfoldable pub vfs_stat : Vfs → List ℕ → Option (List ℕ × ℕ)
unfolding stat_of
vfs_stat vfs path = stat_of (vfs_find_mount vfs path) path
