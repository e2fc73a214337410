-- ===== src/Vfs/Tests.antt =====
-- The theorems about vfs.c at concrete paths and file systems.
use blockos.Prelude.{
  ℕ, suc, ◌≡◌, Bool, true, List, [], ◌∷◌, some, arith, bytes_of, length, leb, ltb,
}
use blockos.Slots.{count_active}
use blockos.Strings.{strncmp}
use blockos.Vfs.{Vfs, vfs_init, vfs_mount, vfs_find_mount, max_mounts, find_from}
use blockos.Vfs.Files.{FileSystems, vfs_open}
use blockos.Vfs.Find.{IsLongest, vfs_find_mount-IsLongest}
use blockos.Vfs.Count.{mount_count-after, after, on, mounts_at, Call}
use blockos.Vfs.Fds.{IsOpened, vfs_open-IsOpened}

-- File systems that count the calls and refuse every path longer than six bytes.
abbrev counting : ℕ → List ℕ → ℕ × Bool
counting s path = (suc s, leb (length path) 6)

abbrev file_systems : FileSystems ℕ
file_systems = record {
  ext4_open = λ s a path flags. counting s path;
  fat32_open = λ s a path. counting s path;
  ramfs_open = λ s a path flags. counting s path;
  procfs_open = λ s a path. counting s path;
  ext4_mkdir = λ s a path mode. counting s path;
  ramfs_create_dir = λ s a path mode. counting s path;
  ext4_unlink = λ s a path. counting s path;
  ramfs_delete = λ s a path. counting s path;
  ext4_path_to_inode = λ s a path. (s, length path);
  ramfs_find = λ s a path. counting s path;
  ext4_rename = λ s a old newp. counting s old;
}

abbrev mount_calls : List Call
mount_calls = mounts_at (bytes_of "/") 0 100 ∷ mounts_at (bytes_of "/mnt") 2 200 ∷ []

abbrev root_and_mnt : Vfs
root_and_mnt = record vfs_init {
  mounts =
      record { path = bytes_of "/"; fs_type = 0; fs_data = 100; active = true }
      ∷ record { path = bytes_of "/mnt"; fs_type = 2; fs_data = 200; active = true }
      ∷ [];
}

vfs_find_mount-IsLongest_example :
    IsLongest
      (bytes_of "/mnt/a")
      root_and_mnt.mounts
      (some (record { path = bytes_of "/mnt"; fs_type = 2; fs_data = 200; active = true }))
unfolding vfs_find_mount find_from strncmp
vfs_find_mount-IsLongest_example =
    vfs_find_mount-IsLongest root_and_mnt (bytes_of "/mnt/a") (omega arith)
      (omega arith, (omega arith, tt))

mount_count-after_example :
    ((after vfs_init mount_calls).mount_count ≡ count_active on (after vfs_init mount_calls).mounts)
    × ((vfs_mount (after vfs_init mount_calls) (bytes_of "/proc") 3 300).1
        ≡ ltb (count_active on (after vfs_init mount_calls).mounts) max_mounts)
mount_count-after_example = mount_count-after mount_calls (bytes_of "/proc") 3 300

-- The file system refuses the path.
vfs_open-IsOpened_example :
    IsOpened root_and_mnt
      (vfs_open file_systems root_and_mnt 0 (bytes_of "/mnt/long_name") 1).0.0
      1
      (vfs_open file_systems root_and_mnt 0 (bytes_of "/mnt/long_name") 1).1
vfs_open-IsOpened_example =
    vfs_open-IsOpened file_systems root_and_mnt 0 (bytes_of "/mnt/long_name") 1
