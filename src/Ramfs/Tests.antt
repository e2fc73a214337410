-- ===== src/Ramfs/Tests.antt =====
-- fs/ramfs.c on small inputs.
use blockos.Prelude.{ℕ, ◌≡◌, refl, true, List, [], ◌∷◌, some, arith, inl, bytes_of}
use blockos.Heap.{malloc}
use blockos.Strings.{strcmp, strncpy, strchr}
use blockos.Strings.Tokens.{all_tokens, strtok, skip, cut}
use blockos.Ramfs.{
  Ramfs, last_slash, split_at, split_path, new_inode, child_named, walk, walk_from, find_inode,
  add_child,
}
use blockos.Ramfs.Ops.{
  alloc_at, alloc_inode, rooted, ramfs_init, hang, create_in, ramfs_create_file, ramfs_find,
  unlink_from, delete_from, delete_at, ramfs_delete,
}
use blockos.Ramfs.Data.{File, write_bytes, grown, ramfs_write, ramfs_read, ramfs_seek}
use blockos.Ramfs.Tree.{IsTree-InRange}
use blockos.Ramfs.Unlink.{IsSound, ramfs_find-ramfs_delete}
use blockos.Ramfs.Reach.{IsPath}
use blockos.Ramfs.Create.{ramfs_find-ramfs_create_file}
use blockos.Slots.Laws.{All}
use blockos.Ramfs.Calls.{Call, call, calls, no_files, FitsCall, calls-ramfs_init-IsSound}
use blockos.Ramfs.Content.{ramfs_read-ramfs_write}

abbrev empty : Ramfs
empty = (ramfs_init (no_files 0)).0

abbrev some_calls : List Call
some_calls =
    Call.create_dir (bytes_of "/etc") 493
    ∷ Call.create_file (bytes_of "/etc/hosts") 420
    ∷ Call.delete (bytes_of "/etc/hosts")
    ∷ Call.create_default_structure
    ∷ Call.load_initrd (bytes_of "disk")
    ∷ []

some_calls-FitsCall : All FitsCall some_calls
unfolding split_path split_at last_slash
some_calls-FitsCall = ground arith

calls-ramfs_init-IsSound_example : IsSound (calls empty some_calls) 0
unfolding ramfs_init rooted alloc_inode alloc_at malloc
calls-ramfs_init-IsSound_example = calls-ramfs_init-IsSound 0 some_calls some_calls-FitsCall refl

empty-IsSound : IsSound empty 0
unfolding ramfs_init rooted alloc_inode alloc_at malloc calls
empty-IsSound = calls-ramfs_init-IsSound 0 [] tt refl

-- A file in the root.
abbrev path_a : List ℕ
path_a = bytes_of "/a"

abbrev with_a : Ramfs
with_a = (ramfs_create_file empty path_a 420).0

ramfs_find-ramfs_create_file_example :
    (ramfs_find with_a path_a ≡ some 1)
    × ((q : List ℕ) (j : ℕ) → IsPath q → ramfs_find empty q ≡ some j → ramfs_find with_a q ≡ some j)
unfolding ramfs_init rooted alloc_inode alloc_at malloc new_inode ramfs_create_file create_in hang
    split_path split_at last_slash find_inode walk_from walk child_named strcmp strncpy ramfs_find
    all_tokens strtok skip cut strchr
ramfs_find-ramfs_create_file_example =
    ramfs_find-ramfs_create_file empty with_a [] (bytes_of "a") 0 1 420
      (empty-IsSound.0, empty-IsSound.1, IsTree-InRange empty.nodes empty-IsSound.3) (refl, tt) tt
      (omega arith, tt) (omega arith) (omega arith) refl (inl refl)

-- It is deleted again.
ramfs_find-ramfs_delete_example : ¬ (ramfs_find (ramfs_delete with_a path_a).0 path_a ≡ some 1)
unfolding ramfs_init rooted alloc_inode alloc_at malloc new_inode ramfs_create_file create_in hang
    split_path split_at last_slash find_inode walk_from walk child_named strcmp strncpy ramfs_find
    all_tokens strtok skip cut strchr ramfs_delete delete_at delete_from unlink_from calls call
    add_child
ramfs_find-ramfs_delete_example =
    ramfs_find-ramfs_delete with_a (ramfs_delete with_a path_a).0 0 1 path_a path_a
      (calls-ramfs_init-IsSound 0 (Call.create_file path_a 420 ∷ []) (ground arith) refl) refl refl

abbrev handle : File
handle = record { inode = 1; position = 0; flags = 0 }

abbrev text : List ℕ
text = bytes_of "hello"

ramfs_read-ramfs_write_example :
    ((ramfs_seek (ramfs_write with_a handle text).0 (ramfs_write with_a handle text).1 0).1 ≡ true)
    × ((ramfs_read
          (ramfs_write with_a handle text).0
          (ramfs_seek (ramfs_write with_a handle text).0 (ramfs_write with_a handle text).1 0).0
          5).1
        ≡ text)
unfolding ramfs_init rooted alloc_inode alloc_at malloc new_inode ramfs_create_file create_in hang
    split_path split_at last_slash find_inode walk_from walk child_named strcmp strncpy all_tokens
    strtok skip cut strchr ramfs_write grown write_bytes add_child
ramfs_read-ramfs_write_example =
    ramfs_read-ramfs_write with_a (ramfs_write with_a handle text).0 handle
      (ramfs_write with_a handle text).1 text (omega arith, omega arith, omega arith, omega arith)
      (omega arith) (omega arith) refl
