-- ===== src/Ramfs/Ops.antt =====
-- The calls of fs/ramfs.c on the tree of inodes.
use blockos.Prelude.{
  ℕ, ◌+◌, ◌-◌, ◌*◌, ◌%◌, ◌^◌, Bool, true, false, List, [], ◌∷◌, ◌++◌, Option, none, some,
  if◌then◌else◌, ◌==◌, length, take, set, is_some,
}
use blockos.Heap.{malloc}
use blockos.Strings.{strncpy}
use blockos.Ramfs.{
  Ramfs, Inode, inode, slash, max_path, type_file, type_dir, type_symlink, inode_bytes, split_path,
  new_inode, find_inode, add_child,
}

abbrev pub dec32 : ℕ → ℕ
dec32 x = (x + 2 ^ 32 - 1) % 2 ^ 32

abbrev pub inc32 : ℕ → ℕ
inc32 x = (x + 1) % 2 ^ 32

-- After `malloc` has answered; the new inode is the last of the list.
unfoldable pub alloc_at : Ramfs → Option ℕ × ℕ → List ℕ → ℕ → ℕ → Ramfs × Option ℕ
unfolding new_inode
alloc_at fs (none, next) name type permissions = (record fs { heap_ptr = next }, none)
alloc_at fs (some p, next) name type permissions = (
  record fs {
    nodes = fs.nodes ++ new_inode fs.next_inode_id name type permissions ∷ [];
    next_inode_id = inc32 fs.next_inode_id;
    heap_ptr = next;
  },
  some (length fs.nodes),
)

unfoldable pub alloc_inode : Ramfs → List ℕ → ℕ → ℕ → Ramfs × Option ℕ
unfolding alloc_at
alloc_inode fs name type permissions =
    alloc_at fs (malloc fs.heap_ptr inode_bytes) name type permissions

-- memset(fs, 0, sizeof(ramfs_t)), with the new root
abbrev cleared : Ramfs → Option ℕ → Ramfs
cleared fs root = record fs {
  mounted = false;
  root = root;
  total_size = 0;
  used_size = 0;
  file_count = 0;
  dir_count = 0;
  mount_point = [];
}

unfoldable pub rooted : Ramfs × Option ℕ → Ramfs × Bool
rooted (fs, none) = (cleared fs none, false)
rooted (fs, some root) =
    (record (cleared fs (some root)) { total_size = 8192 * 4096; dir_count = 1 }, true)

unfoldable pub ramfs_init : Ramfs → Ramfs × Bool
unfolding alloc_inode rooted
ramfs_init fs = rooted (alloc_inode fs slash type_dir 493)

unfoldable pub ramfs_mount : Ramfs → List ℕ → Ramfs × Bool
ramfs_mount fs mount_point =
    (record fs { mount_point = strncpy mount_point (max_path - 1); mounted = true }, true)

unfoldable pub ramfs_umount : Ramfs → Ramfs × Bool
ramfs_umount fs = (record fs { mounted = false }, true)

-- parent && parent->type == RAMFS_TYPE_DIR
abbrev pub is_dir : Ramfs → ℕ → Bool
is_dir fs p = (inode fs.nodes p).type == type_dir

-- A new inode is hung into its parent, and counted.
unfoldable pub hang : Ramfs × Option ℕ → ℕ → (Ramfs → Ramfs) → Ramfs × Option ℕ
hang (fs, none) parent count = (fs, none)
hang (fs, some child) parent count =
    (count (record fs { nodes = add_child fs.nodes parent child }), some child)

abbrev pub count_file : Ramfs → Ramfs
count_file fs = record fs { file_count = inc32 fs.file_count }

abbrev pub count_dir : Ramfs → Ramfs
count_dir fs = record fs { dir_count = inc32 fs.dir_count }

unfoldable pub create_in : Ramfs → Option ℕ → List ℕ → ℕ → ℕ → (Ramfs → Ramfs) → Ramfs × Option ℕ
unfolding hang alloc_inode
create_in fs none name type permissions count = (fs, none)
create_in fs (some parent) name type permissions count =
    if is_dir fs parent
    then hang (alloc_inode fs name type permissions) parent count
    else (fs, none)

unfoldable pub ramfs_create_file : Ramfs → List ℕ → ℕ → Ramfs × Option ℕ
unfolding create_in split_path
ramfs_create_file fs path permissions =
    let (parent_path, name) = split_path path in
    create_in fs (find_inode fs parent_path) name type_file permissions count_file

unfoldable pub ramfs_create_dir : Ramfs → List ℕ → ℕ → Ramfs × Option ℕ
unfolding create_in split_path
ramfs_create_dir fs path permissions =
    let (parent_path, name) = split_path path in
    create_in fs (find_inode fs parent_path) name type_dir permissions count_dir

-- The target is written before the link is hung into its parent, which need not be a directory.
unfoldable pub link_at : Ramfs × Option ℕ → ℕ → List ℕ → Ramfs × Option ℕ
unfolding hang
link_at (fs, none) parent target = (fs, none)
link_at (fs, some link) parent target =
    let target' = strncpy target (max_path - 1) in
    hang
      (
        record fs {
          nodes = set fs.nodes link (record (inode fs.nodes link) { symlink_target = target' });
        },
        some link,
      )
      parent (λ fs'. fs')

unfoldable pub symlink_in : Ramfs → Option ℕ → List ℕ → List ℕ → Ramfs × Option ℕ
unfolding link_at alloc_inode
symlink_in fs none name target = (fs, none)
symlink_in fs (some parent) name target =
    link_at (alloc_inode fs name type_symlink 511) parent target

unfoldable pub ramfs_create_symlink : Ramfs → List ℕ → List ℕ → Ramfs × Option ℕ
unfolding symlink_in split_path
ramfs_create_symlink fs path target =
    let (parent_path, name) = split_path path in
    symlink_in fs (find_inode fs parent_path) name target

unfoldable pub ramfs_find : Ramfs → List ℕ → Option ℕ
unfolding find_inode
ramfs_find fs path = find_inode fs path

list_at : Ramfs → Option ℕ → ℕ → Option (List ℕ)
list_at fs none count = none
list_at fs (some dir) count =
    if is_dir fs dir then some (take count (inode fs.nodes dir).children) else none

-- The entries, as many as `*count` has room for; `none` where the call returns false.
unfoldable pub ramfs_list_dir : Ramfs → List ℕ → ℕ → Option (List ℕ)
unfolding list_at
ramfs_list_dir fs path count = list_at fs (find_inode fs path) count

-- The chain of children without the first link to `node`.
unfoldable pub unlinked : ℕ → List ℕ → List ℕ
unlinked node [] = []
unlinked node (c ∷ cs) = if c == node then cs else c ∷ unlinked node cs

abbrev pub freed : Ramfs → Inode → Ramfs
freed fs n =
    if is_some n.content
    then record fs { used_size = (fs.used_size + 2 ^ 32 - n.data_size) % 2 ^ 32 }
    else fs

abbrev pub uncounted : Ramfs → Inode → Ramfs
uncounted fs n =
    if n.type == type_file
    then record fs { file_count = dec32 fs.file_count }
    else if n.type == type_dir
    then record fs { dir_count = dec32 fs.dir_count }
    else fs

unfoldable pub unlink_from : Ramfs → ℕ → ℕ → Ramfs
unlink_from fs node parent = record fs {
  nodes = set fs.nodes parent (record (inode fs.nodes parent) {
    children = unlinked node (inode fs.nodes parent).children;
  });
}

-- The inode itself stays where it is, and so do its children: `free` does nothing.
unfoldable pub delete_from : Ramfs → ℕ → Option ℕ → Ramfs × Bool
unfolding unlink_from
delete_from fs node none = (fs, false)
delete_from fs node (some parent) =
    let n = inode fs.nodes node in (uncounted (freed (unlink_from fs node parent) n) n, true)

unfoldable pub delete_at : Ramfs → Option ℕ → Ramfs × Bool
unfolding delete_from
delete_at fs none = (fs, false)
delete_at fs (some node) = delete_from fs node (inode fs.nodes node).parent

unfoldable pub ramfs_delete : Ramfs → List ℕ → Ramfs × Bool
unfolding delete_at unlinked
ramfs_delete fs path = delete_at fs (find_inode fs path)

unfoldable pub ramfs_get_free_space : Ramfs → ℕ
ramfs_get_free_space fs = (fs.total_size + 2 ^ 32 - fs.used_size) % 2 ^ 32

unfoldable pub ramfs_get_used_space : Ramfs → ℕ
ramfs_get_used_space fs = fs.used_size
