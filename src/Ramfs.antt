-- ===== src/Ramfs.antt =====
-- fs/ramfs.c and fs/ramfs.h: the file system in memory. `malloc` never gives the same block twice
-- and `free` does nothing, so the inodes are a list that only grows, and a pointer to one is its
-- place there. The chain that `children` and `next` thread is the list of a directory's children,
-- the latest first. There is one file system, the one of `g_ramfs`; `created`, `modified`, `uid` and
-- `gid` stay 0. The buffers of the calls hold a path of fewer than 1023 bytes
-- whose last name has fewer than 256: `split_path` copies without a bound, and longer ones, which
-- overflow name[256] or parent[1024], are outside the model.
pub mod Ops
pub mod Default
pub mod Data
pub mod Hang
pub mod Create
pub mod Reach
pub mod Find
pub mod Path
pub mod Tree
pub mod Unlink
pub mod Sound
pub mod Start
pub mod Calls
pub mod Content
pub mod Tests
use blockos.Prelude.{
  ℕ, zero, suc, ◌+◌, ◌-◌, ◌*◌, ◌%◌, ◌^◌, Bool, true, false, not, ◌&&◌, ◌||◌, List, [], ◌∷◌, ◌++◌,
  Option, none, some, if◌then◌else◌, ◌==◌, length, take, drop, get_or, set, bytes_of,
}
use blockos.Heap.{malloc}
use blockos.Strings.{strcmp, strncpy, is_zero}
use blockos.Strings.Tokens.{all_tokens}

abbrev pub max_name : ℕ
max_name = 256

abbrev pub max_path : ℕ
max_path = 1024

-- RAMFS_TYPE_FILE, RAMFS_TYPE_DIR, RAMFS_TYPE_SYMLINK
abbrev pub type_file : ℕ
type_file = 0

abbrev pub type_dir : ℕ
type_dir = 1

abbrev pub type_symlink : ℕ
type_symlink = 2

-- sizeof(ramfs_inode_t) and sizeof(ramfs_file_t) on the i386
abbrev pub inode_bytes : ℕ
inode_bytes = 1340

abbrev pub file_bytes : ℕ
file_bytes = 12

-- `ramfs_inode_t`
pub record Inode : Type 0 where
  pub id : ℕ
  pub name : List ℕ
  pub type : ℕ
  pub size : ℕ
  pub permissions : ℕ
  pub content : Option (List ℕ)
  pub data_size : ℕ
  pub parent : Option ℕ
  pub children : List ℕ
  pub symlink_target : List ℕ

-- `ramfs_t`, with the inodes, `next_inode_id` and the allocator's `heap_ptr`
pub record Ramfs : Type 0 where
  pub mounted : Bool
  pub root : Option ℕ
  pub total_size : ℕ
  pub used_size : ℕ
  pub file_count : ℕ
  pub dir_count : ℕ
  pub mount_point : List ℕ
  pub nodes : List Inode
  pub next_inode_id : ℕ
  pub heap_ptr : ℕ

abbrev pub no_inode : Inode
no_inode = record {
  id = 0;
  name = [];
  type = 0;
  size = 0;
  permissions = 0;
  content = none;
  data_size = 0;
  parent = none;
  children = [];
  symlink_target = [];
}

-- The inode at a pointer.
abbrev pub inode : List Inode → ℕ → Inode
inode nodes i = get_or nodes i no_inode

abbrev pub slash : List ℕ
slash = b'/' ∷ []

-- for (int i = len - 1; i >= 0; i--) if (path[i] == '/') { last_slash = i; break; }
unfoldable pub last_slash : ℕ → List ℕ → Option ℕ
last_slash zero path = none
last_slash (suc i) path =
    let rest = last_slash i path in if get_or path i 0 == b'/' then some i else rest

-- The parent's path and the name.
unfoldable pub split_at : Option ℕ → List ℕ → List ℕ × List ℕ
split_at none path = (slash, path)
split_at (some zero) path = (slash, drop 1 path)
split_at (some (suc i)) path = (take (suc i) path, drop (suc (suc i)) path)

-- Of a path that fits the two buffers.
unfoldable pub split_path : List ℕ → List ℕ × List ℕ
unfolding last_slash split_at
split_path path = split_at (last_slash (length path) path) path

unfoldable pub new_inode : ℕ → List ℕ → ℕ → ℕ → Inode
new_inode id name type permissions = record no_inode {
  id = id;
  name = strncpy name (max_name - 1);
  type = type;
  permissions = permissions;
}

-- while (child) { if (strcmp(child->name, token) == 0) ...; child = child->next; }
unfoldable pub child_named : List Inode → List ℕ → List ℕ → Option ℕ
child_named nodes [] token = none
child_named nodes (c ∷ cs) token =
    if is_zero (strcmp (inode nodes c).name token) then some c else child_named nodes cs token

-- The loop over the tokens, from `current` on.
unfoldable pub walk : List Inode → ℕ → List (List ℕ) → Option ℕ
unfolding child_named
walk nodes current [] = some current
walk nodes current (token ∷ tokens) =
    elim (child_named nodes (inode nodes current).children token) [
      | none ↦ none
      | some child ↦ walk nodes child tokens
    ]

unfoldable pub walk_from : List Inode → Option ℕ → List (List ℕ) → Option ℕ
unfolding walk
walk_from nodes none tokens = none
walk_from nodes (some root) tokens = walk nodes root tokens

unfoldable pub find_inode : Ramfs → List ℕ → Option ℕ
unfolding walk_from
find_inode fs path =
    if is_zero (strcmp path slash)
    then fs.root
    else walk_from fs.nodes fs.root (all_tokens (length path) slash (strncpy path (max_path - 1)))

-- child->parent = parent; child->next = parent->children; parent->children = child;
unfoldable pub add_child : List Inode → ℕ → ℕ → List Inode
add_child nodes parent child =
    let linked = set nodes child (record (inode nodes child) { parent = some parent }) in
    set linked parent
      (record (inode linked parent) { children = child ∷ (inode linked parent).children })
