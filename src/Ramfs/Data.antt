-- ===== src/Ramfs/Data.antt =====
-- Open files of fs/ramfs.c: reading, writing and seeking. A handle holds a pointer to its inode.
use blockos.Prelude.{
  ℕ, ◌+◌, ◌-◌, ◌%◌, ◌^◌, Bool, true, false, List, [], ◌++◌, Option, none, some, if◌then◌else◌, ◌==◌,
  ltb, length, take, drop, set,
}
use blockos.Heap.{malloc}
use blockos.Ramfs.{Ramfs, inode, file_bytes, find_inode}
use blockos.Ramfs.Ops.{ramfs_create_file}

-- `ramfs_file_t`
pub record File : Type 0 where
  pub inode : ℕ
  pub position : ℕ
  pub flags : ℕ

unfoldable pub handle_at : Ramfs → Option ℕ × ℕ → ℕ → ℕ → Ramfs × Option File
handle_at fs (none, next) node flags = (record fs { heap_ptr = next }, none)
handle_at fs (some p, next) node flags =
    (record fs { heap_ptr = next }, some (record { inode = node; position = 0; flags = flags }))

unfoldable pub opened : Ramfs × Option ℕ → ℕ → Ramfs × Option File
unfolding handle_at
opened (fs, none) flags = (fs, none)
opened (fs, some node) flags = handle_at fs (malloc fs.heap_ptr file_bytes) node flags

-- What the path leads to, or a new file if it leads nowhere and the flag 1 is set.
unfoldable pub found_or_new : Ramfs → Option ℕ → List ℕ → ℕ → Ramfs × Option ℕ
found_or_new fs (some node) path flags = (fs, some node)
found_or_new fs none path flags =
    if flags % 2 == 1 then ramfs_create_file fs path 420 else (fs, none)

unfoldable pub ramfs_open : Ramfs → List ℕ → ℕ → Ramfs × Option File
unfolding opened found_or_new
ramfs_open fs path flags = opened (found_or_new fs (find_inode fs path) path flags) flags

-- The bytes at `data`; a null pointer has none.
abbrev pub bytes_at : Option (List ℕ) → List ℕ
bytes_at none = []
bytes_at (some bytes) = bytes

-- The bytes that go to the buffer, and the handle behind them.
unfoldable pub ramfs_read : Ramfs → File → ℕ → File × List ℕ
ramfs_read fs f size =
    let node = inode fs.nodes f.inode in
    let available = (node.size + 2 ^ 32 - f.position) % 2 ^ 32 in
    let n = if ltb available size then available else size in
    if available == 0 then (f, []) else (
      record f { position = (f.position + n) % 2 ^ 32 },
      take n (drop f.position (bytes_at node.content)),
    )

-- memcpy(data + position, buffer, size)
abbrev pub overwrite : List ℕ → ℕ → List ℕ → List ℕ
overwrite bytes position buffer =
    take position bytes ++ (buffer ++ drop (position + length buffer) bytes)

-- The copy, and the size of the file where it has grown.
unfoldable pub write_bytes : Ramfs → File → List ℕ → Ramfs × File × ℕ
write_bytes fs f buffer =
    let node = inode fs.nodes f.inode in
    let end = (f.position + length buffer) % 2 ^ 32 in
    (
      record fs {
        nodes = set fs.nodes f.inode (record node {
          content = some (overwrite (bytes_at node.content) f.position buffer);
          size = if ltb node.size end then end else node.size;
        });
      },
      record f { position = end },
      length buffer,
    )

-- After `realloc` has answered. What a larger block holds behind the old bytes is overwritten: a
-- position is never behind them.
unfoldable pub grown : Ramfs → Option ℕ × ℕ → File → List ℕ → Ramfs × File × ℕ
unfolding write_bytes
grown fs (none, next) f buffer = (record fs { heap_ptr = next }, f, 0)
grown fs (some p, next) f buffer =
    let node = inode fs.nodes f.inode in
    write_bytes
      (record fs {
        heap_ptr = next;
        used_size = (fs.used_size + length buffer) % 2 ^ 32;
        nodes =
            set fs.nodes f.inode
              (record node { data_size = (f.position + length buffer) % 2 ^ 32 });
      })
      f buffer

unfoldable pub ramfs_write : Ramfs → File → List ℕ → Ramfs × File × ℕ
unfolding grown write_bytes
ramfs_write fs f buffer =
    let new_size = (f.position + length buffer) % 2 ^ 32 in
    if ltb (inode fs.nodes f.inode).data_size new_size
    then grown fs (malloc fs.heap_ptr new_size) f buffer
    else write_bytes fs f buffer

unfoldable pub ramfs_seek : Ramfs → File → ℕ → File × Bool
ramfs_seek fs f offset =
    if ltb (inode fs.nodes f.inode).size offset
    then (f, false)
    else (record f { position = offset }, true)
