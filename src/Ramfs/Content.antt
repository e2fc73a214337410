-- ===== src/Ramfs/Content.antt =====
-- What a write of fs/ramfs.c leaves in the file: `ramfs_write`, `ramfs_seek` and `ramfs_read`.
use blockos.Prelude.{
  ℕ, zero, suc, ◌+◌, ◌-◌, ◌%◌, ◌^◌, ◌≤◌, ◌<◌, ◌≡◌, refl, ap, ◌∙◌, sym, ltb, Bool, true, false, List,
  [], ◌∷◌, ◌++◌, Option, none, some, arith, if◌then◌else◌, ◌==◌, length, take, drop, set,
  get_or-set_self, length-set, take-length_append, subst,
}
use blockos.Heap.{malloc}
use blockos.Ramfs.{Ramfs, Inode, inode, no_inode}
use blockos.Ramfs.Data.{
  File, bytes_at, overwrite, write_bytes, grown, ramfs_write, ramfs_seek, ramfs_read,
}

drop-take_append : (n : ℕ) (xs ys : List ℕ) → n ≤ length xs → drop n (take n xs ++ ys) ≡ ys
drop-take_append zero xs ys h = refl
drop-take_append (suc n) [] ys h = elim h [ ]
drop-take_append (suc n) (x ∷ xs) ys h = drop-take_append n xs ys (omega arith)

-- The bytes at the position are those of the buffer.
drop-overwrite :
    (bytes buffer : List ℕ) (position : ℕ)
    → position ≤ length bytes
    → take (length buffer) (drop position (overwrite bytes position buffer)) ≡ buffer
drop-overwrite bytes buffer position h =
    let rest = drop (position + length buffer) bytes in
    ap (take (length buffer)) (drop-take_append position bytes (buffer ++ rest) h)
    ∙ take-length_append buffer rest

-- A handle inside its file, and a file inside its data.
abbrev pub IsInside : Ramfs → File → Type 0
IsInside fs f =
    (f.inode < length fs.nodes)
    × (f.position ≤ (inode fs.nodes f.inode).size)
    × ((inode fs.nodes f.inode).size ≤ length (bytes_at (inode fs.nodes f.inode).content))
    × ((inode fs.nodes f.inode).size < 2 ^ 32)

-- What is read at the position of a write.
abbrev IsWritten : Ramfs → File → List ℕ → Type 0
IsWritten fs f buffer =
    ((ramfs_seek fs (record f { position = (f.position + length buffer) % 2 ^ 32 }) f.position)
      ≡ (f, true))
    × ((ramfs_read fs f (length buffer)).1 ≡ buffer)

read_of :
    (fs : Ramfs) (f : File) (buffer : List ℕ)
    → 0 < length buffer
    → f.position + length buffer ≤ (inode fs.nodes f.inode).size
    → (inode fs.nodes f.inode).size < 2 ^ 32
    → take (length buffer) (drop f.position (bytes_at (inode fs.nodes f.inode).content)) ≡ buffer
    → IsWritten fs f buffer
unfolding ramfs_read ramfs_seek
read_of fs f buffer pos fits small e =
    let size = (inode fs.nodes f.inode).size in
    let available : (size + 2 ^ 32 - f.position) % 2 ^ 32 ≡ size - f.position = omega arith in
    let behind : ltb size f.position ≡ false = ground arith in
    let some_left : ((size + 2 ^ 32 - f.position) % 2 ^ 32 == 0) ≡ false =
      ground (arith, available) in
    let enough : ltb ((size + 2 ^ 32 - f.position) % 2 ^ 32) (length buffer) ≡ false =
      ground (arith, available) in
    (rw behind refl, rw (some_left) (rw enough e))

write_bytes-IsWritten :
    (fs : Ramfs) (f : File) (buffer : List ℕ)
    → IsInside fs f
    → 0 < length buffer
    → f.position + length buffer < 2 ^ 32
    → IsWritten (write_bytes fs f buffer).0 f buffer
unfolding write_bytes
write_bytes-IsWritten fs f buffer inside pos small =
    let node = inode fs.nodes f.inode in
    let end = (f.position + length buffer) % 2 ^ 32 in
    let written : Inode = record node {
      content = some (overwrite (bytes_at node.content) f.position buffer);
      size = if ltb node.size end then end else node.size;
    } in
    let there : inode (set fs.nodes f.inode written) f.inode ≡ written =
      get_or-set_self fs.nodes f.inode written no_inode inside.0 in
    let larger : f.position + length buffer ≤ written.size = ground (arith, inside.3) in
    let less : written.size < 2 ^ 32 = ground (arith, inside.3) in
    read_of (write_bytes fs f buffer).0 f buffer pos
      (subst (λ (n : Inode). f.position + length buffer ≤ n.size) (sym there) larger)
      (subst (λ (n : Inode). n.size < 2 ^ 32) (sym there) less)
      (ap (λ (n : Inode). take (length buffer) (drop f.position (bytes_at n.content))) there
        ∙ drop-overwrite (bytes_at node.content) buffer f.position
            (omega (arith, inside.1, inside.2)))

grown-IsWritten :
    (fs : Ramfs) (m : Option ℕ × ℕ) (f : File) (buffer : List ℕ)
    → IsInside fs f
    → 0 < length buffer
    → f.position + length buffer < 2 ^ 32
    → (grown fs m f buffer).2 ≡ length buffer
    → IsWritten (grown fs m f buffer).0 f buffer
unfolding grown
grown-IsWritten fs (none, next) f buffer inside pos small e = absurd (omega (arith, e, pos))
grown-IsWritten fs (some p, next) f buffer inside pos small e =
    let node = inode fs.nodes f.inode in
    let larger : Inode = record node { data_size = (f.position + length buffer) % 2 ^ 32 } in
    let g : Ramfs = record fs {
      heap_ptr = next;
      used_size = (fs.used_size + length buffer) % 2 ^ 32;
      nodes = set fs.nodes f.inode larger;
    } in
    let there : inode g.nodes f.inode ≡ larger =
      get_or-set_self fs.nodes f.inode larger no_inode inside.0 in
    write_bytes-IsWritten g f buffer
      (
        subst (λ n. f.inode < n) (sym (length-set fs.nodes f.inode larger)) inside.0,
        subst (λ (n : Inode). f.position ≤ n.size) (sym there) inside.1,
        subst (λ (n : Inode). n.size ≤ length (bytes_at n.content)) (sym there) inside.2,
        subst (λ (n : Inode). n.size < 2 ^ 32) (sym there) inside.3,
      )
      pos small

-- A write and its results, where it wrote everything.
abbrev Writes : Ramfs × File × ℕ → File → List ℕ → Type 0
Writes (fs, f', n) f buffer =
    ((ramfs_seek fs f' f.position).1 ≡ true)
    × ((ramfs_read fs (ramfs_seek fs f' f.position).0 (length buffer)).1 ≡ buffer)

written-Writes :
    (fs : Ramfs) (f f' : File) (buffer : List ℕ) (n : ℕ)
    → f' ≡ record f { position = (f.position + length buffer) % 2 ^ 32 }
    → IsWritten fs f buffer
    → Writes (fs, f', n) f buffer
written-Writes fs f f' buffer n e w =
    let back : ramfs_seek fs f' f.position ≡ (f, true) =
      ap (λ g. ramfs_seek fs g f.position) e ∙ w.0 in
    (ap (λ x. x.1) back, ap (λ (x : File × Bool). (ramfs_read fs x.0 (length buffer)).1) back ∙ w.1)

grown-moves :
    (fs : Ramfs) (m : Option ℕ × ℕ) (f : File) (buffer : List ℕ)
    → 0 < length buffer
    → (grown fs m f buffer).2 ≡ length buffer
    → (grown fs m f buffer).1 ≡ record f { position = (f.position + length buffer) % 2 ^ 32 }
unfolding grown write_bytes
grown-moves fs (none, next) f buffer pos e = absurd (omega (arith, e, pos))
grown-moves fs (some p, next) f buffer pos e = refl

Writes-if :
    (b : Bool) (x y : Ramfs × File × ℕ) (f : File) (buffer : List ℕ)
    → (x.2 ≡ length buffer → Writes x f buffer)
    → (y.2 ≡ length buffer → Writes y f buffer)
    → (if b then x else y).2 ≡ length buffer
    → Writes (if b then x else y) f buffer
Writes-if true x y f buffer hx hy e = hx e
Writes-if false x y f buffer hx hy e = hy e

-- Where `ramfs_write` writes a buffer through a handle (it returns the length of the buffer, which is
-- not empty), then seeking back to where the handle stood succeeds, and reading as many bytes gives
-- the buffer. The handle stood inside its file, the file inside its data, and the position behind the
-- write is less than 2 ^ 32.
pub ramfs_read-ramfs_write :
    (fs fs' : Ramfs) (f f' : File) (buffer : List ℕ)
    → IsInside fs f
    → 0 < length buffer
    → f.position + length buffer < 2 ^ 32
    → ramfs_write fs f buffer ≡ (fs', f', length buffer)
    → ((ramfs_seek fs' f' f.position).1 ≡ true)
      × ((ramfs_read fs' (ramfs_seek fs' f' f.position).0 (length buffer)).1 ≡ buffer)
unfolding ramfs_write write_bytes
ramfs_read-ramfs_write fs fs' f f' buffer inside pos small e =
    let new_size = (f.position + length buffer) % 2 ^ 32 in
    let m = malloc fs.heap_ptr new_size in
    let writes : Writes (ramfs_write fs f buffer) f buffer =
      Writes-if (ltb (inode fs.nodes f.inode).data_size new_size) (grown fs m f buffer)
        (write_bytes fs f buffer) f buffer
        (λ n.
          written-Writes (grown fs m f buffer).0 f (grown fs m f buffer).1 buffer
            (grown fs m f buffer).2 (grown-moves fs m f buffer pos n)
            (grown-IsWritten fs m f buffer inside pos small n))
        (λ n.
          written-Writes (write_bytes fs f buffer).0 f (write_bytes fs f buffer).1 buffer
            (length buffer) refl (write_bytes-IsWritten fs f buffer inside pos small))
        (ap (λ (x : Ramfs × File × ℕ). x.2) e) in
    subst (λ x. Writes x f buffer) e writes
