-- ===== src/Ramfs/Create.antt =====
-- A file or directory that is created in fs/ramfs.c is the one that its path leads to, and every path
-- that led somewhere leads there still.
use blockos.Prelude.{
  ℕ, ◌+◌, ◌≤◌, ◌<◌, ◌≡◌, refl, ap, ◌∙◌, sym, inl, inr, ◌⊎◌, List, [], ◌∷◌, ◌++◌, Option, none, some,
  arith, length, take-of_length_le, length-append, Bool-cases, if_true, if_false, subst,
}
use blockos.Slots.Laws.{All}
use blockos.Heap.{malloc}
use blockos.Strings.{strncpy}
use blockos.Strings.Compare.{IsCString}
use blockos.Strings.Tokens.{words}
use blockos.Ramfs.{
  Ramfs, Inode, inode, inode_bytes, slash, type_file, type_dir, add_child, child_named, walk,
  find_inode, new_inode,
}
use blockos.Ramfs.Ops.{
  alloc_at, hang, is_dir, create_in, ramfs_create_file, ramfs_create_dir, ramfs_find, count_file,
  count_dir,
}
use blockos.Ramfs.Path.{IsName, dir_path, split_path-name, IsName-All}
use blockos.Ramfs.Reach.{
  IsPath, IsRooted, find_inode-words, words-IsCString, words-dir_path, words-name,
}
use blockos.Ramfs.Hang.{hung}
use blockos.Ramfs.Find.{walk-InRange, walk-append, walk-hung, walk-new, child_named-none}

-- What `ramfs_create_file` and `ramfs_create_dir` do where they give an inode.
abbrev IsCreated : Ramfs → Ramfs → ℕ → Inode → ℕ → Type 0
IsCreated fs fs' p new i =
    (i ≡ length fs.nodes)
    × (fs'.root ≡ fs.root)
    × (fs'.nodes ≡ add_child (fs.nodes ++ new ∷ []) p (length fs.nodes))

-- Counting changes neither the inodes nor the root.
abbrev pub Counts : (Ramfs → Ramfs) → Type 0
Counts count = (g : Ramfs) → ((count g).nodes ≡ g.nodes) × ((count g).root ≡ g.root)

hang-IsCreated :
    (fs fs' : Ramfs) (m : Option ℕ × ℕ) (name : List ℕ) (type permissions p i : ℕ)
    (count : Ramfs → Ramfs)
    → Counts count
    → hang (alloc_at fs m name type permissions) p count ≡ (fs', some i)
    → IsCreated fs fs' p (new_inode fs.next_inode_id name type permissions) i
unfolding hang alloc_at
hang-IsCreated fs fs' (none, next) name type permissions p i count c e =
    absurd (let q : none ≡ some i = ap (λ x. x.1) e in cc)
hang-IsCreated fs fs' (some a, next) name type permissions p i count c e =
    let q : some (length fs.nodes) ≡ some i = ap (λ x. x.1) e in
    (cc, sym (ap (λ x. x.0.root) e) ∙ (c _).1, sym (ap (λ x. x.0.nodes) e) ∙ (c _).0)

create_in-IsCreated :
    (fs fs' : Ramfs) (o : Option ℕ) (name : List ℕ) (type permissions i : ℕ) (count : Ramfs → Ramfs)
    → Counts count
    → create_in fs o name type permissions count ≡ (fs', some i)
    → (p : ℕ) × (o ≡ some p)
      × IsCreated fs fs' p (new_inode fs.next_inode_id name type permissions) i
unfolding create_in
create_in-IsCreated fs fs' none name type permissions i count c e =
    absurd (let q : none ≡ some i = ap (λ x. x.1) e in cc)
create_in-IsCreated fs fs' (some p) name type permissions i count c e =
    elim (Bool-cases (is_dir fs p)) [
      | inl y ↦ (
        p,
        refl,
        hang-IsCreated fs fs' (malloc fs.heap_ptr inode_bytes) name type permissions p i count c
            (sym (if_true _ _ _ y) ∙ e),
      )
      | inr n ↦ absurd (let q : none ≡ some i = ap (λ x. x.1) (sym (if_false _ _ _ n) ∙ e) in cc)
    ]

-- From a call that gave an inode, for a name that was not in its directory.
module _ (fs fs' : Ramfs) (dir name : List ℕ) (r p i : ℕ) (new : Inode) (rooted : IsRooted fs r)
    (named : IsName name) (called : new.name ≡ name) (path : IsPath (dir ++ b'/' ∷ name))
    (parent_path : IsPath (dir_path dir)) (c_string : IsCString name)
    (gone : ramfs_find fs (dir ++ b'/' ∷ name) ≡ none)
    (parent : find_inode fs (dir_path dir) ≡ some p) (created : IsCreated fs fs' p new i) where
  reached : walk fs.nodes r (words slash dir) ≡ some p
  reached =
      ap (walk fs.nodes r) (sym (words-dir_path dir))
      ∙ sym (find_inode-words fs r (dir_path dir) rooted.0 parent_path)
      ∙ parent

  old : p < length fs.nodes
  old = walk-InRange fs.nodes r p (words slash dir) rooted.2 rooted.1 reached

  fresh : child_named fs.nodes (inode fs.nodes p).children new.name ≡ none
  unfolding ramfs_find
  fresh = child_named-none fs.nodes p new.name (
      ap (λ t. walk fs.nodes p (t ∷ [])) called
      ∙ sym (walk-append fs.nodes r p (words slash dir) (name ∷ []) reached)
      ∙ ap (walk fs.nodes r) (sym (words-name dir name named))
      ∙ sym (find_inode-words fs r (dir ++ b'/' ∷ name) rooted.0 path)
      ∙ gone)

  named_c : IsCString new.name
  named_c = subst IsCString (sym called) c_string

  find_after :
      (q : List ℕ) → IsPath q → find_inode fs' q ≡ walk (hung fs.nodes new p old) r (words slash q)
  find_after q s =
      find_inode-words fs' r q (created.1 ∙ rooted.0) s
      ∙ ap (λ ns. walk ns r (words slash q)) created.2

  found_new : ramfs_find fs' (dir ++ b'/' ∷ name) ≡ some i
  unfolding ramfs_find
  found_new =
      find_after (dir ++ b'/' ∷ name) path
      ∙ ap (walk (hung fs.nodes new p old) r)
          (words-name dir name named ∙ ap (λ t. words slash dir ++ t ∷ []) (sym called))
      ∙ walk-new fs.nodes new p old rooted.2 named_c fresh r (words slash dir) rooted.1
          (subst (All IsCString) (words-dir_path dir)
            (words-IsCString (dir_path dir) parent_path.0))
          reached
      ∙ ap some (sym created.0)

  found_old : (q : List ℕ) (j : ℕ) → IsPath q → ramfs_find fs q ≡ some j → ramfs_find fs' q ≡ some j
  unfolding ramfs_find
  found_old q j s e =
      find_after q s
      ∙ walk-hung fs.nodes new p old rooted.2 named_c fresh r j (words slash q) rooted.1
          (words-IsCString q s.0) (sym (find_inode-words fs r q rooted.0 s) ∙ e)

IsCString-path :
    (dir name : List ℕ) → IsCString dir → IsCString name → IsCString (dir ++ b'/' ∷ name)
IsCString-path [] name d n = (omega arith, n)
IsCString-path (c ∷ dir) name d n = (d.0, IsCString-path dir name d.1 n)

IsPath-dir_path :
    (dir name : List ℕ) → IsCString dir → length dir + length name ≤ 1021 → IsPath (dir_path dir)
IsPath-dir_path [] name d h = ((omega arith, tt), omega arith)
IsPath-dir_path (c ∷ dir) name d h = (d, omega (arith, h))

create_in-parent :
    (fs fs' : Ramfs) (dir name : List ℕ) (r i type permissions : ℕ) (count : Ramfs → Ramfs)
    → IsRooted fs r
    → IsName name
    → IsCString dir
    → IsCString name
    → length name ≤ 255
    → length dir + length name ≤ 1021
    → ramfs_find fs (dir ++ b'/' ∷ name) ≡ none
    → Counts count
    → create_in fs (find_inode fs (dir_path dir)) name type permissions count ≡ (fs', some i)
    → (ramfs_find fs' (dir ++ b'/' ∷ name) ≡ some i)
      × ((q : List ℕ) (j : ℕ) → IsPath q → ramfs_find fs q ≡ some j → ramfs_find fs' q ≡ some j)
unfolding new_inode strncpy
create_in-parent fs fs' dir name r i type permissions count rooted named d n short long gone c e =
    let (p, found, made) =
      create_in-IsCreated fs fs' (find_inode fs (dir_path dir)) name type permissions i count c e in
    let new = new_inode fs.next_inode_id name type permissions in
    let called : new.name ≡ name = take-of_length_le 255 name short in
    let path : IsPath (dir ++ b'/' ∷ name) =
      (IsCString-path dir name d n, omega (arith, length-append dir (b'/' ∷ name), long)) in
    let parent_path = IsPath-dir_path dir name d long in
    (
      found_new fs fs' dir name r p i new rooted named called path parent_path n gone found made,
      found_old fs fs' dir name r p i new rooted named called path parent_path n gone found made,
    )

-- Where a path of a directory, a slash and a name leads nowhere, and `ramfs_create_file` or
-- `ramfs_create_dir` makes an inode for it, then the path leads to that inode, and every path that led
-- to an inode still leads to the same one. All paths are C strings that fit the buffers, the name has
-- at least one byte and at most 255, and no slash, and the root and all children are in memory.
pub ramfs_find-ramfs_create_file :
    (fs fs' : Ramfs) (dir name : List ℕ) (r i permissions : ℕ)
    → IsRooted fs r
    → IsName name
    → IsCString dir
    → IsCString name
    → length name ≤ 255
    → length dir + length name ≤ 1021
    → ramfs_find fs (dir ++ b'/' ∷ name) ≡ none
    → (ramfs_create_file fs (dir ++ b'/' ∷ name) permissions ≡ (fs', some i))
      ⊎ (ramfs_create_dir fs (dir ++ b'/' ∷ name) permissions ≡ (fs', some i))
    → (ramfs_find fs' (dir ++ b'/' ∷ name) ≡ some i)
      × ((q : List ℕ) (j : ℕ) → IsPath q → ramfs_find fs q ≡ some j → ramfs_find fs' q ≡ some j)
unfolding ramfs_create_file ramfs_create_dir
ramfs_find-ramfs_create_file fs fs' dir name r i permissions rooted named d n short long gone
      (inl e) =
    create_in-parent fs fs' dir name r i type_file permissions count_file rooted named d n short
      long gone (λ g. (refl, refl))
      (sym (
          ap (λ s. create_in fs (find_inode fs s.0) s.1 type_file permissions count_file)
            (split_path-name dir name (IsName-All name named)))
        ∙ e)
ramfs_find-ramfs_create_file fs fs' dir name r i permissions rooted named d n short long gone
      (inr e) =
    create_in-parent fs fs' dir name r i type_dir permissions count_dir rooted named d n short long
      gone (λ g. (refl, refl))
      (sym (
          ap (λ s. create_in fs (find_inode fs s.0) s.1 type_dir permissions count_dir)
            (split_path-name dir name (IsName-All name named)))
        ∙ e)
