-- ===== src/Ramfs/Sound.antt =====
-- The calls of fs/ramfs.c on the tree keep its root and its chains sound.
use blockos.Prelude.{
  ℕ, ◌+◌, ◌-◌, ◌<◌, ◌≡◌, refl, ap, ◌∙◌, sym, inl, inr, Bool, true, false, List, [], ◌∷◌, ◌++◌,
  Option, none, some, arith, if◌then◌else◌, length, set, subst, Bool-cases, if_true, if_false,
  get_or-append,
}
use blockos.Heap.{malloc}
use blockos.Strings.{is_zero, strcmp, strncpy}
use blockos.Strings.Tokens.{all_tokens}
use blockos.Ramfs.{
  Ramfs, Inode, inode, no_inode, inode_bytes, type_file, type_dir, type_symlink, max_path, slash,
  new_inode, walk_from, find_inode, split_path, add_child,
}
use blockos.Ramfs.Ops.{
  alloc_at, hang, is_dir, count_file, count_dir, create_in, link_at, symlink_in, delete_from,
  delete_at, unlink_from, ramfs_create_file, ramfs_create_dir, ramfs_create_symlink,
}
use blockos.Ramfs.Hang.{hung, length-hung}
use blockos.Ramfs.Find.{walk-InRange}
use blockos.Ramfs.Tree.{
  SameLinks, IsTree, IsTree-same, IsTree-InRange, hung-IsTree, parent-hung, parent_of,
}
use blockos.Ramfs.Unlink.{IsSound, delete_from-nodes, unlink-IsTree, length-without, parent-without}
use blockos.Ramfs.Create.{Counts}

pub IsSound-same :
    (fs fs' : Ramfs) (r : ℕ)
    → fs'.root ≡ fs.root
    → SameLinks fs.nodes fs'.nodes
    → IsSound fs r
    → IsSound fs' r
IsSound-same fs fs' r e s h =
    (e ∙ h.0, subst (λ n. r < n) s.0 h.1, sym (s.2 r) ∙ h.2, IsTree-same fs.nodes fs'.nodes s h.3)

IsSound-hung :
    (fs fs' : Ramfs) (r p : ℕ) (new : Inode) (old : p < length fs.nodes)
    → new.children ≡ []
    → fs'.root ≡ fs.root
    → fs'.nodes ≡ hung fs.nodes new p old
    → IsSound fs r
    → IsSound fs' r
IsSound-hung fs fs' r p new old bare e n h = (
  e ∙ h.0,
  subst (λ ns. r < length ns) (sym n) (omega (arith, length-hung fs.nodes new p old, h.1)),
  ap (λ ns. parent_of ns r) n ∙ sym (parent-hung fs.nodes new p old bare h.3 r h.1) ∙ h.2,
  subst IsTree (sym n) (hung-IsTree fs.nodes new p old bare h.3),
)

pub IsSound-if {ℓ} :
    {A : Type ℓ} (fs_of : A → Ramfs) (b : Bool) (x y : A) (r : ℕ)
    → IsSound (fs_of x) r
    → IsSound (fs_of y) r
    → IsSound (fs_of (if b then x else y)) r
IsSound-if fs_of true x y r hx hy = hx
IsSound-if fs_of false x y r hx hy = hy

-- A path leads to an inode of the list.
find_inode-lt :
    (fs : Ramfs) (r p : ℕ) (path : List ℕ)
    → IsSound fs r
    → find_inode fs path ≡ some p
    → p < length fs.nodes
unfolding find_inode walk_from
find_inode-lt fs r p path h e = elim (Bool-cases (is_zero (strcmp path slash))) [
  | inl y ↦
      let at : some r ≡ some p = sym h.0 ∙ sym (if_true _ _ _ y) ∙ e in
      let rp : r ≡ p = cc in subst (λ k. k < length fs.nodes) rp h.1
  | inr n ↦
      let ts = all_tokens (length path) slash (strncpy path (max_path - 1)) in
      walk-InRange fs.nodes r p ts (IsTree-InRange fs.nodes h.3) h.1
        (sym (ap (λ o. walk_from fs.nodes o ts) h.0) ∙ sym (if_false _ _ _ n) ∙ e)
]

pub hang-IsSound :
    (fs : Ramfs) (r p : ℕ) (m : Option ℕ × ℕ) (name : List ℕ) (type permissions : ℕ)
    (count : Ramfs → Ramfs)
    → Counts count
    → p < length fs.nodes
    → IsSound fs r
    → IsSound (hang (alloc_at fs m name type permissions) p count).0 r
unfolding hang alloc_at new_inode
hang-IsSound fs r p (none, next) name type permissions count c old h = h
hang-IsSound fs r p (some a, next) name type permissions count c old h =
    let made = (alloc_at fs (some a, next) name type permissions).0 in
    let g : Ramfs = record made { nodes = add_child made.nodes p (length fs.nodes) } in
    IsSound-hung fs (count g) r p (new_inode fs.next_inode_id name type permissions) old refl
      (c g).1 (c g).0 h

create_in-IsSound :
    (fs : Ramfs) (r : ℕ) (o : Option ℕ) (name : List ℕ) (type permissions : ℕ)
    (count : Ramfs → Ramfs)
    → Counts count
    → ((p : ℕ) → o ≡ some p → p < length fs.nodes)
    → IsSound fs r
    → IsSound (create_in fs o name type permissions count).0 r
unfolding create_in
create_in-IsSound fs r none name type permissions count c old h = h
create_in-IsSound fs r (some p) name type permissions count c old h =
    IsSound-if (λ (x : Ramfs × Option ℕ). x.0) (is_dir fs p) _ (fs, none) r
      (hang-IsSound fs r p (malloc fs.heap_ptr inode_bytes) name type permissions count c
        (old p refl) h)
      h

pub create_file-IsSound :
    (fs : Ramfs) (r : ℕ) (path : List ℕ) (permissions : ℕ)
    → IsSound fs r
    → IsSound (ramfs_create_file fs path permissions).0 r
unfolding ramfs_create_file
create_file-IsSound fs r path permissions h =
    let s = split_path path in
    create_in-IsSound fs r (find_inode fs s.0) s.1 type_file permissions count_file
      (λ g. (refl, refl)) (λ p. find_inode-lt fs r p s.0 h) h

pub create_dir-IsSound :
    (fs : Ramfs) (r : ℕ) (path : List ℕ) (permissions : ℕ)
    → IsSound fs r
    → IsSound (ramfs_create_dir fs path permissions).0 r
unfolding ramfs_create_dir
create_dir-IsSound fs r path permissions h =
    let s = split_path path in
    create_in-IsSound fs r (find_inode fs s.0) s.1 type_dir permissions count_dir
      (λ g. (refl, refl)) (λ p. find_inode-lt fs r p s.0 h) h

-- A link's target is written before the link is hung.
set-last :
    (nodes : List Inode) (a b : Inode) → set (nodes ++ a ∷ []) (length nodes) b ≡ nodes ++ b ∷ []
set-last [] a b = refl
set-last (x ∷ nodes) a b = ap (◌∷◌ x) (set-last nodes a b)

link_at-IsSound :
    (fs : Ramfs) (r p : ℕ) (m : Option ℕ × ℕ) (name target : List ℕ)
    → p < length fs.nodes
    → IsSound fs r
    → IsSound (link_at (alloc_at fs m name type_symlink 511) p target).0 r
unfolding link_at hang alloc_at new_inode
link_at-IsSound fs r p (none, next) name target old h = h
link_at-IsSound fs r p (some a, next) name target old h =
    let made = (alloc_at fs (some a, next) name type_symlink 511).0 in
    let new = new_inode fs.next_inode_id name type_symlink 511 in
    let link : Inode = record (inode made.nodes (length fs.nodes)) {
      symlink_target = strncpy target (max_path - 1);
    } in
    let written = set made.nodes (length fs.nodes) link in
    let g : Ramfs = record made { nodes = add_child written p (length fs.nodes) } in
    let e : length fs.nodes ≡ length fs.nodes + 0 = omega arith in
    let bare : link.children ≡ [] =
      ap (λ k. (inode made.nodes k).children) e
      ∙ ap (λ (n : Inode). n.children) (get_or-append fs.nodes (new ∷ []) 0 no_inode) in
    IsSound-hung fs g r p link old bare refl
      (ap (λ ns. add_child ns p (length fs.nodes)) (set-last fs.nodes new link)) h

symlink_in-IsSound :
    (fs : Ramfs) (r : ℕ) (o : Option ℕ) (name target : List ℕ)
    → ((p : ℕ) → o ≡ some p → p < length fs.nodes)
    → IsSound fs r
    → IsSound (symlink_in fs o name target).0 r
unfolding symlink_in
symlink_in-IsSound fs r none name target old h = h
symlink_in-IsSound fs r (some p) name target old h =
    link_at-IsSound fs r p (malloc fs.heap_ptr inode_bytes) name target (old p refl) h

pub create_symlink-IsSound :
    (fs : Ramfs) (r : ℕ) (path target : List ℕ)
    → IsSound fs r
    → IsSound (ramfs_create_symlink fs path target).0 r
unfolding ramfs_create_symlink
create_symlink-IsSound fs r path target h =
    let s = split_path path in
    symlink_in-IsSound fs r (find_inode fs s.0) s.1 target (λ p. find_inode-lt fs r p s.0 h) h

delete_from-IsSound :
    (fs : Ramfs) (r node : ℕ) (o : Option ℕ) → IsSound fs r → IsSound (delete_from fs node o).0 r
unfolding delete_from unlink_from
delete_from-IsSound fs r node none h = h
delete_from-IsSound fs r node (some p) h =
    let same = delete_from-nodes fs node p in
    let cut = unlink_from fs node p in
    (
      same.1 ∙ h.0,
      subst (λ ns. r < length ns) (sym same.0)
          (subst (λ n. r < n) (length-without fs.nodes node p h.3) h.1),
      ap (λ ns. parent_of ns r) same.0 ∙ sym (parent-without fs.nodes node p h.3 r) ∙ h.2,
      subst IsTree (sym same.0) (unlink-IsTree fs.nodes node p h.3),
    )

pub delete_at-IsSound :
    (fs : Ramfs) (r : ℕ) (o : Option ℕ) → IsSound fs r → IsSound (delete_at fs o).0 r
unfolding delete_at
delete_at-IsSound fs r none h = h
delete_at-IsSound fs r (some node) h = delete_from-IsSound fs r node (inode fs.nodes node).parent h
