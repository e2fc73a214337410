-- ===== src/Ramfs/Reach.antt =====
-- What a path of fs/ramfs.c reaches: `find_inode` as a walk along the words of the path.
use blockos.Prelude.{
  ℕ, ◌-◌, ◌≤◌, ◌<◌, ◌≡◌, refl, ap, ◌∙◌, sym, inl, inr, List, [], ◌∷◌, ◌++◌, some, arith, length,
  take-of_length_le, Bool-cases, if_true, if_false, subst,
}
use blockos.Slots.Laws.{All}
use blockos.Strings.{strcmp, strncpy, strchr, is_zero}
use blockos.Strings.Compare.{IsCString, strcmp_eq_iff}
use blockos.Strings.Tokens.{all_tokens, all_tokens-eq-words, words, split}
use blockos.Strings.Words.{words-append, all_tokens-All}
use blockos.Ramfs.{Ramfs, slash, max_path, walk, walk_from, find_inode}
use blockos.Ramfs.Path.{IsName, dir_path, IsName-IsWord}
use blockos.Ramfs.Find.{InRange}

-- A path that fits the buffers.
abbrev pub IsPath : List ℕ → Type 0
IsPath path = IsCString path × (length path ≤ 1022)

-- The root is there, and so are all children.
abbrev pub IsRooted : Ramfs → ℕ → Type 0
IsRooted fs r = (fs.root ≡ some r) × (r < length fs.nodes) × InRange fs.nodes

words-slash : words slash slash ≡ []
unfolding words split
words-slash = unfold strchr in refl

pub words-IsCString : (path : List ℕ) → IsCString path → All IsCString (words slash path)
words-IsCString path s =
    subst (All IsCString) (all_tokens-eq-words (length path) slash path (omega arith))
      (all_tokens-All _ slash (length path) path s)

-- `find_inode` walks along the words of the path.
pub find_inode-words :
    (fs : Ramfs) (r : ℕ) (path : List ℕ)
    → fs.root ≡ some r
    → IsPath path
    → find_inode fs path ≡ walk fs.nodes r (words slash path)
unfolding find_inode walk_from walk strncpy
find_inode-words fs r path root s = elim (Bool-cases (is_zero (strcmp path slash))) [
  | inl y ↦
      let same : path ≡ slash = (strcmp_eq_iff path slash s.0 (omega arith, tt)).0 y in
      if_true _ _ _ y ∙ root ∙ sym (ap (walk fs.nodes r) (ap (words slash) same ∙ words-slash))
  | inr n ↦
      if_false _ _ _ n
      ∙ ap
          (λ o. walk_from fs.nodes o (all_tokens (length path) slash (strncpy path (max_path - 1))))
          root
      ∙ ap (walk fs.nodes r) (
          ap (all_tokens (length path) slash) (take-of_length_le 1023 path (omega (arith, s.1)))
          ∙ all_tokens-eq-words (length path) slash path (omega arith))
]

pub words-dir_path : (dir : List ℕ) → words slash (dir_path dir) ≡ words slash dir
words-dir_path [] = words-slash ∙ (unfold words split in refl)
words-dir_path (c ∷ dir) = refl

pub words-name :
    (dir name : List ℕ)
    → IsName name
    → words slash (dir ++ b'/' ∷ name) ≡ words slash dir ++ name ∷ []
words-name dir [] n = absurd n
words-name dir (c ∷ name) n =
    words-append slash dir name b'/' c (unfold strchr in refl) (IsName-IsWord (c ∷ name) n)
