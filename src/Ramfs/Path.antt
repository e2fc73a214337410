-- ===== src/Ramfs/Path.antt =====
-- Paths of fs/ramfs.c: how `split_path` and the tokens of `find_inode` take one apart.
use blockos.Prelude.{
  ℕ, zero, suc, ◌+◌, ◌≡◌, refl, ap, ◌∙◌, true, false, List, [], ◌∷◌, ◌++◌, some, arith, ◌==◌,
  length, get_or, get_or-append, take-length_append, drop-length_append_suc, if_true, if_false,
  length-append,
}
use mathlib.Core.Path.{ap₂}
use blockos.Slots.Laws.{All}
use blockos.Strings.{strchr}
use blockos.Strings.Tokens.{is_delim}
use blockos.Strings.Words.{IsWord}
use blockos.Ramfs.{slash, last_slash, split_at, split_path}

-- A name: at least one byte, and no slash.
abbrev pub IsName : List ℕ → Type 0
IsName [] = ⊥
IsName (c ∷ name) = All (λ b. (b == b'/') ≡ false) (c ∷ name)

-- The path of the directory that `split_path` looks for, from what stands before the last slash.
abbrev pub dir_path : List ℕ → List ℕ
dir_path [] = slash
dir_path (c ∷ dir) = c ∷ dir

is_delim-slash : (c : ℕ) → is_delim slash c ≡ (c == b'/')
unfolding strchr
is_delim-slash c = ground arith

pub IsName-All : (name : List ℕ) → IsName name → All (λ b. (b == b'/') ≡ false) name
IsName-All [] n = absurd n
IsName-All (c ∷ name) n = n

pub IsName-IsWord : (name : List ℕ) → All (λ b. (b == b'/') ≡ false) name → IsWord slash name
IsName-IsWord [] a = tt
IsName-IsWord (c ∷ name) a = (is_delim-slash c ∙ a.0, IsName-IsWord name a.1)

get_or-name :
    (name : List ℕ) (k : ℕ)
    → All (λ b. (b == b'/') ≡ false) name
    → (get_or name k 0 == b'/') ≡ false
get_or-name [] k a = refl
get_or-name (c ∷ name) zero a = a.0
get_or-name (c ∷ name) (suc k) a = get_or-name name k a.1

-- Coming from the end, the first slash is the one before the name.
last_slash-name :
    (dir name : List ℕ) (k : ℕ)
    → All (λ b. (b == b'/') ≡ false) name
    → last_slash (suc (length dir + k)) (dir ++ b'/' ∷ name) ≡ some (length dir)
unfolding last_slash
last_slash-name dir name zero a =
    let e : length dir + 0 ≡ length dir = omega arith in
    let here : (get_or (dir ++ b'/' ∷ name) (length dir + 0) 0 == b'/') ≡ true =
      ap (λ c. c == b'/') (get_or-append dir (b'/' ∷ name) 0 0) in
    rw (if_true _ _ _ here) (ap some e)
last_slash-name dir name (suc k) a =
    let e : length dir + suc k ≡ suc (length dir + k) = omega arith in
    let past : (get_or (dir ++ b'/' ∷ name) (length dir + suc k) 0 == b'/') ≡ false =
      ap (λ c. c == b'/') (get_or-append dir (b'/' ∷ name) (suc k) 0) ∙ get_or-name name k a in
    rw (if_false _ _ _ past)
      (ap (λ n. last_slash n (dir ++ b'/' ∷ name)) e ∙ last_slash-name dir name k a)

split_at-name :
    (dir name : List ℕ) → split_at (some (length dir)) (dir ++ b'/' ∷ name) ≡ (dir_path dir, name)
unfolding split_at
split_at-name [] name = refl
split_at-name (c ∷ dir) name =
    ap₂ (λ t n. (t, n)) (take-length_append (c ∷ dir) (b'/' ∷ name))
      (drop-length_append_suc dir name b'/')

-- A path is split at its last slash.
pub split_path-name :
    (dir name : List ℕ)
    → All (λ b. (b == b'/') ≡ false) name
    → split_path (dir ++ b'/' ∷ name) ≡ (dir_path dir, name)
unfolding split_path
split_path-name dir name a =
    let e : length (dir ++ b'/' ∷ name) ≡ suc (length dir + length name) =
      omega (arith, length-append dir (b'/' ∷ name)) in
    rw e (
      ap (λ o. split_at o (dir ++ b'/' ∷ name)) (last_slash-name dir name (length name) a)
      ∙ split_at-name dir name)
