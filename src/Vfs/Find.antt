-- ===== src/Vfs/Find.antt =====
-- `vfs_find_mount` of vfs.c: which mount point it finds.
use blockos.Prelude.{
  ℕ, suc, ◌≤◌, ◌≡◌, sym, inl, inr, ◌⊎◌, ◌↔◌, Bool, true, false, ◌&&◌, List, [], ◌∷◌, ◌++◌, Option,
  none, some, arith, if◌then◌else◌, ltb, length, Bool-cases, Option-cases, subst,
}
use blockos.Slots.Laws.{All}
use blockos.Strings.{strncmp, is_zero}
use blockos.Strings.Compare.{IsCString, strncmp_prefix_iff}
use blockos.Vfs.{Vfs, Mount, fits, longer, find_from, vfs_find_mount}

-- The mount is active, and the path starts with its mount point.
abbrev pub Covers : List ℕ → Mount → Type 0
Covers path m = (m.active ≡ true) × ((rest : List ℕ) × (path ≡ m.path ++ rest))

abbrev pub In : Mount → List Mount → Type 0
In b [] = ⊥
In b (m ∷ mounts) = (m ≡ b) ⊎ In b mounts

-- No mount covers the path, or the result is one that does, and none that does is longer.
abbrev pub IsLongest : List ℕ → List Mount → Option Mount → Type 0
IsLongest path mounts none = All (λ m. ¬ Covers path m) mounts
IsLongest path mounts (some b) =
    Covers path b
    × In b mounts
    × All (λ m. (¬ Covers path m) ⊎ (length m.path ≤ length b.path)) mounts

-- best_len + 1
abbrev len : Option Mount → ℕ
len none = 0
len (some b) = suc (length b.path)

fits_iff :
    (path : List ℕ) (m : Mount)
    → IsCString path
    → IsCString m.path
    → (fits path m ≡ true) ↔ Covers path m
fits_iff path m hp hm = (forth, back)
  where
    prefix :
        (is_zero (strncmp path m.path (length m.path)) ≡ true)
        ↔ ((rest : List ℕ) × (path ≡ m.path ++ rest))
    prefix = strncmp_prefix_iff path m.path hp hm

    forth : fits path m ≡ true → Covers path m
    forth e = elim (Bool-cases m.active) [
      | inl on ↦ (on, prefix.0 (rw on at e))
      | inr off ↦ absurd (cc (rw off at e))
    ]

    back : Covers path m → fits path m ≡ true
    back (on, rest) = rw on (prefix.1 rest)

longer-len :
    (m : Mount) (best : Option Mount) → longer m best ≡ ltb (len best) (suc (length m.path))
longer-len m none = ground arith
longer-len m (some b) = ground arith

-- One round of the loop.
abbrev better : List ℕ → Mount → Option Mount → Option Mount
better path m best = if fits path m && longer m best then some m else best

better-len :
    (path : List ℕ) (m : Mount) (best : Option Mount)
    → (len best ≤ len (better path m best))
      × (fits path m ≡ true → suc (length m.path) ≤ len (better path m best))
better-len path m best = elim (Bool-cases (fits path m && longer m best)) [
  | inl taken ↦ rw taken (ground (arith, longer-len m best), λ f. omega arith)
  | inr kept ↦ rw kept (omega arith, λ f. ground (arith, longer-len m best))
]

find_from-len :
    (path : List ℕ) (mounts : List Mount) (best : Option Mount)
    → (len best ≤ len (find_from path mounts best))
      × All
          (λ m. fits path m ≡ true → suc (length m.path) ≤ len (find_from path mounts best))
          mounts
unfolding find_from
find_from-len path [] best = (omega arith, tt)
find_from-len path (m ∷ mounts) best =
    let round = better-len path m best in
    let rest = find_from-len path mounts (better path m best) in
    (
      omega (arith, round.0, rest.0),
      (λ f. let here = round.1 f in omega (arith, here, rest.0), rest.1),
    )

-- The result is the best so far, or one of the mounts.
find_from_source :
    (path : List ℕ) (mounts : List Mount) (best : Option Mount) (b : Mount)
    → find_from path mounts best ≡ some b
    → (best ≡ some b) ⊎ (In b mounts × (fits path b ≡ true))
unfolding find_from
find_from_source path [] best b e = inl e
find_from_source path (m ∷ mounts) best b e =
    elim (find_from_source path mounts (better path m best) b e) [
      | inr (later, f) ↦ inr (inr later, f)
      | inl here ↦ elim (Bool-cases (fits path m && longer m best)) [
        | inl taken ↦
            let same : m ≡ b = ground (arith, rw taken at here) in
            inr (inl same, rw (sym same) (ground arith))
        | inr kept ↦ inl (rw kept at here)
      ]
    ]

All-imp :
    (P Q R : Mount → Type 0) (mounts : List Mount)
    → All P mounts
    → All Q mounts
    → ((m : Mount) → P m → Q m → R m)
    → All R mounts
All-imp P Q R [] p q h = tt
All-imp P Q R (m ∷ mounts) p q h = (h m p.0 q.0, All-imp P Q R mounts p.1 q.1 h)

In-All : (P : Mount → Type 0) (b : Mount) (mounts : List Mount) → In b mounts → All P mounts → P b
In-All P b [] i p = absurd i
In-All P b (m ∷ mounts) (inl e) p = subst P e p.0
In-All P b (m ∷ mounts) (inr i) p = In-All P b mounts i p.1

-- For paths that are C strings, `vfs_find_mount` answers NULL only where no active mount point starts
-- the path, and otherwise an active one that starts it and is as long as any other that does.
pub vfs_find_mount-IsLongest :
    (vfs : Vfs) (path : List ℕ)
    → IsCString path
    → All (λ m. IsCString m.path) vfs.mounts
    → IsLongest path vfs.mounts (vfs_find_mount vfs path)
unfolding vfs_find_mount
vfs_find_mount-IsLongest vfs path hp hm = elim (Option-cases (find_from path vfs.mounts none)) [
  | inl e ↦ rw e (
      All-imp _ _ _ vfs.mounts hm (rw e at bound)
        (λ m text top covers. omega (arith, top ((fits_iff path m hp text).1 covers))))
  | inr (b, e) ↦
      let (inside, f) = source b e in
      let text : IsCString b.path = In-All (λ m. IsCString m.path) b vfs.mounts inside hm in
      rw e (
        (fits_iff path b hp text).0 f,
        inside,
        All-imp _ _ _ vfs.mounts hm (rw e at bound) (λ m text' top.
            elim (Bool-cases (fits path m)) [
              | inl f ↦ inr (omega (arith, top f))
              | inr off ↦
                  inl (λ covers.
                    absurd (apart (fits path m) off ((fits_iff path m hp text').1 covers)))
            ]),
      )
]
  where
    apart : (c : Bool) → c ≡ false → c ≡ true → ⊥
    apart c off f = ground arith

    none_some : (b : Mount) → ¬ (none ≡ some b)
    none_some b e = ground arith

    bound :
        All
          (λ m. fits path m ≡ true → suc (length m.path) ≤ len (find_from path vfs.mounts none))
          vfs.mounts
    bound = (find_from-len path vfs.mounts none).1

    source :
        (b : Mount)
        → find_from path vfs.mounts none ≡ some b
        → In b vfs.mounts × (fits path b ≡ true)
    source b e = elim (find_from_source path vfs.mounts none b e) [
      | inl before ↦ absurd (none_some b before)
      | inr after ↦ after
    ]
