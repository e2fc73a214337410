-- ===== src/Vfs/Count.antt =====
-- `mount_count` of vfs.c, over any calls of `vfs_mount` and `vfs_umount`.
use blockos.Prelude.{
  ℕ, suc, ◌≤◌, ◌≡◌, refl, ap, ◌∙◌, inl, inr, Bool, true, false, ◌&&◌, List, [], ◌∷◌, Option, none,
  some, arith, ltb, length, modify, Bool-cases, Option-cases, modify-eq-set, length-modify, subst,
}
use blockos.Strings.{strcmp, is_zero}
use blockos.Slots.{
  first_free, count_active, AllActive, first_free-inactive, first_free-none, count_active-set,
  count_active-le,
}
use blockos.Vfs.{Vfs, Mount, max_mounts, vfs_init, vfs_mount, vfs_umount, umounted, mounted}

pub data Call : Type 0 where
  mounts_at : List ℕ → ℕ → ℕ → Call
  umounts : List ℕ → Call

unfoldable pub after : Vfs → List Call → Vfs
after vfs [] = vfs
after vfs (mounts_at path fs_type fs_data ∷ cs) = after (vfs_mount vfs path fs_type fs_data).0 cs
after vfs (umounts path ∷ cs) = after (vfs_umount vfs path).0 cs

abbrev pub on : Mount → Bool
on m = m.active

-- The counter is the number of active mounts.
pub record IsCounted (vfs : Vfs) : Type 0 where
  pub size : length vfs.mounts ≡ max_mounts
  pub counted : vfs.mount_count ≡ count_active on vfs.mounts

count_active_all :
    (mounts : List Mount) → AllActive on mounts → count_active on mounts ≡ length mounts
unfolding count_active
count_active_all [] a = refl
count_active_all (m ∷ mounts) a = rw (a.0) (omega (arith, count_active_all mounts a.1))

active_of : (a b : Bool) → (a && b) ≡ true → a ≡ true
active_of a b e = ground arith

umounted_count :
    (path : List ℕ) (mounts rest : List Mount)
    → umounted path mounts ≡ some rest
    → (length rest ≡ length mounts) × (suc (count_active on rest) ≡ count_active on mounts)
unfolding umounted count_active
umounted_count path [] rest e = ground arith
umounted_count path (m ∷ mounts) rest e =
    elim (Bool-cases (m.active && is_zero (strcmp m.path path))) [
      | inl here ↦ same_tail here (rw here at e)
      | inr later ↦ elim (Option-cases (umounted path mounts)) [
        | inl nowhere ↦ absurd (none_some (rw (later, nowhere) at e))
        | inr (tail, found) ↦
            grown tail (rw (later, found) at e) (umounted_count path mounts tail found)
      ]
    ]
  where
    none_some : {r : List Mount} → ¬ (◌≡◌ {A = Option (List Mount)} none (some r))
    none_some p = ground arith

    same_tail :
        (m.active && is_zero (strcmp m.path path)) ≡ true
        → some (record m { active = false } ∷ mounts) ≡ some rest
        → (length rest ≡ length (m ∷ mounts))
          × (suc (count_active on rest) ≡ count_active on (m ∷ mounts))
    same_tail h p =
        let q : record m { active = false } ∷ mounts ≡ rest = cc in
        let was_on : m.active ≡ true = active_of m.active (is_zero (strcmp m.path path)) h in
        subst
          (λ r.
            (length r ≡ length (m ∷ mounts))
            × (suc (count_active on r) ≡ count_active on (m ∷ mounts)))
          q (refl, rw was_on (omega arith))

    grown :
        (tail : List Mount)
        → some (m ∷ tail) ≡ some rest
        → (length tail ≡ length mounts) × (suc (count_active on tail) ≡ count_active on mounts)
        → (length rest ≡ length (m ∷ mounts))
          × (suc (count_active on rest) ≡ count_active on (m ∷ mounts))
    grown tail p ih =
        let q : m ∷ tail ≡ rest = cc in
        subst
          (λ r.
            (length r ≡ length (m ∷ mounts))
            × (suc (count_active on r) ≡ count_active on (m ∷ mounts)))
          q (omega (arith, ih.0), omega (arith, ih.1))

mount_count-some :
    (vfs : Vfs) (i : ℕ) (path : List ℕ) (fs_type fs_data : ℕ)
    → first_free on vfs.mounts ≡ some i
    → count_active on (modify vfs.mounts i (λ m. mounted path fs_type fs_data))
      ≡ suc (count_active on vfs.mounts)
mount_count-some vfs i path fs_type fs_data e =
    let (a, g, off) = first_free-inactive on vfs.mounts i e in
    let next : Mount = mounted path fs_type fs_data in
    rw (modify-eq-set vfs.mounts i (λ m. next) g)
      (ground (arith, count_active-set on vfs.mounts i next g))

vfs_mount-IsCounted :
    (vfs : Vfs) (path : List ℕ) (fs_type fs_data : ℕ)
    → IsCounted vfs
    → IsCounted (vfs_mount vfs path fs_type fs_data).0
      × ((vfs_mount vfs path fs_type fs_data).1 ≡ ltb vfs.mount_count max_mounts)
unfolding vfs_mount
vfs_mount-IsCounted vfs path fs_type fs_data v = elim (Option-cases (first_free on vfs.mounts)) [
  | inl full ↦
      let all = count_active_all vfs.mounts (first_free-none on vfs.mounts full) in
      rw full (v, ground (arith, all, v.size, v.counted))
  | inr (i, free) ↦
      let more = mount_count-some vfs i path fs_type fs_data free in
      let long : length (modify vfs.mounts i (λ m. mounted path fs_type fs_data)) ≡ max_mounts =
        length-modify vfs.mounts i (λ m. mounted path fs_type fs_data) ∙ v.size in
      let small : suc (count_active on vfs.mounts) ≤ max_mounts = omega (
        arith,
        count_active-le on (modify vfs.mounts i (λ m. mounted path fs_type fs_data)),
        more,
        long,
      ) in
      rw free (
        record { size = long; counted = omega (arith, v.counted, more, small) },
        ground (arith, v.counted, small),
      )
]

vfs_umount-IsCounted :
    (vfs : Vfs) (path : List ℕ) → IsCounted vfs → IsCounted (vfs_umount vfs path).0
unfolding vfs_umount
vfs_umount-IsCounted vfs path v = elim (Option-cases (umounted path vfs.mounts)) [
  | inl nowhere ↦ rw (vfs_umount, nowhere) v
  | inr (rest, found) ↦
      let (long, less) = umounted_count path vfs.mounts rest found in
      let bound = count_active-le on vfs.mounts in
      rw (vfs_umount, found)
        (record { size = long ∙ v.size; counted = omega (arith, v.counted, less, bound, v.size) })
]

after-IsCounted : (vfs : Vfs) (cs : List Call) → IsCounted vfs → IsCounted (after vfs cs)
unfolding after
after-IsCounted vfs [] v = v
after-IsCounted vfs (mounts_at path fs_type fs_data ∷ cs) v =
    after-IsCounted (vfs_mount vfs path fs_type fs_data).0 cs
      (vfs_mount-IsCounted vfs path fs_type fs_data v).0
after-IsCounted vfs (umounts path ∷ cs) v =
    after-IsCounted (vfs_umount vfs path).0 cs (vfs_umount-IsCounted vfs path v)

vfs_init-IsCounted : IsCounted vfs_init
unfolding vfs_init count_active
vfs_init-IsCounted = record { size = refl; counted = refl }

-- After `vfs_init` and any calls of `vfs_mount` and `vfs_umount`, `mount_count` is the number of
-- active mounts, and the next `vfs_mount` succeeds exactly if there are fewer than sixteen.
pub mount_count-after :
    (cs : List Call) (path : List ℕ) (fs_type fs_data : ℕ)
    → ((after vfs_init cs).mount_count ≡ count_active on (after vfs_init cs).mounts)
      × ((vfs_mount (after vfs_init cs) path fs_type fs_data).1
          ≡ ltb (count_active on (after vfs_init cs).mounts) max_mounts)
mount_count-after cs path fs_type fs_data =
    let v = after-IsCounted vfs_init cs vfs_init-IsCounted in
    (
      v.counted,
      (vfs_mount-IsCounted (after vfs_init cs) path fs_type fs_data v).1
          ∙ ap (λ n. ltb n max_mounts) v.counted,
    )
