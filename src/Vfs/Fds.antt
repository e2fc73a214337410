-- ===== src/Vfs/Fds.antt =====
-- The file descriptors of vfs.c: what opening, closing and seeking do to the table.
use mathlib.Core.Option
use blockos.Prelude.{
  ℕ, suc, zero, ◌≡◌, refl, ap, ◌∙◌, inl, inr, Bool, true, false, List, [], ◌∷◌, map, some, ℤ, pos,
  negsuc, arith, if◌then◌else◌, is_some, set, get_elem?, Option-cases, modify-eq-set,
  get_elem?-set_self, lt_of_get, subst,
}
use blockos.Slots.{slot, slot_set, first_free, first_free-inactive}
use blockos.Slots.Laws.{map-set, get_elem?-map, map-modify_const}
use blockos.Vfs.{Vfs, Fd, vfs_find_mount, vfs_close, vfs_seek, vfs_tell}
use blockos.Vfs.Files.{FileSystems, vfs_open, open_at, opened, open_in, rel_path}

-- Which descriptors are open.
abbrev pub open_fds : Vfs → List Bool
open_fds vfs = map (λ d. d.active) vfs.fds

-- What a call of `vfs_open` does to the table, by its result.
abbrev pub IsOpened : Vfs → Vfs → ℕ → ℤ → Type 0
IsOpened vfs vfs' flags (negsuc n) = (n ≡ 0) × (open_fds vfs' ≡ open_fds vfs)
IsOpened vfs vfs' flags (pos i) =
    (first_free (λ d. d.active) vfs.fds ≡ some i)
    × (vfs'.fds ≡ set vfs.fds i (record { position = 0; flags = flags; active = true }))

set_flag : (flags : List Bool) (i : ℕ) → get_elem? flags i ≡ some false → set flags i false ≡ flags
set_flag [] i e = refl
set_flag (b ∷ flags) zero e = ground arith
set_flag (b ∷ flags) (suc i) e = ap (◌∷◌ b) (set_flag flags i e)

set-set : (bs : List Bool) (i : ℕ) (b c : Bool) → set (set bs i b) i c ≡ set bs i c
set-set [] i b c = refl
set-set (x ∷ bs) zero b c = refl
set-set (x ∷ bs) (suc i) b c = ap (◌∷◌ x) (set-set bs i b c)

slot-set_self :
    (fds : List Fd) (fd : ℤ) (d : Fd) {a : Fd}
    → slot fds fd ≡ some a
    → slot (slot_set fds fd d) fd ≡ some d
unfolding slot_set
slot-set_self fds (pos i) d e = get_elem?-set_self fds i d (lt_of_get fds i e)
slot-set_self fds (negsuc n) d e = ground arith

free_flag :
    (fds : List Fd) (i : ℕ)
    → first_free (λ d. d.active) fds ≡ some i
    → get_elem? (map (λ d. d.active) fds) i ≡ some false
free_flag fds i e =
    let (d, g, off) = first_free-inactive (λ d. d.active) fds i e in
    get_elem?-map (λ d. d.active) fds i ∙ ap (Option.map (λ d. d.active)) g ∙ ap some off

closed :
    (vfs vfs' : Vfs) (flags i : ℕ)
    → IsOpened vfs vfs' flags (pos i)
    → ((vfs_close vfs' (pos i)).1 ≡ true) × (open_fds (vfs_close vfs' (pos i)).0 ≡ open_fds vfs)
unfolding vfs_close slot_set
closed vfs vfs' flags i (free, e) =
    let d : Fd = record { position = 0; flags = flags; active = true } in
    let (a, g, off) = first_free-inactive (λ d. d.active) vfs.fds i free in
    let found : get_elem? vfs'.fds i ≡ some d =
      ap (λ fds. get_elem? fds i) e ∙ get_elem?-set_self vfs.fds i d (lt_of_get vfs.fds i g) in
    let again : open_fds (record vfs' { fds = set vfs'.fds i (record d { active = false }) })
        ≡ open_fds vfs =
      map-set (λ d. d.active) vfs'.fds i (record d { active = false })
      ∙ ap (λ fds. set (map (λ d. d.active) fds) i false) e
      ∙ ap (λ bs. set bs i false) (map-set (λ d. d.active) vfs.fds i d)
      ∙ set-set (open_fds vfs) i true false
      ∙ set_flag (open_fds vfs) i (free_flag vfs.fds i free) in
    rw found (refl, again)

module _ {ℓ} {S : Type ℓ} (fs : FileSystems S) where
  opened-IsOpened :
      (vfs : Vfs) (i flags : ℕ) (answer : S × Bool)
      → first_free (λ d. d.active) vfs.fds ≡ some i
      → IsOpened vfs (opened fs vfs i flags answer).0.0 flags (opened fs vfs i flags answer).1
  unfolding opened
  opened-IsOpened vfs i flags (s, true) e =
      let (d, g, off) = first_free-inactive (λ d. d.active) vfs.fds i e in
      (e, modify-eq-set vfs.fds i (λ d. record d { position = 0; flags = flags; active = true }) g)
  opened-IsOpened vfs i flags (s, false) e = (
    refl,
    map-modify_const (λ d. d.active) vfs.fds i
          (λ d. record d { position = 0; flags = flags; active = false }) false (λ d. refl)
        ∙ set_flag (open_fds vfs) i (free_flag vfs.fds i e),
  )

  -- Whatever the file systems do, `vfs_open` either answers -1, and the same descriptors are open as
  -- before, or it answers the least free descriptor, which is then open at position 0 with these
  -- flags, and every other is as before.
  pub vfs_open-IsOpened :
      (vfs : Vfs) (s : S) (path : List ℕ) (flags : ℕ)
      → IsOpened vfs (vfs_open fs vfs s path flags).0.0 flags (vfs_open fs vfs s path flags).1
  unfolding vfs_open open_at
  vfs_open-IsOpened vfs s path flags = elim (Option-cases (vfs_find_mount vfs path)) [
    | inl nowhere ↦ rw nowhere (refl, refl)
    | inr (m, found) ↦ elim (Option-cases (first_free (λ d. d.active) vfs.fds)) [
      | inl full ↦ rw (found, full) (refl, refl)
      | inr (i, free) ↦
          rw (found, free)
            (opened-IsOpened vfs i flags (open_in fs s m (rel_path m path) flags) free)
    ]
  ]

  -- Closing the descriptor that `vfs_open` answered succeeds, and leaves open what was open before.
  pub vfs_close-vfs_open :
      (vfs : Vfs) (s : S) (path : List ℕ) (flags i : ℕ)
      → (vfs_open fs vfs s path flags).1 ≡ pos i
      → ((vfs_close (vfs_open fs vfs s path flags).0.0 (pos i)).1 ≡ true)
        × (open_fds (vfs_close (vfs_open fs vfs s path flags).0.0 (pos i)).0 ≡ open_fds vfs)
  vfs_close-vfs_open vfs s path flags i e = closed vfs (vfs_open fs vfs s path flags).0.0 flags i (
      subst (IsOpened vfs (vfs_open fs vfs s path flags).0.0 flags) e
        (vfs_open-IsOpened vfs s path flags))

-- `vfs_seek` succeeds for every descriptor in range, and `vfs_tell` then answers that offset; out of
-- range it fails, and `vfs_tell` answers 0.
vfs_tell-vfs_seek :
    (vfs : Vfs) (fd : ℤ) (offset : ℕ)
    → ((vfs_seek vfs fd offset).1 ≡ is_some (slot vfs.fds fd))
      × (vfs_tell (vfs_seek vfs fd offset).0 fd ≡ (if is_some (slot vfs.fds fd) then offset else 0))
unfolding vfs_seek vfs_tell
vfs_tell-vfs_seek vfs fd offset = elim (Option-cases (slot vfs.fds fd)) [
  | inl out ↦ rw out (refl, rw out refl)
  | inr (d, found) ↦
      rw found (refl, rw (slot-set_self vfs.fds fd (record d { position = offset }) found) refl)
]
