-- ===== src/Blocksec/Decide.antt =====
-- What `blocksec_check` decides: a refusal beats a permission, and no rule means no.
use Prim.Native.Nat.{bit_and}
use blockos.Prelude.{
  ℕ, zero, suc, ◌≡◌, refl, ap, sym, ◌∙◌, ◌≢◌, ◌↔◌, ◌⊎◌, inl, inr, Bool, true, false, not, ◌&&◌,
  ◌||◌, List, [], ◌∷◌, some, arith, if◌then◌else◌, ◌==◌, bytes_of, get_elem?, subst, Bool-cases,
  ==_iff,
}
use blockos.Slots.Laws.{All}
use blockos.Strings.Compare.{IsCString, strcmp_eq_iff}
use blockos.Blocksec.{Blocksec, Rule, Label, disabled, enforcing, same, get_process_label}
use blockos.Blocksec.Access.{applies, scan, verdict, check, check_labelled, conclude, blocksec_log}

-- A rule speaks of a request: source and target fit by name or by `any_t`, the class is the same,
-- and the permissions have a bit in common.
pub record Matches (r : Rule) (type target : List ℕ) (class perm : ℕ) : Type 0 where
  pub source : (r.source_type ≡ type) ⊎ (r.source_type ≡ bytes_of "any_t")
  pub at : (r.target_type ≡ target) ⊎ (r.target_type ≡ bytes_of "any_t")
  pub class_eq : r.object_class ≡ class
  pub common : bit_and r.permissions perm ≢ 0

abbrev pub IsText : Rule → Type 0
IsText r = IsCString r.source_type × IsCString r.target_type

any_t-IsCString : IsCString (bytes_of "any_t")
any_t-IsCString = omega arith

fits_iff :
    (a b : List ℕ)
    → IsCString a
    → IsCString b
    → ((same a b || same a (bytes_of "any_t")) ≡ true) ↔ ((a ≡ b) ⊎ (a ≡ bytes_of "any_t"))
fits_iff a b ha hb = (forth, back)
  where
    named : (same a b ≡ true) ↔ (a ≡ b)
    named = strcmp_eq_iff a b ha hb

    anyone : (same a (bytes_of "any_t") ≡ true) ↔ (a ≡ bytes_of "any_t")
    anyone = strcmp_eq_iff a (bytes_of "any_t") ha any_t-IsCString

    forth : (same a b || same a (bytes_of "any_t")) ≡ true → (a ≡ b) ⊎ (a ≡ bytes_of "any_t")
    forth e = elim (Bool-cases (same a b)) [
      | inl h ↦ inl (named.0 h)
      | inr h ↦ inr (anyone.0 (rw h at e))
    ]

    back : (a ≡ b) ⊎ (a ≡ bytes_of "any_t") → (same a b || same a (bytes_of "any_t")) ≡ true
    back (inl p) = rw (named.1 p)
    back (inr p) = elim (Bool-cases (same a b)) [ inl h ↦ rw h | inr h ↦ rw h (anyone.1 p) ]

all_four :
    (a b c d : Bool) → (a && b && c && d) ≡ true → (a ≡ true) × (b ≡ true) × (c ≡ true) × (d ≡ true)
all_four a b c d e = ground arith

applies_iff :
    (r : Rule) (type target : List ℕ) (class perm : ℕ)
    → IsText r
    → IsCString type
    → IsCString target
    → (applies r type target class perm ≡ true) ↔ Matches r type target class perm
unfolding applies
applies_iff r type target class perm t hs ht = (forth, back)
  where
    bits : not (bit_and r.permissions perm == 0) ≡ true → bit_and r.permissions perm ≢ 0
    bits h e = ground arith

    forth : applies r type target class perm ≡ true → Matches r type target class perm
    forth e =
        let parts =
          all_four (same r.source_type type || same r.source_type (bytes_of "any_t"))
            (same r.target_type target || same r.target_type (bytes_of "any_t"))
            (r.object_class == class) (not (bit_and r.permissions perm == 0)) e in
        record {
          source = (fits_iff r.source_type type t.0 hs).0 parts.0;
          at = (fits_iff r.target_type target t.1 ht).0 parts.1;
          class_eq = (==_iff r.object_class class).0 parts.2;
          common = bits parts.3;
        }

    back : Matches r type target class perm → applies r type target class perm ≡ true
    back m =
        rw
          (
            (fits_iff r.source_type type t.0 hs).1 m.source,
            (fits_iff r.target_type target t.1 ht).1 m.at,
          )
          (ground arith)

-- The scan finds a rule that allows, and a rule that denies, if there is one.
is_kind : Bool → Rule → Bool
is_kind kind r = if kind then r.allow else not r.allow

module _ (type target : List ℕ) (class perm : ℕ) where
  finds : Bool → List Rule → Bool
  finds kind [] = false
  finds kind (r ∷ rules) = (applies r type target class perm && is_kind kind r) || finds kind rules

  scan_lem :
      (rules : List Rule) (a d : Bool)
      → scan rules type target class perm (a, d) ≡ (a || finds true rules, d || finds false rules)
  unfolding scan finds is_kind
  scan_lem [] a d = ground arith
  scan_lem (r ∷ rules) a d = elim (Bool-cases (applies r type target class perm)) [
    | inl yes_applies ↦ elim (Bool-cases r.allow) [
      | inl allows ↦ rw (yes_applies, allows, scan_lem rules true d) (ground arith)
      | inr denies ↦ rw (yes_applies, denies, scan_lem rules a true) (ground arith)
    ]
    | inr no_match ↦ rw (no_match, scan_lem rules a d) refl
  ]

  verdict_lem :
      (rules : List Rule)
      → verdict rules type target class perm ≡ (not (finds false rules) && finds true rules)
  unfolding verdict
  verdict_lem rules = rw (scan_lem rules false false) (ground arith)

  -- A rule of the list that matches and that allows or denies.
  abbrev pub Ruled : Bool → List Rule → Type 0
  Ruled kind rules =
      (i : ℕ) × (r : Rule) × (get_elem? rules i ≡ some r)
      × Matches r type target class perm
      × (r.allow ≡ kind)

  is_kind_iff : (kind : Bool) (r : Rule) → (is_kind kind r ≡ true) ↔ (r.allow ≡ kind)
  unfolding is_kind
  is_kind_iff true r = (λ e. e, λ e. e)
  is_kind_iff false r = (λ e. ground arith, λ e. ground arith)

  -- The scan's flags say whether there is such a rule.
  module _ (ht : IsCString type) (hg : IsCString target) where
    finds→Ruled :
        (kind : Bool) (rules : List Rule)
        → All IsText rules
        → finds kind rules ≡ true
        → Ruled kind rules
    unfolding finds is_kind
    finds→Ruled kind [] v e = absurd (cc e)
    finds→Ruled kind (r ∷ rules) v e =
        elim (Bool-cases (applies r type target class perm && is_kind kind r)) [
          | inl h ↦
              let both : (applies r type target class perm ≡ true) × (is_kind kind r ≡ true) =
                ground arith in
              (
                0,
                r,
                refl,
                (applies_iff r type target class perm v.0 ht hg).0 both.0,
                (is_kind_iff kind r).0 both.1,
              )
          | inr h ↦
              let (i, q, g, m, k) = finds→Ruled kind rules v.1 (rw h at e) in (suc i, q, g, m, k)
        ]

    Ruled→finds :
        (kind : Bool) (rules : List Rule) (i : ℕ) {r : Rule}
        → All IsText rules
        → get_elem? rules i ≡ some r
        → Matches r type target class perm
        → r.allow ≡ kind
        → finds kind rules ≡ true
    unfolding finds is_kind
    Ruled→finds kind [] i v g m k = ground arith
    Ruled→finds kind (q ∷ rules) zero {r} v g m k =
        let here : q ≡ r = ground arith in
        let a : applies q type target class perm ≡ true =
          (applies_iff q type target class perm v.0 ht hg).1
            (subst (λ t. Matches t type target class perm) (sym here) m) in
        let b : is_kind kind q ≡ true = (is_kind_iff kind q).1 (ap (λ t. t.allow) here ∙ k) in
        rw (a, b)
    Ruled→finds kind (q ∷ rules) (suc i) v g m k =
        let rest = Ruled→finds kind rules i v.1 g m k in rw rest (ground arith)

not_true→false : (b : Bool) → (b ≡ true → ⊥) → b ≡ false
not_true→false b h = ground arith

conclude-enforcing : (sec : Blocksec) (b : Bool) → sec.mode ≡ enforcing → (conclude sec b).1 ≡ b
unfolding conclude
conclude-enforcing sec true m = refl
conclude-enforcing sec false m = rw m

-- The answer in enforcing mode is the verdict of the rules.
pub decided :
    (sec : Blocksec) (now pid : ℕ) (target : List ℕ) (class perm : ℕ) (label : Label)
    → sec.mode ≡ enforcing
    → get_process_label sec pid ≡ some label
    → (check sec now pid target class perm).1 ≡ verdict sec.rules label.type target class perm
unfolding check check_labelled blocksec_log
decided sec now pid target class perm label m e =
    let on : (sec.mode == disabled) ≡ false = ground arith in
    rw (on, e)
      (conclude-enforcing
        (blocksec_log sec now pid label.type target class perm
          (verdict sec.rules label.type target class perm))
        (verdict sec.rules label.type target class perm) m)

-- In enforcing mode a labelled process is let through exactly if a rule that matches the request
-- allows it and none that matches denies it; the texts of label, target and rules are C strings.
pub check-enforcing :
    (sec : Blocksec) (now pid : ℕ) (target : List ℕ) (class perm : ℕ) (label : Label)
    → sec.mode ≡ enforcing
    → get_process_label sec pid ≡ some label
    → IsCString label.type
    → IsCString target
    → All IsText sec.rules
    → ((check sec now pid target class perm).1 ≡ true) ↔ (
        Ruled label.type target class perm true sec.rules
        × ¬ Ruled label.type target class perm false sec.rules)
check-enforcing sec now pid target class perm label m e ht hg v =
    let result : (check sec now pid target class perm).1 ≡ (
        not (finds label.type target class perm false sec.rules)
        && finds label.type target class perm true sec.rules) =
      decided sec now pid target class perm label m e
      ∙ verdict_lem label.type target class perm sec.rules in
    rw result (
      λ h.
          let parts : (finds label.type target class perm false sec.rules ≡ false)
              × (finds label.type target class perm true sec.rules ≡ true) =
            ground arith in
          (
            finds→Ruled label.type target class perm ht hg true sec.rules v parts.1,
            λ (i, r, g, mt, k). absurd (
                cc (
                  parts.0,
                  Ruled→finds label.type target class perm ht hg false sec.rules i v g mt k,
                )),
          ),
      λ h.
          let (i, r, g, mt, k) = h.0 in
          let yes_rule = Ruled→finds label.type target class perm ht hg true sec.rules i v g mt k in
          let no_deny =
            not_true→false (finds label.type target class perm false sec.rules)
              (λ f. h.1 (finds→Ruled label.type target class perm ht hg false sec.rules v f)) in
          rw (yes_rule, no_deny),
    )
