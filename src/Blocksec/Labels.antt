-- ===== src/Blocksec/Labels.antt =====
-- The labels of processes and the list of rules behave as finite maps.
use blockos.Prelude.{
  ℕ, ◌≤◌, ◌<◌, ◌≡◌, refl, ap, ◌∙◌, inl, inr, Bool, true, false, not, ◌&&◌, ◌||◌, List, [], ◌∷◌,
  ◌++◌, none, some, arith, if◌then◌else◌, ◌==◌, leb, is_some, length, take, take-of_length_le,
  Bool-cases,
}
use blockos.Strings.{strncpy}
use blockos.Strings.Compare.{strcmp_self}
use blockos.Blocksec.{
  Blocksec, Rule, Label, max_labels, max_rules, same, relabel, find_label, get_process_label,
  set_process_label, without, add_rule, remove_rule,
}

find_label-relabel :
    (pid other : ℕ) (label : Label) (labels : List (ℕ × Label))
    → find_label other (relabel pid label labels)
      ≡ (if pid == other then some label else find_label other labels)
unfolding find_label relabel
find_label-relabel pid other label [] = refl
find_label-relabel pid other label ((p, l) ∷ labels) =
    ground (arith, find_label-relabel pid other label labels)

-- A label that was set is what the process has, and every other process keeps its own; the table
-- refuses only a process without a label, when it is full, and then stays as it is.
get-set_process_label :
    (sec : Blocksec) (pid other : ℕ) (label : Label)
    → let (sec', done) = set_process_label sec pid label in
      (get_process_label sec' other
        ≡ (if done && pid == other then some label else get_process_label sec other))
      × (done ≡ (is_some (get_process_label sec pid) || not (leb max_labels (length sec.labels))))
unfolding get_process_label set_process_label
get-set_process_label sec pid other label =
    elim (Bool-cases
      (not (is_some (find_label pid sec.labels)) && leb max_labels (length sec.labels))) [
        | inl full ↦ rw full (refl, ground arith)
        | inr room ↦ rw room (find_label-relabel pid other label sec.labels, ground arith)
      ]

without-append :
    (name : List ℕ) (rules : List Rule) (r : Rule)
    → without name rules ≡ none
    → same r.name name ≡ true
    → without name (rules ++ r ∷ []) ≡ some rules
unfolding without
without-append name [] r e h = rw h
without-append name (q ∷ rules) r e h = ground (arith, without-append name rules r)

-- Where the table is not full, removing the rule that was just added, under a name that no other
-- rule has and that fits its field, succeeds and gives back the same state.
remove_rule-add_rule :
    (sec : Blocksec) (src tgt : List ℕ) (class perms : ℕ) (allow : Bool) (name : List ℕ)
    → length name ≤ 63
    → length sec.rules < max_rules
    → without name sec.rules ≡ none
    → remove_rule (add_rule sec src tgt class perms allow name).0 name ≡ (sec, true)
unfolding add_rule remove_rule strncpy
remove_rule-add_rule sec src tgt class perms allow name fits room fresh =
    let open_end : leb max_rules (length sec.rules) ≡ false = ground arith in
    let named : same (take 63 name) name ≡ true =
      rw (take-of_length_le 63 name fits) (strcmp_self name) in
    let added : Rule = record {
      source_type = take 31 src;
      target_type = take 31 tgt;
      object_class = class;
      permissions = perms;
      allow = allow;
      name = take 63 name;
    } in
    let found : without name (sec.rules ++ added ∷ []) ≡ some sec.rules =
      without-append name sec.rules added fresh named in
    let done : add_rule sec src tgt class perms allow name
        ≡ (record sec { rules = sec.rules ++ added ∷ [] }, true) =
      rw open_end refl in
    ap (λ p. remove_rule p.0 name) done ∙ rw (remove_rule, found) refl
