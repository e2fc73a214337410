-- ===== src/Blocksec/Tests.antt =====
-- The theorems about the mandatory access control at concrete policies.
use blockos.Prelude.{
  ℕ, ◌≡◌, refl, ◌↔◌, true, false, List, [], ◌∷◌, some, arith, bytes_of, length, ◌++◌, get_elem?,
}
use blockos.Blocksec.{Blocksec, Label, Rule, enforcing, get_process_label, find_label}
use blockos.Blocksec.Access.{check, check_file, class_process, get_log}
use blockos.Blocksec.Policy.{init}
use blockos.Blocksec.Decide.{Ruled, check-enforcing}
use blockos.Blocksec.Audit.{enforced, untrusted_no_bin, kernel_no_process}
use blockos.Blocksec.Log.{Event, entry_of, log_all, history, get_log-history}

abbrev label_of : List ℕ → Label
label_of type = record {
  user = bytes_of "blocksec_u";
  role = bytes_of "user_r";
  type = type;
  level = 0;
}

-- Process 7 is untrusted, process 1 belongs to the kernel.
abbrev two_labels : Blocksec
two_labels = record {
  mode = enforcing;
  rules = [];
  domains = [];
  log = [];
  log_head = 0;
  log_count = 0;
  denied_count = 0;
  allowed_count = 0;
  labels = (7, label_of (bytes_of "untrusted_t")) ∷ (1, label_of (bytes_of "kernel_t")) ∷ [];
}

abbrev allow_rule : Rule
allow_rule = record {
  source_type = bytes_of "untrusted_t";
  target_type = bytes_of "any_t";
  object_class = 0;
  permissions = 3;
  allow = true;
  name = bytes_of "r";
}

abbrev one_rule : Blocksec
one_rule = record two_labels { rules = allow_rule ∷ [] }

check-enforcing_example : ((check one_rule 5 7 (bytes_of "t") 0 1).1 ≡ true) ↔ (
    Ruled (bytes_of "untrusted_t") (bytes_of "t") 0 1 true (allow_rule ∷ [])
    × ¬ Ruled (bytes_of "untrusted_t") (bytes_of "t") 0 1 false (allow_rule ∷ []))
unfolding get_process_label find_label
check-enforcing_example =
    check-enforcing one_rule 5 7 (bytes_of "t") 0 1 (label_of (bytes_of "untrusted_t")) refl refl
      (omega arith) (omega arith) (((omega arith), (omega arith)), tt)

untrusted_no_bin_example :
    (check_file (enforced two_labels) 5 7 (bytes_of "/bin" ++ bytes_of "/sh") 1).1 ≡ false
unfolding get_process_label find_label
untrusted_no_bin_example =
    untrusted_no_bin two_labels 5 7 1 (label_of (bytes_of "untrusted_t")) refl (bytes_of "/sh") refl

kernel_no_process_example :
    (check (enforced two_labels) 5 1 (bytes_of "pid_7") class_process 1).1 ≡ false
unfolding get_process_label find_label
kernel_no_process_example =
    kernel_no_process two_labels 5 1 1 (label_of (bytes_of "kernel_t")) refl (bytes_of "pid_7") refl

abbrev event : ℕ → Event
event now = record {
  now = now;
  pid = 7;
  source = bytes_of "a";
  target = bytes_of "b";
  class = 0;
  perm = 1;
  allowed = true;
}

get_log-history_example :
    (length (get_log (log_all (init two_labels) (event 1 ∷ event 2 ∷ event 3 ∷ [])) 2) ≡ 2)
    × (get_elem? (get_log (log_all (init two_labels) (event 1 ∷ event 2 ∷ event 3 ∷ [])) 2) 0
        ≡ some (entry_of (event 2)))
unfolding history
get_log-history_example =
    get_log-history two_labels (event 1 ∷ event 2 ∷ event 3 ∷ []) 2 0 (entry_of (event 2))
      (omega arith) refl
