-- ===== src/Blocksec.antt =====
-- blocksec.c and blocksec.h: mandatory access control. Texts are byte strings without their NUL.
-- `rules[0 .. rule_count)` and `domains[0 .. domain_count)` are lists, and so are the process labels
-- (`g_proc_pids`, `g_proc_labels`), since nothing reads the arrays behind those counts. The handle
-- `sec` is valid: the tests for NULL are left out. The message of a log entry, a rendering of its
-- other fields, and the text that `blocksec_print_stats` formats are left out too.
pub mod Policy
pub mod Access
pub mod Log
pub mod Decide
pub mod Labels
pub mod Audit
pub mod Tests
use Prim.Native.Nat.{bit_and}
use blockos.Prelude.{
  ℕ, suc, ◌+◌, ◌-◌, ◌%◌, ◌^◌, Bool, true, false, not, ◌&&◌, ◌||◌, List, [], ◌∷◌, ◌++◌, Option, none,
  some, ℤ, pos, minus_one, if◌then◌else◌, ◌==◌, ltb, leb, length, replicate, bytes_of, is_some,
}
use blockos.Strings.{strcmp, is_zero, strncpy}

abbrev pub max_rules : ℕ
max_rules = 1024

abbrev pub max_domains : ℕ
max_domains = 64

abbrev pub max_labels : ℕ
max_labels = 256

abbrev pub log_size : ℕ
log_size = 512

-- BLOCKSEC_MODE_DISABLED, BLOCKSEC_MODE_PERMISSIVE, BLOCKSEC_MODE_ENFORCING
abbrev pub disabled : ℕ
disabled = 0

abbrev pub permissive : ℕ
permissive = 1

abbrev pub enforcing : ℕ
enforcing = 2

-- `sec_label_t`
pub record Label : Type 0 where
  pub user : List ℕ
  pub role : List ℕ
  pub type : List ℕ
  pub level : ℕ

-- `sec_rule_t`
pub record Rule : Type 0 where
  pub source_type : List ℕ
  pub target_type : List ℕ
  pub object_class : ℕ
  pub permissions : ℕ
  pub allow : Bool
  pub name : List ℕ

-- `sec_domain_t`
pub record Domain : Type 0 where
  pub name : List ℕ
  pub label : Label
  pub allowed_perms : ℕ
  pub privileged : Bool
  pub confined : Bool

-- `sec_log_t`
pub record LogEntry : Type 0 where
  pub timestamp : ℕ
  pub pid : ℕ
  pub source : List ℕ
  pub target : List ℕ
  pub class : ℕ
  pub perm : ℕ
  pub allowed : Bool

-- `blocksec_t`, with the process labels
pub record Blocksec : Type 0 where
  pub mode : ℕ
  pub rules : List Rule
  pub domains : List Domain
  pub log : List LogEntry
  pub log_head : ℕ
  pub log_count : ℕ
  pub denied_count : ℕ
  pub allowed_count : ℕ
  pub labels : List (ℕ × Label)

abbrev pub inc32 : ℕ → ℕ
inc32 x = (x + 1) % 2 ^ 32

-- strcmp(a, b) == 0
abbrev pub same : List ℕ → List ℕ → Bool
same a b = is_zero (strcmp a b)

unfoldable pub set_mode : Blocksec → ℕ → Blocksec
set_mode sec mode = record sec { mode = mode }

unfoldable pub get_mode : Blocksec → ℕ
get_mode sec = sec.mode

unfoldable pub add_rule : Blocksec → List ℕ → List ℕ → ℕ → ℕ → Bool → List ℕ → Blocksec × Bool
add_rule sec src tgt class perms allow name =
    if leb max_rules (length sec.rules)
    then (sec, false)
    else (record sec { rules = sec.rules ++ rule ∷ [] }, true)
  where
    rule : Rule
    rule = record {
      source_type = strncpy src 31;
      target_type = strncpy tgt 31;
      object_class = class;
      permissions = perms;
      allow = allow;
      name = strncpy name 63;
    }

-- The rules without the first of that name; `none` where there is none.
unfoldable pub without : List ℕ → List Rule → Option (List Rule)
without name [] = none
without name (r ∷ rules) =
    if same r.name name
    then some rules
    else elim (without name rules) [ none ↦ none | some rest ↦ some (r ∷ rest) ]

unfoldable pub remove_rule : Blocksec → List ℕ → Blocksec × Bool
unfolding without
remove_rule sec name = elim (without name sec.rules) [
  | none ↦ (sec, false)
  | some rules ↦ (record sec { rules = rules }, true)
]

unfoldable pub add_domain : Blocksec → List ℕ → Bool → Bool → Blocksec × ℤ
add_domain sec name privileged confined =
    if leb max_domains (length sec.domains)
    then (sec, minus_one)
    else (record sec { domains = sec.domains ++ domain ∷ [] }, pos (length sec.domains))
  where
    domain : Domain
    domain = record {
      name = strncpy name 31;
      label = record {
        user = bytes_of "blocksec_u";
        role = if privileged then bytes_of "system_r" else bytes_of "user_r";
        type = strncpy name 31;
        level = 0;
      };
      allowed_perms = if privileged then 2 ^ 32 - 1 else 0;
      privileged = privileged;
      confined = confined;
    }

find_domain : List ℕ → List Domain → Option Domain
find_domain name [] = none
find_domain name (d ∷ domains) = if same d.name name then some d else find_domain name domains

unfoldable pub get_domain : Blocksec → List ℕ → Option Domain
unfolding find_domain
get_domain sec name = find_domain name sec.domains

-- The labels with that of `pid` replaced, or with a new entry behind the others.
unfoldable pub relabel : ℕ → Label → List (ℕ × Label) → List (ℕ × Label)
relabel pid label [] = (pid, label) ∷ []
relabel pid label ((p, l) ∷ labels) =
    if p == pid then (p, label) ∷ labels else (p, l) ∷ relabel pid label labels

unfoldable pub find_label : ℕ → List (ℕ × Label) → Option Label
find_label pid [] = none
find_label pid ((p, l) ∷ labels) = if p == pid then some l else find_label pid labels

unfoldable pub get_process_label : Blocksec → ℕ → Option Label
unfolding find_label
get_process_label sec pid = find_label pid sec.labels

-- A process that has a label is served also when the table is full.
unfoldable pub set_process_label : Blocksec → ℕ → Label → Blocksec × Bool
unfolding relabel find_label
set_process_label sec pid label =
    if not (is_some (find_label pid sec.labels)) && leb max_labels (length sec.labels)
    then (sec, false)
    else (record sec { labels = relabel pid label sec.labels }, true)

transition_to : Blocksec → ℕ → Option Domain → Blocksec × Bool
transition_to sec pid none = (sec, false)
transition_to sec pid (some d) = set_process_label sec pid d.label

unfoldable pub transition : Blocksec → ℕ → List ℕ → Blocksec × Bool
unfolding transition_to
transition sec pid new_domain = transition_to sec pid (get_domain sec new_domain)
