-- ===== src/Blocksec/Policy.antt =====
-- `blocksec_init` and the default policy of blocksec.c.
use blockos.Prelude.{ℕ, ◌+◌, ◌-◌, ◌^◌, Bool, true, false, List, [], ◌∷◌, replicate, bytes_of}
use blockos.Blocksec.{Blocksec, permissive, log_size, add_rule, add_domain}
use blockos.Blocksec.Access.{blank_entry, class_file, class_process, class_socket}

-- BLOCKSEC_PERM_READ and so on; a set of permissions is the sum of their bits.
abbrev pub perm_read : ℕ
perm_read = 1

abbrev pub perm_write : ℕ
perm_write = 2

abbrev pub perm_exec : ℕ
perm_exec = 4

abbrev pub perm_create : ℕ
perm_create = 8

abbrev pub perm_delete : ℕ
perm_delete = 16

abbrev pub perm_connect : ℕ
perm_connect = 128

abbrev pub perm_send : ℕ
perm_send = 512

abbrev pub perm_recv : ℕ
perm_recv = 1024

abbrev pub perm_fork : ℕ
perm_fork = 2048

abbrev pub perm_kill : ℕ
perm_kill = 4096

abbrev pub perm_all : ℕ
perm_all = 2 ^ 32 - 1

-- The arguments of a call of `blocksec_add_domain`: name, privileged, confined.
abbrev DomainArgs : Type 0
DomainArgs = List ℕ × Bool × Bool

-- The arguments of a call of `blocksec_add_rule`: source, target, class, permissions, allow, name.
abbrev RuleArgs : Type 0
RuleArgs = List ℕ × List ℕ × ℕ × ℕ × Bool × List ℕ

add_domains : Blocksec → List DomainArgs → Blocksec
add_domains sec [] = sec
add_domains sec ((name, privileged, confined) ∷ ds) =
    add_domains (add_domain sec name privileged confined).0 ds

add_rules : Blocksec → List RuleArgs → Blocksec
add_rules sec [] = sec
add_rules sec ((src, tgt, class, perms, allow, name) ∷ rs) =
    add_rules (add_rule sec src tgt class perms allow name).0 rs

default_domains : List DomainArgs
default_domains =
    (bytes_of "kernel_t", true, false)
    ∷ (bytes_of "init_t", true, false)
    ∷ (bytes_of "user_t", false, true)
    ∷ (bytes_of "shell_t", false, true)
    ∷ (bytes_of "gui_t", false, true)
    ∷ (bytes_of "network_t", false, true)
    ∷ (bytes_of "untrusted_t", false, true)
    ∷ []

default_rules : List RuleArgs
default_rules =
    (bytes_of "kernel_t", bytes_of "any_t", class_file, perm_all, true, bytes_of "kernel_all")
    ∷ (
      bytes_of "init_t",
      bytes_of "system_file_t",
      class_file,
      perm_read + perm_exec,
      true,
      bytes_of "init_read_sys",
    )
    ∷ (
      bytes_of "user_t",
      bytes_of "user_home_t",
      class_file,
      perm_read + perm_write + perm_create,
      true,
      bytes_of "user_home_rw",
    )
    ∷ (
      bytes_of "user_t",
      bytes_of "system_file_t",
      class_file,
      perm_write + perm_delete,
      false,
      bytes_of "user_no_sys_write",
    )
    ∷ (
      bytes_of "shell_t",
      bytes_of "user_home_t",
      class_file,
      perm_read + perm_exec,
      true,
      bytes_of "shell_exec",
    )
    ∷ (bytes_of "gui_t", bytes_of "any_t", class_file, perm_read, true, bytes_of "gui_read_all")
    ∷ (
      bytes_of "network_t",
      bytes_of "any_t",
      class_socket,
      perm_connect + perm_send + perm_recv,
      true,
      bytes_of "net_socket",
    )
    ∷ (
      bytes_of "untrusted_t",
      bytes_of "user_home_t",
      class_file,
      perm_read,
      true,
      bytes_of "untrusted_read_home",
    )
    ∷ (
      bytes_of "untrusted_t",
      bytes_of "system_file_t",
      class_file,
      perm_all,
      false,
      bytes_of "untrusted_no_sys",
    )
    ∷ (
      bytes_of "untrusted_t",
      bytes_of "any_t",
      class_process,
      perm_fork + perm_kill,
      false,
      bytes_of "untrusted_no_proc",
    )
    ∷ []

unfoldable pub load_default_policy : Blocksec → Blocksec
unfolding add_domains add_rules default_domains default_rules add_domain add_rule
load_default_policy sec = add_rules (add_domains sec default_domains) default_rules

-- After `memset`; the labels of processes are not part of `*sec` and stay.
unfoldable pub init : Blocksec → Blocksec
unfolding load_default_policy
init sec = load_default_policy (record {
  mode = permissive;
  rules = [];
  domains = [];
  log = replicate log_size blank_entry;
  log_head = 0;
  log_count = 0;
  denied_count = 0;
  allowed_count = 0;
  labels = sec.labels;
})
