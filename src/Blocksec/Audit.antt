-- ===== src/Blocksec/Audit.antt =====
-- The default policy at work, and what a check leaves behind.
use blockos.Prelude.{ℕ, ◌≡◌, refl, ◌∙◌, false, List, ◌++◌, some, arith, bytes_of}
use blockos.Strings.{strcmp, strncpy}
use blockos.Strings.Compare.{strncmp-append}
use blockos.Blocksec.{Blocksec, Label, enforcing, set_mode, get_process_label}
use blockos.Blocksec.Access.{applies, verdict, check, check_file, class_process, class_file}
use blockos.Blocksec.Policy.{init}
use blockos.Blocksec.Decide.{decided}

-- The verdict of the default rules, for an untrusted process and a system file.
untrusted_verdict :
    (base : Blocksec) (perm : ℕ)
    → verdict (init base).rules (bytes_of "untrusted_t") (bytes_of "system_file_t") class_file perm
      ≡ false
unfolding verdict applies strcmp init strncpy
untrusted_verdict base perm = ground arith

kernel_verdict :
    (base : Blocksec) (target : List ℕ) (perm : ℕ)
    → verdict (init base).rules (bytes_of "kernel_t") target class_process perm ≡ false
unfolding verdict applies strcmp init strncpy
kernel_verdict base target perm = ground arith

labels-init :
    (base : Blocksec) (pid : ℕ) → get_process_label (init base) pid ≡ get_process_label base pid
unfolding init get_process_label
labels-init base pid = refl

abbrev pub enforced : Blocksec → Blocksec
enforced base = set_mode (init base) enforcing

module _ (base : Blocksec) (now pid perm : ℕ) (label : Label)
    (e : get_process_label base pid ≡ some label) where
  labelled : get_process_label (enforced base) pid ≡ some label
  unfolding set_mode get_process_label init
  labelled = e

  -- Under the default policy in enforcing mode, a process labelled untrusted_t is refused every
  -- access to a path that starts with /bin, whatever the permissions asked for.
  pub untrusted_no_bin :
      (rest : List ℕ)
      → label.type ≡ bytes_of "untrusted_t"
      → (check_file (enforced base) now pid (bytes_of "/bin" ++ rest) perm).1 ≡ false
  unfolding check_file set_mode
  untrusted_no_bin rest t = rw (strncmp-append (bytes_of "/bin") rest) (
      decided (enforced base) now pid (bytes_of "system_file_t") class_file perm label refl labelled
      ∙ rw t (untrusted_verdict base perm))

  -- Under the default policy in enforcing mode, a process labelled kernel_t is refused every
  -- access to a process: its rule that allows everything speaks of files only.
  pub kernel_no_process :
      (target : List ℕ)
      → label.type ≡ bytes_of "kernel_t"
      → (check (enforced base) now pid target class_process perm).1 ≡ false
  unfolding set_mode
  kernel_no_process target t =
      decided (enforced base) now pid target class_process perm label refl labelled
      ∙ rw t (kernel_verdict base target perm)
