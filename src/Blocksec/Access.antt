-- ===== src/Blocksec/Access.antt =====
-- Logging and the access checks of blocksec.c. `now` is what `kernel_get_ticks` returns.
use Prim.Native.Nat.{bit_and}
use blockos.Prelude.{
  ℕ, zero, suc, ◌+◌, ◌-◌, ◌%◌, ◌^◌, Bool, true, false, not, ◌&&◌, ◌||◌, List, [], ◌∷◌, ◌++◌, Option,
  none, some, if◌then◌else◌, ◌==◌, ltb, set, get_or, bytes_of, take,
}
use blockos.Strings.{strncmp, strncpy, is_zero}
use blockos.Numbers.{uint_to_str}
use blockos.Blocksec.{
  Blocksec, Rule, Label, LogEntry, disabled, permissive, enforcing, log_size, inc32, same,
  get_process_label,
}

-- BLOCKSEC_CLASS_FILE, BLOCKSEC_CLASS_PROCESS, BLOCKSEC_CLASS_SOCKET
abbrev pub class_file : ℕ
class_file = 0

abbrev pub class_process : ℕ
class_process = 2

abbrev pub class_socket : ℕ
class_socket = 3

unfoldable pub blocksec_log : Blocksec → ℕ → ℕ → List ℕ → List ℕ → ℕ → ℕ → Bool → Blocksec
blocksec_log sec now pid src tgt class perm allowed = record sec {
  log = set sec.log (sec.log_head % log_size) entry;
  log_head = inc32 sec.log_head;
  log_count = if ltb sec.log_count log_size then inc32 sec.log_count else sec.log_count;
}
  where
    entry : LogEntry
    entry = record {
      timestamp = now;
      pid = pid;
      source = strncpy src 31;
      target = strncpy tgt 31;
      class = class;
      perm = perm;
      allowed = allowed;
    }

-- An entry of the log that is never written to is all zero.
unfoldable pub blank_entry : LogEntry
blank_entry = record {
  timestamp = 0;
  pid = 0;
  source = [];
  target = [];
  class = 0;
  perm = 0;
  allowed = false;
}

-- for (i = from; i < from + rounds; i++) out[i] = log[(log_head - n + i) % BLOCKSEC_LOG_SIZE]
unfoldable pub log_entries : Blocksec → ℕ → ℕ → ℕ → List LogEntry
log_entries sec n zero from = []
log_entries sec n (suc rounds) from =
    get_or sec.log ((sec.log_head + 2 ^ 32 - n + from) % 2 ^ 32 % log_size) blank_entry
    ∷ log_entries sec n rounds (from + 1)

unfoldable pub get_log : Blocksec → ℕ → List LogEntry
unfolding log_entries
get_log sec max =
    let n = if ltb sec.log_count max then sec.log_count else max in log_entries sec n n 0

-- The tests that the scan makes of a rule.
unfoldable pub applies : Rule → List ℕ → List ℕ → ℕ → ℕ → Bool
applies r type target class perm =
    (same r.source_type type || same r.source_type (bytes_of "any_t"))
    && (same r.target_type target || same r.target_type (bytes_of "any_t"))
    && r.object_class == class
    && not (bit_and r.permissions perm == 0)

-- The loop over the rules: `found_allow` and `found_deny`.
unfoldable pub scan : List Rule → List ℕ → List ℕ → ℕ → ℕ → Bool × Bool → Bool × Bool
scan [] type target class perm found = found
scan (r ∷ rules) type target class perm (found_allow, found_deny) =
    scan rules type target class perm (
      if applies r type target class perm
      then (if r.allow then (true, found_deny) else (found_allow, true))
      else (found_allow, found_deny))

-- A refusal has priority.
unfoldable pub verdict : List Rule → List ℕ → List ℕ → ℕ → ℕ → Bool
unfolding scan
verdict rules type target class perm =
    let (found_allow, found_deny) = scan rules type target class perm (false, false) in
    if found_deny then false else found_allow

-- The counters, and what a permissive system lets through.
unfoldable pub conclude : Blocksec → Bool → Blocksec × Bool
conclude sec true = (record sec { allowed_count = inc32 sec.allowed_count }, true)
conclude sec false = (record sec { denied_count = inc32 sec.denied_count }, sec.mode == permissive)

unfoldable pub check_labelled : Blocksec → ℕ → ℕ → List ℕ → ℕ → ℕ → Option Label → Blocksec × Bool
unfolding conclude
check_labelled sec now pid target class perm none = (sec, not (sec.mode == enforcing))
check_labelled sec now pid target class perm (some label) =
    let allowed = verdict sec.rules label.type target class perm in
    conclude (blocksec_log sec now pid label.type target class perm allowed) allowed

unfoldable pub check : Blocksec → ℕ → ℕ → List ℕ → ℕ → ℕ → Blocksec × Bool
unfolding check_labelled
check sec now pid target class perm =
    if sec.mode == disabled
    then (sec, true)
    else check_labelled sec now pid target class perm (get_process_label sec pid)

abbrev pub starts : List ℕ → List ℕ → ℕ → Bool
starts path prefix n = is_zero (strncmp path prefix n)

-- The last test that holds decides the type.
unfoldable pub file_type : List ℕ → List ℕ
file_type path =
    if starts path (bytes_of "/bin") 4
    then bytes_of "system_file_t"
    else if starts path (bytes_of "/etc") 4
    then bytes_of "config_file_t"
    else if starts path (bytes_of "/dev") 4
    then bytes_of "device_t"
    else if starts path (bytes_of "/proc") 5
    then bytes_of "proc_t"
    else if starts path (bytes_of "/sys") 4
    then bytes_of "system_file_t"
    else if starts path (bytes_of "/home") 5
    then bytes_of "user_home_t"
    else bytes_of "any_t"

unfoldable pub check_file : Blocksec → ℕ → ℕ → List ℕ → ℕ → Blocksec × Bool
unfolding file_type
check_file sec now pid path perm = check sec now pid (file_type path) class_file perm

-- snprintf(dst_str, 16, "pid_%u", dst)
unfoldable pub check_process : Blocksec → ℕ → ℕ → ℕ → ℕ → Blocksec × Bool
check_process sec now src dst perm =
    check sec now src (take 15 (bytes_of "pid_" ++ uint_to_str dst 10)) class_process perm

unfoldable pub check_network : Blocksec → ℕ → ℕ → ℕ → Blocksec × Bool
check_network sec now pid perm = check sec now pid (bytes_of "network_t") class_socket perm
