-- ===== src/Blocksec/Log.antt =====
-- The log of blocksec.c is a ring of 512 entries: `blocksec_get_log` hands out the latest ones, the
-- oldest of them first.
use blockos.Prelude.{
  ℕ, zero, suc, ◌+◌, ◌-◌, ◌%◌, ◌^◌, ◌≤◌, ◌<◌, ◌≡◌, refl, ap, ◌∙◌, min, Bool, List, [], ◌∷◌, some,
  arith, if◌then◌else◌, ltb, get_elem?, get_or, set, length, length-set, get_elem?-set_self,
  get_elem?-set_ne, length-replicate,
}
use blockos.Blocksec.{Blocksec, LogEntry, log_size, inc32}
use blockos.Blocksec.Access.{blocksec_log, blank_entry, log_entries, get_log}
use blockos.Blocksec.Policy.{init}
use blockos.Strings.{strncpy}

-- The arguments of a call of `blocksec_log`, and the entry that it makes.
pub record Event : Type 0 where
  pub now : ℕ
  pub pid : ℕ
  pub source : List ℕ
  pub target : List ℕ
  pub class : ℕ
  pub perm : ℕ
  pub allowed : Bool

abbrev pub entry_of : Event → LogEntry
entry_of e = record {
  timestamp = e.now;
  pid = e.pid;
  source = strncpy e.source 31;
  target = strncpy e.target 31;
  class = e.class;
  perm = e.perm;
  allowed = e.allowed;
}

abbrev pub log_event : Blocksec → Event → Blocksec
log_event sec e = blocksec_log sec e.now e.pid e.source e.target e.class e.perm e.allowed

unfoldable pub log_all : Blocksec → List Event → Blocksec
log_all sec [] = sec
log_all sec (e ∷ es) = log_all (log_event sec e) es

-- All entries, the latest first.
unfoldable pub history : List LogEntry → List Event → List LogEntry
history hist [] = hist
history hist (e ∷ es) = history (entry_of e ∷ hist) es

-- The ring holds the latest entries of `hist`, going back from the head.
pub record IsLog (hist : List LogEntry) (sec : Blocksec) : Type 0 where
  storage : length sec.log ≡ log_size
  head_small : sec.log_head < 2 ^ 32
  counted : sec.log_count ≡ min log_size (length hist)
  kept :
      (k : ℕ) (a : LogEntry)
      → k < log_size
      → get_elem? hist k ≡ some a
      → get_elem? sec.log ((sec.log_head + 2 ^ 32 - 1 - k) % log_size) ≡ some a

kept-log :
    (hist : List LogEntry) (sec : Blocksec) (e : Event)
    → IsLog hist sec
    → (k : ℕ) (a : LogEntry) → k < log_size
    → get_elem? (entry_of e ∷ hist) k ≡ some a
    → get_elem?
        (set sec.log (sec.log_head % log_size) (entry_of e))
        ((inc32 sec.log_head + 2 ^ 32 - 1 - k) % log_size)
      ≡ some a
kept-log hist sec e v zero a h g =
    let at : (inc32 sec.log_head + 2 ^ 32 - 1 - 0) % log_size ≡ sec.log_head % log_size =
      omega (arith, v.head_small) in
    rw at (
      get_elem?-set_self sec.log (sec.log_head % log_size) (entry_of e) (omega (arith, v.storage))
      ∙ g)
kept-log hist sec e v (suc k) a h g =
    let at : (inc32 sec.log_head + 2 ^ 32 - 1 - suc k) % log_size
        ≡ (sec.log_head + 2 ^ 32 - 1 - k) % log_size =
      omega (arith, v.head_small) in
    rw at (
      get_elem?-set_ne sec.log (sec.log_head % log_size)
        ((sec.log_head + 2 ^ 32 - 1 - k) % log_size) (entry_of e) (omega (arith, v.head_small))
      ∙ v.kept k a (omega arith) g)

log_event-IsLog :
    (hist : List LogEntry) (sec : Blocksec) (e : Event)
    → IsLog hist sec
    → IsLog (entry_of e ∷ hist) (log_event sec e)
unfolding blocksec_log
log_event-IsLog hist sec e v = record {
  storage = length-set sec.log (sec.log_head % log_size) (entry_of e) ∙ v.storage;
  head_small = omega arith;
  counted = ground (arith, v.counted);
  kept = kept-log hist sec e v;
}

log_all-IsLog :
    (hist : List LogEntry) (sec : Blocksec) (es : List Event)
    → IsLog hist sec
    → IsLog (history hist es) (log_all sec es)
unfolding history log_all
log_all-IsLog hist sec [] v = v
log_all-IsLog hist sec (e ∷ es) v =
    log_all-IsLog (entry_of e ∷ hist) (log_event sec e) es (log_event-IsLog hist sec e v)

init-IsLog : (base : Blocksec) → IsLog [] (init base)
unfolding init
init-IsLog base = record {
  storage = length-replicate {A = LogEntry} log_size blank_entry;
  head_small = omega arith;
  counted = refl;
  kept = λ k a h g. absurd (cc g);
}

get_or-of_get :
    (xs : List LogEntry) (i : ℕ) (d : LogEntry) {a : LogEntry}
    → get_elem? xs i ≡ some a
    → get_or xs i d ≡ a
get_or-of_get [] i d e = ground arith
get_or-of_get (x ∷ xs) zero d e = ground arith
get_or-of_get (x ∷ xs) (suc i) d e = get_or-of_get xs i d e

length-log_entries :
    (sec : Blocksec) (n rounds from : ℕ) → length (log_entries sec n rounds from) ≡ rounds
unfolding log_entries
length-log_entries sec n zero from = refl
length-log_entries sec n (suc rounds) from = ap suc (length-log_entries sec n rounds (from + 1))

-- Round `i` of the copy is the entry `i` places after the `n`-th from the end.
get-log_entries :
    (sec : Blocksec) (n rounds from i : ℕ)
    → i < rounds
    → get_elem? (log_entries sec n rounds from) i
      ≡ some (
          get_or sec.log ((sec.log_head + 2 ^ 32 - n + (from + i)) % 2 ^ 32 % log_size) blank_entry)
unfolding log_entries
get-log_entries sec n zero from i h = elim h [ ]
get-log_entries sec n (suc rounds) from zero h =
    ap
      (λ t. some (get_or sec.log ((sec.log_head + 2 ^ 32 - n + t) % 2 ^ 32 % log_size) blank_entry))
      (omega arith)
get-log_entries sec n (suc rounds) from (suc i) h =
    get-log_entries sec n rounds (from + 1) i (omega arith)
    ∙ ap
        (λ t.
          some (get_or sec.log ((sec.log_head + 2 ^ 32 - n + t) % 2 ^ 32 % log_size) blank_entry))
        (omega arith)

-- The number of entries that `blocksec_get_log` copies.
abbrev pub copied : Blocksec → ℕ → ℕ
copied sec max = if ltb sec.log_count max then sec.log_count else max

get_log-recent :
    (hist : List LogEntry) (sec : Blocksec) (max i : ℕ) {a : LogEntry}
    → IsLog hist sec
    → i < copied sec max
    → get_elem? hist (copied sec max - 1 - i) ≡ some a
    → get_elem? (get_log sec max) i ≡ some a
unfolding get_log
get_log-recent hist sec max i {a} v h g =
    let n : ℕ = copied sec max in
    let few : n ≤ log_size = ground (arith, v.counted) in
    let at : (sec.log_head + 2 ^ 32 - n + (0 + i)) % 2 ^ 32 % log_size
        ≡ (sec.log_head + 2 ^ 32 - 1 - (n - 1 - i)) % log_size =
      omega (arith, v.head_small) in
    get-log_entries sec n n 0 i h
    ∙ ap some (
        ap (λ t. get_or sec.log t blank_entry) at
        ∙ get_or-of_get sec.log _ blank_entry (v.kept (n - 1 - i) a (omega arith) g))

-- After `blocksec_init` and any events, `blocksec_get_log` copies as many entries as there are, up to
-- 512 and to the number asked for, and they are the latest ones, in the order of the events
-- (stated at any index `i` of the copy).
pub get_log-history :
    (base : Blocksec) (es : List Event) (max i : ℕ) (a : LogEntry)
    → i < min max (min log_size (length (history [] es)))
    → get_elem? (history [] es) (min max (min log_size (length (history [] es))) - 1 - i) ≡ some a
    → (length (get_log (log_all (init base) es) max)
        ≡ min max (min log_size (length (history [] es))))
      × (get_elem? (get_log (log_all (init base) es) max) i ≡ some a)
get_log-history base es max i a h g =
    let sec : Blocksec = log_all (init base) es in
    let v : IsLog (history [] es) sec = log_all-IsLog [] (init base) es (init-IsLog base) in
    let n : copied sec max ≡ min max (min log_size (length (history [] es))) =
      ground (arith, v.counted) in
    (
      unfold get_log in (length-log_entries sec _ _ 0 ∙ n),
      get_log-recent (history [] es) sec max i v (rw n h) (rw n g),
    )
