-- ===== src/Ipc/Pipe/Spec.antt =====
-- What the pipes of kernel/ipc.c promise: each open descriptor is a queue of at most `pipe_size`
-- bytes. There are no arrays and no counters here; a closed slot is `none`.
use blockos.Prelude.{
  ℕ, ◌-◌, true, false, List, [], ◌∷◌, ◌++◌, Option, none, some, ℤ, pos, minus_one, leb, is_some,
  set, take, drop, length,
}
use blockos.Slots.{slot, slot_set, first_free}
use blockos.Ipc.Pipe.{pipe_size, Call, Reply, creates, writes, reads, closes, handle, done, bytes}

abbrev pub Table : Type 0
Table = List (Option (List ℕ))

unfoldable pub create_at : Table → Option ℕ → Table × Reply
create_at t none = (t, handle minus_one)
create_at t (some i) = (set t i (some []), handle (pos i))

-- A write appends what fits, and succeeds when everything did.
unfoldable pub write_at : Table → ℤ → Option (Option (List ℕ)) → List ℕ → Table × Reply
write_at t fd none bs = (t, done false)
write_at t fd (some none) bs = (t, done false)
write_at t fd (some (some q)) bs = (
  slot_set t fd (some (q ++ take (pipe_size - length q) bs)),
  done (leb (length bs) (pipe_size - length q)),
)

-- A read takes the oldest bytes.
unfoldable pub read_at : Table → ℤ → Option (Option (List ℕ)) → ℕ → Table × Reply
read_at t fd none size = (t, bytes [])
read_at t fd (some none) size = (t, bytes [])
read_at t fd (some (some q)) size = (slot_set t fd (some (drop size q)), bytes (take size q))

unfoldable pub close_at : Table → ℤ → Option (Option (List ℕ)) → Table × Reply
close_at t fd none = (t, done false)
close_at t fd (some o) = (slot_set t fd none, done true)

unfoldable pub step : Table → Call → Table × Reply
unfolding create_at write_at read_at close_at
step t (creates rpid wpid) = create_at t (first_free is_some t)
step t (writes fd bs) = write_at t fd (slot t fd) bs
step t (reads fd size) = read_at t fd (slot t fd) size
step t (closes fd) = close_at t fd (slot t fd)

unfoldable pub run : Table → List Call → List Reply
run t [] = []
run t (c ∷ cs) = let (t', r) = step t c in r ∷ run t' cs
