-- ===== src/Ipc/Queue/Spec.antt =====
-- What the message queues of kernel/ipc.c promise: each open queue is a first-in first-out list of
-- at most `msg_max` messages, a type and a text of at most `msg_max_size` bytes each.
use blockos.Prelude.{
  ℕ, Bool, true, false, List, [], ◌∷◌, ◌++◌, Option, none, some, ℤ, pos, minus_one, leb,
  if◌then◌else◌, is_some, set, take, length,
}
use blockos.Slots.{slot, slot_set, first_free}
use blockos.Ipc.Queue.{msg_max, msg_max_size, Call, creates, sends, recvs, destroys}

abbrev pub Text : Type 0
Text = ℕ × List ℕ

abbrev pub Table : Type 0
Table = List (Option (List Text))

pub data Reply : Type 0 where
  handle : ℤ → Reply
  done : Bool → Reply
  received : Option Text → Reply

unfoldable pub create_at : Table → Option ℕ → Table × Reply
create_at t none = (t, handle minus_one)
create_at t (some i) = (set t i (some []), handle (pos i))

-- A full queue refuses; a long text is cut.
unfoldable pub send_at : Table → ℤ → Option (Option (List Text)) → ℕ → List ℕ → Table × Reply
send_at t qid none type bs = (t, done false)
send_at t qid (some none) type bs = (t, done false)
send_at t qid (some (some q)) type bs =
    if leb msg_max (length q)
    then (t, done false)
    else (slot_set t qid (some (q ++ (type, take msg_max_size bs) ∷ [])), done true)

-- The oldest message comes first.
unfoldable pub recv_at : Table → ℤ → Option (Option (List Text)) → Table × Reply
recv_at t qid none = (t, received none)
recv_at t qid (some none) = (t, received none)
recv_at t qid (some (some [])) = (t, received none)
recv_at t qid (some (some (m ∷ q))) = (slot_set t qid (some q), received (some m))

unfoldable pub destroy_at : Table → ℤ → Option (Option (List Text)) → Table × Reply
destroy_at t qid none = (t, done false)
destroy_at t qid (some o) = (slot_set t qid none, done true)

unfoldable pub step : Table → Call → Table × Reply
unfolding create_at send_at recv_at destroy_at
step t (creates owner) = create_at t (first_free is_some t)
step t (sends qid type bs) = send_at t qid (slot t qid) type bs
step t (recvs qid) = recv_at t qid (slot t qid)
step t (destroys qid) = destroy_at t qid (slot t qid)

unfoldable pub run : Table → List Call → List Reply
run t [] = []
run t (c ∷ cs) = let (t', r) = step t c in r ∷ run t' cs
