-- ===== src/Ipc/Queue.antt =====
-- The message queues of kernel/ipc.c. The bytes `data[0 .. size)` of a send are a list, whose length
-- is `size`. The table `g_queues` is the list of its slots.
pub mod Spec
pub mod Refine
pub mod Sender
use blockos.Prelude.{
  ℕ, ◌-◌, ◌%◌, Bool, true, false, List, [], ◌∷◌, ◌++◌, Option, none, some, ℤ, pos, minus_one,
  if◌then◌else◌, ◌==◌, ltb, leb, modify, replicate, take, drop, length, get_or,
}
use blockos.Ring.{Ring, put, front, drop_front}
use blockos.Slots.{slot, slot_set, first_free}

-- IPC_MAX_QUEUES, IPC_MSG_MAX and IPC_MSG_MAX_SIZE
abbrev pub max_queues : ℕ
max_queues = 32

abbrev pub msg_max : ℕ
msg_max = 64

abbrev pub msg_max_size : ℕ
msg_max_size = 512

-- `ipc_message_t`
pub record Message : Type 0 where
  pub bytes : List ℕ
  pub size : ℕ
  pub sender_pid : ℕ
  pub type : ℕ

-- `ipc_queue_t`: `ring` is its messages, head, tail and count.
pub record Queue : Type 0 where
  pub ring : Ring Message
  pub active : Bool
  pub owner_pid : ℕ

unfoldable pub blank : Message
blank = record { bytes = replicate msg_max_size 0; size = 0; sender_pid = 0; type = 0 }

pub zeroed : Queue
unfolding blank
zeroed = record {
  ring = record { slots = replicate msg_max blank; head = 0; tail = 0; count = 0 };
  active = false;
  owner_pid = 0;
}

-- `ipc_init`, of this table
unfoldable pub init : List Queue
unfolding zeroed
init = replicate max_queues zeroed

opened : Queue → ℕ → Queue
opened q owner = record {
  ring = record { slots = q.ring.slots; head = 0; tail = 0; count = 0 };
  active = true;
  owner_pid = owner;
}

create_at : List Queue → Option ℕ → ℕ → List Queue × ℤ
unfolding opened
create_at t none owner = (t, minus_one)
create_at t (some i) owner = (modify t i (λ q. opened q owner), pos i)

pub create : List Queue → ℕ → List Queue × ℤ
unfolding create_at
create t owner = create_at t (first_free (λ q. q.active) t) owner

-- What a send leaves in the slot: `memcpy` overwrites the first `size` bytes only.
filled : Message → ℕ → List ℕ → Message
filled m type bs =
    let n = if ltb (length bs) msg_max_size then length bs else msg_max_size in
    record m { bytes = take n bs ++ drop n m.bytes; size = n; type = type }

send_open : List Queue → ℤ → Queue → ℕ → List ℕ → List Queue × Bool
unfolding filled
send_open t qid q type bs =
    if leb msg_max q.ring.count
    then (t, false)
    else (slot_set t qid (record q { ring = put msg_max q.ring msg }), true)
  where
    msg : Message
    msg = filled (get_or q.ring.slots (q.ring.tail % msg_max) blank) type bs

send_at : List Queue → ℤ → Option Queue → ℕ → List ℕ → List Queue × Bool
unfolding send_open
send_at t qid none type bs = (t, false)
send_at t qid (some q) type bs = if q.active then send_open t qid q type bs else (t, false)

pub send : List Queue → ℤ → ℕ → List ℕ → List Queue × Bool
unfolding send_at
send t qid type bs = send_at t qid (slot t qid) type bs

recv_open : List Queue → ℤ → Queue → List Queue × Option Message
recv_open t qid q =
    if q.ring.count == 0
    then (t, none)
    else (slot_set t qid (record q { ring = drop_front q.ring }), some (front msg_max blank q.ring))

recv_at : List Queue → ℤ → Option Queue → List Queue × Option Message
unfolding recv_open
recv_at t qid none = (t, none)
recv_at t qid (some q) = if q.active then recv_open t qid q else (t, none)

-- The message is what goes to `*msg` when the call returns true.
pub recv : List Queue → ℤ → List Queue × Option Message
unfolding recv_at
recv t qid = recv_at t qid (slot t qid)

destroy_at : List Queue → ℤ → Option Queue → List Queue × Bool
destroy_at t qid none = (t, false)
destroy_at t qid (some q) = (slot_set t qid (record q { active = false }), true)

pub destroy : List Queue → ℤ → List Queue × Bool
unfolding destroy_at
destroy t qid = destroy_at t qid (slot t qid)

-- The calls of the interface in any order, and what each returns.
pub data Call : Type 0 where
  creates : ℕ → Call
  sends : ℤ → ℕ → List ℕ → Call
  recvs : ℤ → Call
  destroys : ℤ → Call

pub data Reply : Type 0 where
  handle : ℤ → Reply
  done : Bool → Reply
  received : Option Message → Reply

pub step : List Queue → Call → List Queue × Reply
step t (creates owner) = let (t', qid) = create t owner in (t', handle qid)
step t (sends qid type bs) = let (t', b) = send t qid type bs in (t', done b)
step t (recvs qid) = let (t', m) = recv t qid in (t', received m)
step t (destroys qid) = let (t', b) = destroy t qid in (t', done b)

unfoldable pub run : List Queue → List Call → List Reply
run t [] = []
run t (c ∷ cs) = let (t', r) = step t c in r ∷ run t' cs
