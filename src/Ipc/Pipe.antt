-- ===== src/Ipc/Pipe.antt =====
-- The pipes of kernel/ipc.c. `data[0 .. size)` of a call is the list of its bytes, `bool` is Bool,
-- and a descriptor is an `int`, which may be negative. The table `g_pipes` is the list of its slots.
pub mod Spec
pub mod Refine
use blockos.Prelude.{
  ℕ, zero, suc, ◌≡◌, Bool, true, false, List, [], ◌∷◌, Option, none, some, ℤ, pos, minus_one,
  if◌then◌else◌, ◌==◌, leb, modify, replicate,
}
use blockos.Ring.{Ring, put, front, drop_front}
use blockos.Slots.{slot, slot_set, first_free}

-- IPC_MAX_PIPES and IPC_PIPE_SIZE
abbrev pub max_pipes : ℕ
max_pipes = 32

abbrev pub pipe_size : ℕ
pipe_size = 4096

-- `ipc_pipe_t`: `ring` is its data, head, tail and count.
pub record Pipe : Type 0 where
  pub ring : Ring ℕ
  pub active : Bool
  pub reader_pid : ℕ
  pub writer_pid : ℕ

pub zeroed : Pipe
zeroed = record {
  ring = record { slots = replicate pipe_size 0; head = 0; tail = 0; count = 0 };
  active = false;
  reader_pid = 0;
  writer_pid = 0;
}

-- `ipc_init`, of this table
unfoldable pub init : List Pipe
unfolding zeroed
init = replicate max_pipes zeroed

-- The data of an earlier use stays where it was.
pub opened : Pipe → ℕ → ℕ → Pipe
opened p rpid wpid = record {
  ring = record { slots = p.ring.slots; head = 0; tail = 0; count = 0 };
  active = true;
  reader_pid = rpid;
  writer_pid = wpid;
}

create_at : List Pipe → Option ℕ → ℕ → ℕ → List Pipe × ℤ
unfolding opened
create_at t none rpid wpid = (t, minus_one)
create_at t (some i) rpid wpid = (modify t i (λ p. opened p rpid wpid), pos i)

pub create : List Pipe → ℕ → ℕ → List Pipe × ℤ
unfolding create_at
create t rpid wpid = create_at t (first_free (λ p. p.active) t) rpid wpid

-- The loop of `ipc_pipe_write`: it stops at the first byte that finds the pipe full.
pub write_loop : Ring ℕ → List ℕ → Ring ℕ × Bool
write_loop r [] = (r, true)
write_loop r (b ∷ data') =
    let rest = write_loop (put pipe_size r b) data' in
    if leb pipe_size r.count then (r, false) else rest

write_open : List Pipe → ℤ → Pipe → List ℕ → List Pipe × Bool
unfolding write_loop
write_open t fd p data' =
    let (r, done) = write_loop p.ring data' in (slot_set t fd (record p { ring = r }), done)

write_at : List Pipe → ℤ → Option Pipe → List ℕ → List Pipe × Bool
unfolding write_open
write_at t fd none data' = (t, false)
write_at t fd (some p) data' = if p.active then write_open t fd p data' else (t, false)

pub write : List Pipe → ℤ → List ℕ → List Pipe × Bool
unfolding write_at
write t fd data' = write_at t fd (slot t fd) data'

-- The loop of `ipc_pipe_read`, `size - n` rounds from its end; the bytes go to `buf`.
pub read_loop : ℕ → Ring ℕ → List ℕ × Ring ℕ
read_loop zero r = ([], r)
read_loop (suc n) r =
    let rest = read_loop n (drop_front r) in
    if r.count == 0 then ([], r) else (front pipe_size 0 r ∷ rest.0, rest.1)

read_open : List Pipe → ℤ → Pipe → ℕ → List Pipe × List ℕ
unfolding read_loop
read_open t fd p size =
    let (bytes, r) = read_loop size p.ring in (slot_set t fd (record p { ring = r }), bytes)

read_at : List Pipe → ℤ → Option Pipe → ℕ → List Pipe × List ℕ
unfolding read_open
read_at t fd none size = (t, [])
read_at t fd (some p) size = if p.active then read_open t fd p size else (t, [])

-- The value returned is the number of bytes that `buf` got.
pub read : List Pipe → ℤ → ℕ → List Pipe × List ℕ
unfolding read_at
read t fd size = read_at t fd (slot t fd) size

close_at : List Pipe → ℤ → Option Pipe → List Pipe × Bool
close_at t fd none = (t, false)
close_at t fd (some p) = (slot_set t fd (record p { active = false }), true)

-- A descriptor in range is closed, open or not.
pub close : List Pipe → ℤ → List Pipe × Bool
unfolding close_at
close t fd = close_at t fd (slot t fd)

-- The calls of the interface in any order, and what each returns.
pub data Call : Type 0 where
  creates : ℕ → ℕ → Call
  writes : ℤ → List ℕ → Call
  reads : ℤ → ℕ → Call
  closes : ℤ → Call

pub data Reply : Type 0 where
  handle : ℤ → Reply
  done : Bool → Reply
  bytes : List ℕ → Reply

pub step : List Pipe → Call → List Pipe × Reply
step t (creates rpid wpid) = let (t', fd) = create t rpid wpid in (t', handle fd)
step t (writes fd data') = let (t', b) = write t fd data' in (t', done b)
step t (reads fd size) = let (t', bs) = read t fd size in (t', bytes bs)
step t (closes fd) = let (t', b) = close t fd in (t', done b)

unfoldable pub run : List Pipe → List Call → List Reply
run t [] = []
run t (c ∷ cs) = let (t', r) = step t c in r ∷ run t' cs
