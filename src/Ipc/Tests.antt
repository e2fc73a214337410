-- ===== src/Ipc/Tests.antt =====
-- Runs of the three tables of kernel/ipc.c, and the theorems about them at concrete inputs.
use blockos.Prelude.{
  ◌≡◌, refl, ◌+◌, ◌≤◌, ◌⊎◌, true, false, List, [], ◌∷◌, none, some, pos, negsuc, arith, map,
}
use blockos.Heap.{malloc}
use blockos.Slots.{first_free, slot_set}
use blockos.Slots.Laws.{All}
use blockos.Ipc.Pipe
use blockos.Ipc.Pipe.Spec as PipeSpec
use blockos.Ipc.Pipe.Refine.{pipe_run-init}
use blockos.Ipc.Queue
use blockos.Ipc.Queue.Spec as QueueSpec
use blockos.Ipc.Queue.Refine.{see, queue_run-init}
use blockos.Ipc.Queue.Sender.{Unsigned, queue_run-Unsigned}
use blockos.Ipc.Shmem
use blockos.Ipc.Shmem.Disjoint.{attach_apart}

abbrev pipe_script : List Pipe.Call
pipe_script =
    Pipe.creates 1 2
    ∷ Pipe.writes (pos 0) (7 ∷ 8 ∷ 9 ∷ [])
    ∷ Pipe.reads (pos 0) 2
    ∷ Pipe.reads (pos 5) 2
    ∷ Pipe.closes (pos 0)
    ∷ Pipe.reads (pos 0) 1
    ∷ Pipe.closes (negsuc 0)
    ∷ []

pipe_run-init_example :
    Pipe.run Pipe.init pipe_script
    ≡ Pipe.handle (pos 0)
      ∷ Pipe.done true
      ∷ Pipe.bytes (7 ∷ 8 ∷ [])
      ∷ Pipe.bytes []
      ∷ Pipe.done true
      ∷ Pipe.bytes []
      ∷ Pipe.done false
      ∷ []
unfolding PipeSpec.run PipeSpec.step first_free slot_set
pipe_run-init_example = pipe_run-init pipe_script

abbrev queue_script : List Queue.Call
queue_script =
    Queue.creates 4
    ∷ Queue.sends (pos 0) 1 (7 ∷ [])
    ∷ Queue.sends (pos 0) 2 (8 ∷ 9 ∷ [])
    ∷ Queue.recvs (pos 0)
    ∷ Queue.recvs (pos 1)
    ∷ []

queue_run-init_example :
    map see (Queue.run Queue.init queue_script)
    ≡ QueueSpec.handle (pos 0)
      ∷ QueueSpec.done true
      ∷ QueueSpec.done true
      ∷ QueueSpec.received (some (1, 7 ∷ []))
      ∷ QueueSpec.received none
      ∷ []
unfolding QueueSpec.run QueueSpec.step first_free slot_set
queue_run-init_example = queue_run-init queue_script

queue_run-Unsigned_example : All Unsigned (Queue.run Queue.init queue_script)
queue_run-Unsigned_example = queue_run-Unsigned queue_script

abbrev segment_calls : List Shmem.Call
segment_calls = Shmem.creates 5 100 ∷ Shmem.creates 6 30 ∷ []

abbrev segments : Shmem.Shmem
segments = Shmem.after (Shmem.init 8) segment_calls

attach_apart_example : (8 + 100 ≤ 108) ⊎ (108 + 30 ≤ 8)
unfolding Shmem.after Shmem.init Shmem.create Shmem.attach first_free malloc
attach_apart_example =
    attach_apart 8 segment_calls 0 1 8 108
      (record { addr = some 8; size = 100; key = 5; active = true; owner_pid = 0 })
      (record { addr = some 108; size = 30; key = 6; active = true; owner_pid = 0 }) (omega arith)
      (omega arith) (omega arith) refl refl refl refl
