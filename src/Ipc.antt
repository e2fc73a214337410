-- ===== src/Ipc.antt =====
-- kernel/ipc.c and kernel/ipc.h: pipes, message queues and shared memory segments, three fixed
-- tables of slots. Each child holds the definitions of one table, and its children the proofs.
pub mod Pipe
pub mod Queue
pub mod Shmem
pub mod Tests
