-- ===== src/Lib.antt =====
-- BlockOS: the kernel's data structures and the services built on them, as pure functions, with the
-- theorems that make them correct.
--
-- The program is a C kernel for 32-bit x86, without a C library of its own machine: `kernel/generic.c`
-- has the allocator and the string functions that everything else calls, `kernel/` has paging,
-- scheduling and inter-process communication, `blocksec.c` decides who may access what, and drivers,
-- file systems, windows and tools use these. All state is in static variables, so a model of a part
-- is a record of those variables and one function per call, from the state to the state and the
-- result.
--
-- Which file models what:
--   Prelude      names of the libraries, texts, Boolean tests and lists over machine numbers
--   Slots        tables of slots with an `active` flag, as in kernel/ipc.c (`g_pipes`, `g_queues`)
--   Ring         circular buffers with head, tail and count, as in kernel/ipc.h
--   Heap         malloc of kernel/generic.c; addresses are offsets into `heap`
--   Strings      strcmp, strncmp, strncpy, strchr, strrchr of kernel/generic.c; Tokens has strtok
--   Numbers      uint_to_str of kernel/generic.c, atoi and itoa of libc/libc.c
--   Ipc          kernel/ipc.c and kernel/ipc.h: Pipe, Queue and Shmem, one for each table
--   Vmm          kernel/vmm.c: page tables, in memory that `malloc` hands out
--   Blocksec     blocksec.c and blocksec.h: Policy has the default rules, Access the decision and
--                the log
--   Vfs          vfs.c and vfs.h: the mount table and the descriptors; Files has the calls that go to
--                a file system
--   Scheduler    kernel/scheduler.c: the queue and the choice of the next process; the processes are
--                parameters
--   Blockedit    texteditor/blockedit.c: lines and cursor of the editor
--   Ramfs        fs/ramfs.c and fs/ramfs.h: the tree of inodes, for paths that fit the
--                buffers; Ops has the calls on it, Data the open files, Default the first structure
--                and the initial disk
--   Blockpkg     pkgmgr/blockpkg.c and pkgmgr/blockpkg.h: packages and their dependencies
--   Blockwm      wm/blockwm.c and wm/blockwm.h: windows, focus and order; Compose has the sorting,
--                Mouse the mouse
--   Guiterm      terminal/guiterm.c and terminal/guiterm.h: cells, cursor, scrolling, the typed line
--   Shell        shell/shell.c: which command a line calls
--   Word         an `int` as its bit pattern
--   Contextmenu  contextmenu.c and contextmenu.h: items and the mouse
--   Keyboard     drivers/keyboard.c and drivers/keyboard.h: scan codes and the buffer of characters
--   Audio        drivers/audio.c and drivers/audio.h: settings and the buffer
--   Network      network/network.c and network/network.h: checksum, counters, sockets
--
-- How they interact: Ipc.Shmem and Vmm call `malloc` of Heap and carry its `heap_ptr`; Blocksec
-- compares texts with Strings and prints process numbers with Numbers, as Network does for
-- addresses; Vfs compares paths with Strings and takes the file systems as a record of operations
-- (Vfs.Files.FileSystems), as Scheduler takes the processes (Scheduler.Processes); the pipes and
-- queues of Ipc are Slots of Rings, and Vfs and Network keep their tables in Slots; Ramfs takes its
-- inodes from `malloc` and its paths apart with `strtok`, Blockwm has its framebuffers from `malloc`,
-- and a line typed into Guiterm goes to Shell.
--
-- Numbers: a uint32_t is a natural number, and where the code can wrap, `% 2 ^ 32` is written out. An
-- `int` that the code treats as a bit pattern is one too; an `int` that serves as an index or an
-- error code is an integer. A C string is the list of its bytes before the NUL.
--
-- Bounds and fuel: the loops over arrays are recursions on lists. `digits_loop` of Numbers runs for at
-- most as many rounds as the number it prints, which is enough since each round divides it by the
-- base; `fold_carries` of Network runs for two rounds, which is enough for a sum of 32 bits;
-- `map_identity` of Vmm, `log_entries` of Blocksec and the loops of Scheduler run for the number of
-- rounds that the loop has; `all_tokens` of Strings.Tokens runs for as many rounds as the text has
-- bytes, which is enough since a token has one at least; `pkgmgr_install` of Blockpkg calls itself as deep as its fuel, and
-- with dependencies that make no cycle a fuel of two more than the rank of the package is enough.
--
-- Not modelled: drawing and video memory, port I/O, the processor's own tables and registers,
-- assembly, the tools that only print, and code that depends on headers which the repository does
-- not contain (process.h, fat32.h), where the use of it cannot be separated.
pub mod Audio
pub mod Blockedit
pub mod Blockpkg
pub mod Blocksec
pub mod Blockwm
pub mod Contextmenu
pub mod Guiterm
pub mod Heap
pub mod Ipc
pub mod Keyboard
pub mod Network
pub mod Numbers
pub mod Prelude
pub mod Ramfs
pub mod Ring
pub mod Scheduler
pub mod Shell
pub mod Slots
pub mod Strings
pub mod Vfs
pub mod Vmm
pub mod Word
