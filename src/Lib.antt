-- ===== src/Lib.antt =====
-- SabakaOS: a 32-bit hobby kernel in C++.
--
-- The parts that are modelled, with the file of the kernel and the module:
--   kernel/kstring.cpp            KString: memory, text and number routines, which the others call
--   kernel/mutex.cpp              Mutex: mutexes and semaphores
--   kernel/process.h, kernel/scheduler.cpp, kernel/context_switch.asm
--                                 Scheduler: the process table and the round-robin choice
--   kernel/pipe.cpp               Pipe: byte pipes between processes
--   kernel/net_queue.cpp          NetQueue: packets between the card's interrupt and the main loop
--   kernel/net.cpp                UdpHandlers: the table of UDP handlers; ip_from_str is in Dns
--   kernel/udp_listen.cpp         UdpListen: listeners, which register handlers in that table
--   kernel/keyboard.cpp           Keyboard: from USB reports to a buffer of characters
--   kernel/pmm.cpp                Pmm: the bitmap of physical pages
--   kernel/tcp.cpp                Tcp: sockets, what they send, and the segments that come in
--   kernel/env_vars.cpp           EnvVars: the environment variables
--   kernel/elf_loader.cpp         Elf: the loader of programs, with paging_alloc_region a parameter
--   kernel/osmath.cpp             OsMath: the evaluator of expressions
--   kernel/vfs.cpp                Vfs: the tree of nodes and its file system in memory
--   kernel/heap.cpp               Heap: the list of blocks of the kernel's heap
--   kernel/dns.cpp                Dns: names in packets, answers, the cache, and the resolver
--   kernel/fat32.cpp              Fat32: the mount, the table of clusters, and names, over the calls of
--                                 kernel/ata.cpp as an interface
--
-- Each module has the state of its file as a record, one function for each operation under the
-- operation's name, and child modules with what is proved of them. Common holds what they share:
-- Boolean tests, C arrays as functions of the index (Arrays), counted loops (Scan), rings (Ring),
-- fixed-width words and `int` (Words, Int), bits (Bits) and page masks (Masks).
--
-- Conventions. Numbers are natural numbers; a result that may leave its width is cut to it where
-- the source's type does. A null pointer, or the failure of a call, is `none`. What the source reads
-- from elsewhere is an argument: the tick counter, the answer of `kmalloc`, the addresses that the
-- linker fixes. A part between `cli` and `sti` is one step. Where a process yields, the others may
-- do anything to the shared state, which is the parameter `others`; a loop that waits takes fuel,
-- and `none` says that it still waits. A pipe_write of `len` bytes needs `2 * len + 2` rounds if
-- the others make room whenever it waits, a mutex_lock two if they free the mutex. The digits of
-- a `uint32_t` need 32 rounds.
--
-- Not modelled: drivers, interrupts and their tables, display, shell, and the parts of the kernel
-- that are not named above. What a write past the end of an array overwrites is not modelled, nor
-- what a signed overflow gives: the theorems about vfs.cpp keep to names and writes that fit and to
-- nodes in memory, those about env_vars.cpp to a table with room, those about kstring.cpp to numbers
-- that an `int32_t` holds with their negation. In mutex.cpp locks may be nested; that two threads
-- exclude each other needs that they are not. In pipe.cpp an interrupt between the test of the count
-- and `cli` is left out, and so is what memory the stack of a process overlaps with. In tcp.cpp the
-- checksums and the Ethernet header are left out.
pub mod Common
pub mod KString
pub mod NetQueue
pub mod UdpHandlers
pub mod UdpListen
pub mod Pipe
pub mod Keyboard
pub mod Scheduler
pub mod Mutex
pub mod Pmm
pub mod Tcp
pub mod EnvVars
pub mod Elf
pub mod OsMath
pub mod Vfs
pub mod Heap
pub mod Dns
pub mod Fat32
