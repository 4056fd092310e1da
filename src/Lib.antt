-- ===== src/Lib.antt =====
-- OpenASD: the kernel's core logic, as a development beside the C sources.
--
-- Parts, and the files that model them (paths from the repository's root):
--
-- Ipc.Ring: kernel/ipc/ringbuf.h, the ring buffer of slots that ports and synthetic files use.
--   `push`, `pop`, `push_batch` ... are `ringbuf_push`, `ringbuf_pop`, `ringbuf_push_batch` ...; each
--   takes the buffer and returns it. Ipc.Queue is what a buffer promises: a bounded queue.
-- Mm.Region: kernel/mm/mm.c, the sorted list of regions of an address space (`amm_region_add`,
--   `amm_region_remove`, `amm_region_find`, `amm_region_overlaps`) and the pool of regions.
-- Security.Audit, Security.RateLimit, Security.Policy: kernel/security/security.c, the audit log,
--   the limiter of failed logins and the check of writable and executable mappings. The limiter
--   takes the audit log as part of its state.
-- Ipc.Port: kernel/ipc/port.c, the table of ports; each port has a ring buffer of Ipc.Ring.
--   Ipc.Port.Messages sends and receives; a receiver that has to wait is a result, and the scheduler's
--   turns between its tries are not modelled.
-- Mm.Phys: kernel/mm/mm.c, the physical page allocator. `free_from`, `merge` and the other loops take
--   as fuel the number of pages, or of orders, that are left, which is enough since every turn takes
--   one at least. Mm.Phys.Boot reads the memory map and has the allocator of the early boot. Mm.Slab is
--   `kmalloc`; `order_for` has fuel 52, the number of page orders in 64 bits.
-- Usr: kernel/usr/usr.c. Usr.Db has the tables of users and groups and the calls on them, Usr.Hash
--   the password hash, Usr.Perm the permission check, Usr.Mask the group bits. Salts are arguments.
-- Vfs: kernel/vfs/vfs.c. Vfs.Path is `vfs_canonicalize`, with the length of the path as fuel, since
--   a turn of its loop takes at least one byte; Vfs.Backend is the record of function pointers of a
--   mounted file system, a parameter; Vfs.Mount finds the backend of a path, and Vfs.Node has the
--   table of open files and the calls, which use Vfs.Path, Vfs.Mount and, for ring files, Ipc.Ring,
--   with the number of bytes as fuel. The send call of kernel/ipc/port.c is an argument of
--   `vfs_write`.
-- Usr.Passwd: kernel/usr/usr.c, the passwd and group files. The loop over the lines has the length of the
--   text as fuel: a turn takes a byte at least. Usr.Passwd.Number and Usr.Passwd.Token have the
--   numbers and tokens, Usr.Passwd.Write and Usr.Passwd.Line what is written and read back,
--   Usr.Passwd.Run the loop without fuel, and Usr.Passwd.Reach the states that all calls of usr.c lead to.
-- Vfs.Ramfs: kernel/vfs/ramfs.c, the file system in memory, with the entries' bytes; what `kmalloc`
--   answers is an argument. Vfs.Ramfs.Bytes is about open files, Vfs.Ramfs.Rewrite about whole files,
--   Vfs.Ramfs.Listing is `ramfs_readdir`.
-- Sched: kernel/sched/sched.c. Sched.Tree has the red-black trees, where the parent pointers above a
--   node are a list of frames; Sched.Queue the run queues, with their locks, since calls take them
--   twice; Sched.Queue.Calls the calls on them, and Sched.Proc the process table. The search for a free
--   slot has the number of slots as fuel, which tries every slot.
-- Arch.Elf: kernel/arch/elf.c, copying to the memory of a program, its first stack, and in
--   Arch.Elf.Load the loading of segments, which adds regions of Mm.Region. A copy has the number of
--   its bytes as fuel: a turn copies one at least.
-- Block.Gpt: kernel/block/gpt.c, the sectors of a new partition table in the order in which they are
--   written, on a disk whose driver may fail.
--
-- Conventions: numbers are natural numbers, with the wrap-around of their width written out; a
-- signed argument that is only tested by bits is its bit pattern. A char array is the list of its
-- bytes, a C string the list of the bytes before its terminator. A null pointer is `none`. The
-- spinlocks make each operation atomic and are left out, but for those of the run queues. The clock, the entropy source and the
-- texts of messages are arguments. Loops recur on the list or the counter that they run over, so
-- no fuel is needed unless it is named above.
--
-- Not modelled: the boot loader, interrupt and context-switch code, device drivers, the consoles,
-- the installer and the userland programs, which are mostly input and output; the page tables; of the
-- scheduler what ends in assembly (the exit of a process and waiting for it) and work stealing.
pub mod Prelude
pub mod Arch
pub mod Block
pub mod Ipc
pub mod Mm
pub mod Sched
pub mod Security
pub mod Usr
pub mod Vfs
