-- ===== src/Sched.antt =====
-- kernel/sched/sched.c and sched.h: the red-black trees of the run queues, the queues of a processor,
-- the process table.
pub mod Tree
pub mod Queue
pub mod Proc
