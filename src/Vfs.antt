-- ===== src/Vfs.antt =====
-- kernel/vfs/vfs.c and vfs.h: paths, mounted backends, open files. The spin lock around every
-- operation makes it one step.
pub mod Path
pub mod Backend
pub mod Mount
pub mod Node
pub mod Ramfs
