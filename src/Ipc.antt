-- ===== src/Ipc.antt =====
-- kernel/ipc: message passing.
pub mod Queue
pub mod Ring
pub mod Port
