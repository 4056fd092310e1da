-- ===== src/Block.antt =====
-- kernel/block: the layout of partitions on a disk.
pub mod Gpt
