-- ===== src/Mm.antt =====
-- kernel/mm: memory management.
pub mod Region
pub mod Phys
pub mod Slab
