-- ===== src/Arch.antt =====
-- kernel/arch: the loader of programs.
pub mod Elf
