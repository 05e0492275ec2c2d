-- ===== src/Stage4.antt =====
-- The fourth boot stage (bootloader/x86_64/bios/stage4/src).
pub mod MemoryMap
pub mod Stack
pub mod Elf
