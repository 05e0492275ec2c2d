-- ===== src/Fat.antt =====
-- bootloader/x86_64/bios/stage2/src/fat.rs: the FAT file system reader of the second stage.
pub mod Bpb
pub mod Table
pub mod Directory
pub mod File
pub mod Load
