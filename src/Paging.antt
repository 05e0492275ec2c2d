-- ===== src/Paging.antt =====
-- x86_64/src/paging: page table entries, the four-level walk, mapping, unmapping and translation.
pub mod Crates
pub mod Entry
pub mod Table
pub mod Mapper
pub mod Boot
