-- ===== src/Memory.antt =====
-- x86_64/src/memory.rs: memory regions, addresses, physical frames and virtual pages.
pub mod Region
pub mod Address
pub mod Bump
pub mod Frame
