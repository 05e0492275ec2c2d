-- ===== src/Lib.antt =====
-- MiniatureOs: a boot loader in four stages and a small kernel for x86-64, in Rust. The first stages
-- read the kernel from a FAT partition through the BIOS; the fourth builds page tables for it with
-- frames of a bump allocator and jumps to it; the kernel has a buddy heap allocator.
--
-- The parts, and the files that model them (paths from the root of the repository):
--
-- Base, with its children: lists, words and their bits, and `Run`, the result of a computation that
-- may panic. The crates are built with overflow checks (the profiles of Cargo.toml), so `+`, `-` and
-- `*` panic where Rust would wrap. A `u64` or `usize` is a number below its modulus.
-- Buddy: kernel/src/allocator/buddy_allocator.rs. `Buddies` is `BuddyAllocator` with the memory in
-- which its lists live, read as a `Chunk` at each address; `alloc_class` is `alloc` for a computed
-- class, `merge` the loop of `dealloc`. Buddy/Chain is about lists in memory, Buddy/Cover about the
-- memory that free blocks cover, Buddy/Rep, Lists, Blocks, Alloc, Layouts, Dealloc and Roundtrip about
-- the allocator; Buddy/Region has `add_region` and its callers, Buddy/Lowbit and Tile are about them.
-- Its lists are valid (`Holds` of Buddy/Rep) if the memory holds the chains of the 20 classes, whose
-- chunks are aligned blocks of their class that do not overlap and have their size in their headers.
-- Memory: x86_64/src/memory.rs with the E820 regions of bootloader/x86_64/bios/common/src/lib.rs.
-- Memory/Bump is x86_64/src/paging/bump_frame_allocator.rs.
-- Paging: x86_64/src/paging. Paging/Crates is what the code uses of the crates `bit_field` and
-- `bitflags`, a parameter with their documented behaviour; Paging/Entry the entries and flags;
-- Paging/Table the tables in memory; Paging/Mapper the walk and `map_to`, `unmap`, `translate`, over
-- a frame allocator as a parameter. Below it, Tree gives the abstract view (the entry that a path of
-- indices stands for), Grow, Extend, Fresh, Step and Make are about the tables that `map_to` adds,
-- Leaf about the entry that it writes, Supply has the laws of the allocator and of the offset mapping
-- as interfaces, and Map, Pages, Translate, Remove, Unmap and Huge the operations on that view.
-- Paging/Boot fills the interfaces with the bump allocator and `PhysicalOffset`. The tables hold pages
-- of one size.
-- Disk: bootloader/x86_64/bios/stage2/src/disk.rs and dap.rs. The BIOS is the parameter `load`, what
-- a packet does to the memory; `Bios` states the documented INT 13h.
-- Fat: bootloader/x86_64/bios/stage2/src/fat.rs. The file system works on any disk with the
-- operations `ReadSeek` and `Disk`; Disk/Bytes and Disk/Files give those of `DiskAccess`, and show
-- that they read a partition. Fat/Directory is the root directory (Slots, Long and Items how its
-- entries are laid out, Names the characters of long names, Find the search), Fat/Load the loading of
-- a file. A `char` is its code point.
-- Gdt: x86_64/src/gdt.rs, the size of the TSS from x86_64/src/tss.rs, the privilege levels from
-- x86_64/src/lib.rs.
-- Mbr: bootloader/x86_64/bios/common/src/mbr.rs (and its copy in bootloader/x86_64/bios/mbr/src).
-- Mutex: x86_64/src/mutex.rs, as a step relation on a lock and its threads, whose atomic actions are
-- taken one after the other.
-- Idt: x86_64/src/idt.rs and the table that kernel/src/interrupts/mod.rs builds; Gates is about the
-- entries as the processor reads them, Kernel about that table.
-- IntrusiveList: util/intrusive_linked_list/src/lib.rs, the nodes in a heap by their addresses. Links
-- is about linked nodes, Deque about the list as a double-ended queue.
-- Stage4: bootloader/x86_64/bios/stage4/src/main.rs. MemoryMap is the map that the kernel is given,
-- with Free (which addresses are free in it) and Rounds (its loop); Stack is the kernel stack, built
-- with the mapper and the frame allocator, with Guarded about its pages. Paging/Mapper/Enough has the
-- calls of the mapper when there are frames to spare. Elf is `KernelLoader` of
-- bootloader/x86_64/bios/stage4/src/elf.rs: the bytes of the frames that hold the kernel are kept apart
-- from the words of the page tables. Its children are about the loop over the frames of the file
-- (Frames), the zeros behind it (Zeros), and a whole segment (Segment).
-- Vesa: bootloader/x86_64/bios/stage2/src/vesa.rs, the BIOS calls as a parameter; Best is about the
-- choice of the mode.
-- Tests: runs and applications at concrete inputs.
--
-- Loops over data run on fuel where the data alone bounds them: the search in a list of the
-- allocator (one more than its length is enough), the cutting of a region (one more than its bytes),
-- a directory (one more than its items), the iterator of a file (one more than its chain of
-- clusters), the list of display modes (one more than its modes), a range of frames
-- (two more than its last index), the packets of a read (one for each sector). The loops over size
-- classes are bounded by the 20 classes.
--
-- Not modelled: assembly, port and register access, printing, the build scripts, and so far the
-- other stages' main functions, and the interrupt controller; `FATFileSystem::parse` of the file system;
-- the ELF parser, a third-party crate, whose headers and relocations are arguments. A header in the
-- heap is one cell at its address, so two headers closer than 16 bytes are not seen to overlap, and a
-- client that writes to bytes is taken to change the cells at those addresses.
pub mod Base
pub mod Buddy
pub mod Disk
pub mod Fat
pub mod Gdt
pub mod Idt
pub mod IntrusiveList
pub mod Mbr
pub mod Mutex
pub mod Memory
pub mod Paging
pub mod Stage4
pub mod Vesa
mod Tests
