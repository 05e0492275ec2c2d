-- ===== src/Buddy.antt =====
-- kernel/src/allocator/buddy_allocator.rs: the buddy heap allocator. Free chunks hold their own
-- list nodes: `heap` is the memory read as a `Chunk` header at each address, so a header is
-- assumed not to overlap another one. A null chunk pointer panics in `NonNull::new(..).unwrap()`.
pub mod Chain
pub mod Cover
pub mod Rep
mod Lists
mod Blocks
pub mod Alloc
pub mod Dealloc
pub mod Layouts
pub mod Roundtrip
pub mod Region
pub mod Lowbit
pub mod Tile
use miniature_os.Base.{ℕ, zero, suc, ◌+◌, ◌-◌, ◌^◌, ◌%◌, ◌/◌, min, max, bit_xor}
use miniature_os.Base.{Bool, true, false, Option, none, some, List}
use miniature_os.Base.{get_elem?, set, replicate, leb, ◌==◌, if◌then◌else◌}
use miniature_os.Base.{Run, ok, panic, out_of_fuel, ◌>>=◌, unwrap}
use miniature_os.Base.{add64, mul64}

pub record Chunk : Type 0 where
  pub next : Option ℕ
  pub size : ℕ

abbrev pub Heap : Type 0
Heap = ℕ → Chunk

abbrev pub write : Heap → ℕ → Chunk → Heap
write h p c a = if a == p then c else h a

-- `Chunk::new_at_address`.
abbrev pub new_at_address : Heap → ℕ → ℕ → Heap
new_at_address h address size = write h address (record { next = none; size = size })

-- The head pointer of a `LinkedList`.
abbrev pub LinkedList : Type 0
LinkedList = Option ℕ

abbrev pub list_is_empty : LinkedList → Bool
list_is_empty none = true
list_is_empty (some _) = false

unfoldable pub list_push_front : Heap → LinkedList → ℕ → Run (Heap × LinkedList)
list_push_front h head block =
    if block == 0
    then panic
    else ok (write h block (record { next = head; size = (h block).size }), some block)

unfoldable pub list_pop_front : Heap → LinkedList → Option ℕ × Heap × LinkedList
list_pop_front h none = (none, h, none)
list_pop_front h (some block) =
    (some block, write h block (record { next = none; size = (h block).size }), (h block).next)

-- Unlinks the chunk `cur` from its predecessor `last`, or from the head.
abbrev pub unlink : Heap → LinkedList → Option ℕ → ℕ → Heap × LinkedList
unlink h head none cur = (h, (h cur).next)
unlink h head (some last) cur =
    (write h last (record { next = (h cur).next; size = (h last).size }), head)

-- The `while let` of `LinkedList::remove`, from the node `cur`.
unfoldable pub remove_loop :
    ℕ → ℕ → Heap → LinkedList → Option ℕ → Option ℕ → Run (Option ℕ × Heap × LinkedList)
remove_loop zero start h head last cur = out_of_fuel
remove_loop (suc fuel) start h head last none = ok (none, h, head)
remove_loop (suc fuel) start h head last (some p) =
    let later = remove_loop fuel start h head (some p) (h p).next in
    let (h', head') = unlink h head last p in if p == start then ok (some p, h', head') else later

unfoldable pub list_remove : ℕ → Heap → LinkedList → ℕ → Run (Option ℕ × Heap × LinkedList)
unfolding remove_loop
list_remove fuel h head start = remove_loop fuel start h head none head

abbrev pub max_order : ℕ
max_order = 20

-- `BuddyAllocator`, with the memory that its lists live in.
pub record Buddies : Type 0 where
  pub heap : Heap
  pub buddies : List LinkedList

pub new : Heap → Buddies
new h = record { heap = h; buddies = replicate max_order none }

-- `self.buddies[class].push_front(chunk)`, and so on.
unfoldable pub push_front : Buddies → ℕ → ℕ → Run Buddies
push_front s class block = do
  head ← unwrap (get_elem? s.buddies class)
  (h, head') ← list_push_front s.heap head block
  ok (record { heap = h; buddies = set s.buddies class head' })

unfoldable pub pop_front : Buddies → ℕ → Run (Option ℕ × Buddies)
pop_front s class = do
  head ← unwrap (get_elem? s.buddies class)
  let (popped, h, head') = list_pop_front s.heap head
  ok (popped, record { heap = h; buddies = set s.buddies class head' })

unfoldable pub remove : ℕ → Buddies → ℕ → ℕ → Run (Option ℕ × Buddies)
remove fuel s class start = do
  head ← unwrap (get_elem? s.buddies class)
  (found, h, head') ← list_remove fuel s.heap head start
  ok (found, record { heap = h; buddies = set s.buddies class head' })

-- A new chunk header, pushed on the list of its class.
unfoldable pub push_new : Buddies → ℕ → ℕ → ℕ → Run Buddies
push_new s class address size =
    push_front (record s { heap = new_at_address s.heap address size }) class address

-- `u64::trailing_zeros`.
tz_loop : ℕ → ℕ → ℕ
tz_loop zero n = 0
tz_loop (suc fuel) n = let more = tz_loop fuel (n / 2) + 1 in if n % 2 == 1 then 0 else more

unfoldable pub trailing_zeros : ℕ → ℕ
unfolding tz_loop
trailing_zeros n = tz_loop 64 n

-- `usize::next_power_of_two`: the first of the powers 2^k, 2^(k+1), ... that is at least `n`.
unfoldable pub next_power_loop : ℕ → ℕ → ℕ → Run ℕ
next_power_loop zero k n = panic
next_power_loop (suc rounds) k n =
    let larger = next_power_loop rounds (k + 1) n in if leb n (2 ^ k) then ok (2 ^ k) else larger

unfoldable pub next_power_of_two : ℕ → Run ℕ
unfolding next_power_loop
next_power_of_two n = next_power_loop 64 0 n

pub record Layout : Type 0 where
  pub size : ℕ
  pub align : ℕ

-- `size_of::<Chunk>()`.
abbrev pub min_size : ℕ
min_size = 16

unfoldable pub align_layout_size : Layout → Run ℕ
align_layout_size l = do p ← next_power_of_two l.size; ok (max p (max l.align min_size))

-- The search for the first list with a chunk: `rounds` lists are left, from `i` on.
unfoldable pub find_class : ℕ → ℕ → Buddies → Option ℕ
find_class zero i s = none
find_class (suc rounds) i s =
    let next = find_class rounds (i + 1) s in
    elim (get_elem? s.buddies i) [
      | none ↦ none
      | some head ↦ if list_is_empty head then next else some i
    ]

-- One round of the splitting loop, at class `class + 1`: two halves go to class `class`.
unfoldable pub split_chunk : ℕ → ℕ → Buddies → Run Buddies
split_chunk class chunk s = do
  s1 ← push_new s class chunk (2 ^ class)
  upper ← add64 chunk (2 ^ class)
  push_new s1 class upper (2 ^ class)

-- The splitting loop with `rounds` classes to go down to `class`; `false` is its early `None`.
unfoldable pub split : ℕ → ℕ → Buddies → Run (Bool × Buddies)
split zero class s = ok (true, s)
split (suc rounds) class s = do
  (popped, s1) ← pop_front s (class + suc rounds)
  elim popped [
    | none ↦ ok (false, s1)
    | some chunk ↦ split_chunk (class + rounds) chunk s1 >>= split rounds class
  ]

-- `BuddyAllocator::alloc` for a chunk of the given class.
unfoldable pub alloc_class : ℕ → Buddies → Run (Option ℕ × Buddies)
alloc_class class s = elim (find_class (max_order - class) class s) [
  | none ↦ pop_front s class
  | some i ↦ do
    (done, s1) ← split (i - class) class s
    if done then pop_front s1 class else ok (none, s1)
]

unfoldable pub alloc : Layout → Buddies → Run (Option ℕ × Buddies)
alloc l s = do size ← align_layout_size l; alloc_class (trailing_zeros size) s

-- The merging loop of `dealloc`, on the region at `start`; `rounds` classes are left from `class`.
unfoldable pub merge : ℕ → ℕ → ℕ → ℕ → ℕ → Buddies → Run Buddies
merge fuel zero class start size s = ok s
merge fuel (suc rounds) class start size s = do
  let buddy = bit_xor start (2 ^ class)
  (found, s1) ← remove fuel s class buddy
  elim found [
    | some _ ↦ do size' ← mul64 size 2; merge fuel rounds (suc class) (min start buddy) size' s1
    | none ↦ push_new s1 class start size
  ]

-- `BuddyAllocator::dealloc`: the size is read from the header of the chunk.
unfoldable pub dealloc : ℕ → ℕ → Buddies → Run Buddies
dealloc fuel chunk s =
    let size = (s.heap chunk).size in
    let class = trailing_zeros size in merge fuel (max_order - class) class chunk size s

-- `GlobalAlloc for Locked<BuddyAllocator>`.
unfoldable pub global_alloc : Layout → Buddies → Run (ℕ × Buddies)
global_alloc l s = do (got, s1) ← alloc l s; chunk ← unwrap got; ok (chunk, s1)

unfoldable pub global_dealloc : ℕ → ℕ → Layout → Buddies → Run Buddies
global_dealloc fuel ptr l s = do
  size ← align_layout_size l
  dealloc fuel ptr (record s { heap = new_at_address s.heap ptr size })
