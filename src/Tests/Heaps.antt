-- ===== src/Tests/Heaps.antt =====
-- The buddy allocator on a small heap.
use miniature_os.Base.{ℕ, ◌^◌, zero, suc, ◌+◌, ◌≤◌, ◌<◌, ◌≡◌, refl, ◌⊎◌, arith, none, some, [], ◌∷◌}
use miniature_os.Base.{ok, replicate, set, length, if◌then◌else◌, ◌==◌}
use miniature_os.Buddy.{Heap, Buddies, LinkedList, max_order, alloc_class, dealloc, list_remove}
use miniature_os.Buddy.Chain.{Chain, count, erase, found, list_remove-Chain}
use miniature_os.Buddy.Cover.{FreeLists, class_of, cover, cover_from, hits, in_block, Blocks}
use miniature_os.Buddy.Rep.{Reps, Holds}
use miniature_os.Buddy.Layouts.{Serves, alloc-Holds}
use miniature_os.Buddy.Roundtrip.{Restored, global_dealloc-global_alloc}
use miniature_os.Buddy.{Layout, alloc, global_alloc, global_dealloc, write, find_class, split}
use miniature_os.Buddy.{
  pop_front, list_pop_front, align_layout_size, next_power_of_two, trailing_zeros,
}
use miniature_os.Base.{inl, inr, leb, ltb, ◌&&◌}
use miniature_os.Buddy.Alloc.{Allocated, Exhausted, alloc_class-Holds}
use miniature_os.Buddy.Region.{add_region}
use miniature_os.Buddy.Tile.{Added, in_region, add_region-Added}
use miniature_os.Buddy.Dealloc.{Freed, Lost, dealloc-Freed}

-- Memory with a header of 32 bytes at each address; the one at 64 is followed by the one at 128.
abbrev headers : Heap
headers a = record { next = none; size = 32 }

abbrev linked : Heap
linked a = record { next = if a == 64 then some 128 else none; size = 32 }

-- One free chunk of 32 bytes at 64.
abbrev one_chunk : Buddies
one_chunk = record { heap = headers; buddies = set (replicate max_order none) 5 (some 64) }

abbrev one_block : FreeLists
one_block = set (replicate max_order []) 5 (64 ∷ [])

empty_Reps : (n : ℕ) (h : Heap) → Reps h (replicate n none) (replicate n [])
empty_Reps zero h = tt
empty_Reps (suc n) h = (refl, empty_Reps n h)

empty_Blocks : (n k : ℕ) → Blocks k (replicate n [])
empty_Blocks zero k = tt
empty_Blocks (suc n) k = (tt, empty_Blocks n (suc k))

no_block : (n j : ℕ) → length (class_of (replicate n []) j) ≤ 0
no_block zero j = omega arith
no_block (suc n) zero = omega arith
no_block (suc n) (suc j) = no_block n j

one_block_covers : (a : ℕ) → cover a one_block ≤ 1
unfolding cover_from hits in_block
one_block_covers a = ground arith

no_chunk : (n j a : ℕ) → count a (class_of (replicate n []) j) ≡ 0
no_chunk zero j a = refl
no_chunk (suc n) zero a = refl
no_chunk (suc n) (suc j) a = no_chunk n j a

headers_match : (c x : ℕ) → 0 < count x (class_of one_block c) → 32 ≡ 2 ^ c
headers_match zero x h = absurd (omega arith)
headers_match (suc zero) x h = absurd (omega arith)
headers_match (suc (suc zero)) x h = absurd (omega arith)
headers_match (suc (suc (suc zero))) x h = absurd (omega arith)
headers_match (suc (suc (suc (suc zero)))) x h = absurd (omega arith)
headers_match (suc (suc (suc (suc (suc zero))))) x h = refl
headers_match (suc (suc (suc (suc (suc (suc c)))))) x h = absurd (omega (arith, no_chunk 14 c x))

one_chunk-Holds : Holds one_chunk one_block
one_chunk-Holds = record {
  reps = (refl, (refl, (refl, (refl, (refl, ((refl, omega arith, refl), empty_Reps 14 headers))))));
  classes = refl;
  blocks = (tt, (tt, (tt, (tt, (tt, (((refl, omega arith), tt), empty_Blocks 14 6))))));
  disjoint = one_block_covers;
  sizes = headers_match;
}

-- The block at 96 is apart from the one at 64.
other_block_room : (a : ℕ) → cover a one_block + in_block 5 96 a ≤ 1
unfolding cover_from hits in_block
other_block_room a = ground arith

one_at_most : (j : ℕ) → length (class_of one_block j) < 2
one_at_most zero = omega arith
one_at_most (suc zero) = omega arith
one_at_most (suc (suc zero)) = omega arith
one_at_most (suc (suc (suc zero))) = omega arith
one_at_most (suc (suc (suc (suc zero)))) = omega arith
one_at_most (suc (suc (suc (suc (suc zero))))) = omega arith
one_at_most (suc (suc (suc (suc (suc (suc j)))))) = omega (arith, no_block 14 j)

two_counted : (a : ℕ) → count a (64 ∷ 128 ∷ []) ≤ 1
two_counted a = ground arith

alloc_class-Holds_example :
    Allocated 4 one_block (alloc_class 4 one_chunk)
    ⊎ Exhausted 4 one_block (alloc_class 4 one_chunk)
alloc_class-Holds_example = alloc_class-Holds 4 one_chunk-Holds (omega arith)

dealloc-Freed_example :
    Freed 5 96 one_block (dealloc 2 96 one_chunk) ⊎ Lost 5 96 one_block (dealloc 2 96 one_chunk)
dealloc-Freed_example =
    dealloc-Freed 2 5 96 one_chunk-Holds (omega arith) refl (omega arith) (refl, omega arith)
      other_block_room one_at_most

list_remove-Chain_example :
    (g : Heap) × (head' : LinkedList) × (list_remove 3 linked (some 64) 128
      ≡ ok (found 128 (64 ∷ 128 ∷ []), g, head'))
    × Chain g head' (erase 128 (64 ∷ 128 ∷ []))
    × ((a : ℕ) → count a (64 ∷ 128 ∷ []) ≡ 0 → g a ≡ linked a)
list_remove-Chain_example =
    list_remove-Chain 3 128 linked (some 64) (64 ∷ 128 ∷ [])
      (refl, omega arith, (refl, omega arith, refl)) two_counted (omega arith)

abbrev small_layout : Layout
small_layout = record { size = 20; align = 8 }

alloc-Holds_example :
    (c : ℕ) × (c < max_order)
    × Serves small_layout c
    × ((k : ℕ) → Serves small_layout k → c ≤ k)
    × (Allocated c one_block (alloc small_layout one_chunk)
        ⊎ Exhausted c one_block (alloc small_layout one_chunk))
alloc-Holds_example = alloc-Holds small_layout 3 one_chunk-Holds refl (omega arith) (omega arith)

-- The chunk at 64 is handed out, and its 20 bytes are overwritten.
abbrev handed_out : Buddies
handed_out = record {
  heap = write headers 64 (record { next = none; size = 32 });
  buddies = set one_chunk.buddies 5 none;
}

abbrev overwritten : Heap
overwritten a =
    if leb 64 a && ltb a 84 then record { next = some 7; size = 99 } else handed_out.heap a

gets_chunk : global_alloc small_layout one_chunk ≡ ok (64, handed_out)
unfolding global_alloc alloc alloc_class find_class split pop_front list_pop_front align_layout_size
    next_power_of_two trailing_zeros
gets_chunk = refl

writes_inside : (a : ℕ) → (a < 64) ⊎ (64 + 20 ≤ a) → overwritten a ≡ handed_out.heap a
writes_inside a (inl below) = ground arith
writes_inside a (inr above) = ground arith

global_dealloc-global_alloc_example :
    (u : Buddies) × (free : FreeLists) × (global_dealloc 4 64 small_layout
        (record handed_out { heap = overwritten })
      ≡ ok u)
    × Holds u free
    × Restored one_block free
global_dealloc-global_alloc_example =
    global_dealloc-global_alloc 4 small_layout 3 64 overwritten one_chunk-Holds refl (omega arith)
      (omega arith) gets_chunk writes_inside (λ j. omega (arith, one_at_most j))

-- The region from 96 to 4096 is apart from the block at 64.
region_room : (a : ℕ) → cover a one_block + in_region 96 4096 a ≤ 1
unfolding cover_from hits in_block in_region
region_room a = ground arith

add_region-Added_example : Added 96 4096 one_block (add_region 4001 96 4096 one_chunk)
add_region-Added_example =
    add_region-Added 4001 96 4096 one_chunk-Holds (omega arith) (omega arith) (omega arith) refl
      refl (omega arith) region_room
