-- ===== src/Buddy/Roundtrip.antt =====
-- What is left of the heap when a client is given memory, writes to it, and gives it back.
use miniature_os.Base.{ℕ, ◌+◌, ◌^◌, ◌≤◌, ◌<◌, ◌≡◌, ◌≢◌, refl, ap, ◌∙◌, arith}
use miniature_os.Base.{List, [], ◌∷◌, some, ok, length, ◌⊎◌, inl, inr}
use native.Mathlib.Decide.{dec_lt}
use miniature_os.Buddy.{Heap, Buddies, Layout, max_order, alloc, alloc_class, new_at_address}
use miniature_os.Buddy.{align_layout_size, global_alloc, global_dealloc}
use miniature_os.Buddy.Cover
use miniature_os.Buddy.Cover.{FreeLists, class_of, cover, count_all, in_block}
use miniature_os.Buddy.Rep.{Holds, Holds-frame}
use miniature_os.Buddy.Blocks.{trailing_zeros_pow}
use miniature_os.Buddy.Alloc.{Allocated, alloc_class-Holds}
use miniature_os.Buddy.Dealloc.{dealloc-Freed}
use miniature_os.Buddy.Layouts.{layout_class}

-- `free` is what was free before, or a megabyte less.
abbrev pub Restored : FreeLists → FreeLists → Type 0
Restored fl free =
    ((a : ℕ) → cover a free ≡ cover a fl)
    ⊎ ((class_of fl 19 ≢ [])
        × (top : ℕ) × ((a : ℕ) → cover a free + in_block 20 top a ≡ cover a fl))

empty_stays : (xs ys : List ℕ) → length xs ≤ length ys → ys ≡ [] → xs ≡ []
empty_stays [] ys le e = refl
empty_stays (x ∷ xs) ys le e = absurd (omega (arith, le, ap length e))

-- Inside of the memory of a layout is inside of the block.
outside : (c x a size : ℕ) → size ≤ 2 ^ c → in_block c x a ≡ 0 → (a < x) ⊎ (x + size ≤ a)
unfolding in_block
outside c x a size fits out = elim (dec_lt a x) [
  | yes below ↦ inl below
  | no not_below ↦ inr (ground arith)
]

in_block_at : (c x a : ℕ) → a ≡ x → in_block c x a ≡ 1
in_block_at c x a e = rw e (Cover.in_block_self c x)

-- `global_dealloc` on a chunk that `alloc` took out, after writes to it.
global_dealloc-Allocated :
    {t : Buddies} {fl : FreeLists} (fuel c x : ℕ) (l : Layout) (h : Heap)
    → Allocated c fl (ok (some x, t))
    → c < max_order
    → align_layout_size l ≡ ok (2 ^ c)
    → l.size ≤ 2 ^ c
    → ((a : ℕ) → cover a fl ≤ 1)
    → ((a : ℕ) → (a < x) ⊎ (x + l.size ≤ a) → h a ≡ t.heap a)
    → ((j : ℕ) → length (class_of fl j) + 2 < fuel)
    → (u : Buddies) × (free : FreeLists) × (global_dealloc fuel x l (record t { heap = h }) ≡ ok u)
      × Holds u free
      × Restored fl free
unfolding global_dealloc
global_dealloc-Allocated {t} {fl} fuel c x l h got i size fits disjoint writes enough =
    let e : got.chunk ≡ x = (let r = got.returns in cc) in
    let e' : got.state ≡ t = (let r = got.returns in cc) in
    let g : Heap = new_at_address h x (2 ^ c) in
    let taken : (a : ℕ) → cover a got.free + in_block c x a ≡ cover a fl = rw e at got.taken in
    let holds : Holds t got.free = rw e' at got.holds in
    let away : (a : ℕ) → 0 < count_all a got.free → in_block c x a ≡ 0 =
      λ a p. omega (arith, p, taken a, disjoint a, Cover.count_all-le-cover 0 a got.free) in
    let same : (a : ℕ) → 0 < count_all a got.free → g a ≡ t.heap a = λ a p.
      ground (arith, in_block_at c x a, away a, writes a (outside c x a l.size fits (away a p))) in
    let header : (g x).size ≡ 2 ^ c = ground arith in
    let room : (a : ℕ) → cover a got.free + in_block c x a ≤ 1 =
      λ a. omega (arith, taken a, disjoint a) in
    elim (dealloc-Freed {s = record t { heap = g }} fuel c x (Holds-frame g holds same) i header
      (rw e at got.pos) (rw e at got.block) room (λ j. omega (arith, got.lengths j, enough j))) [
        | inl freed ↦ (
          freed.state,
          freed.free,
          rw size freed.returns,
          freed.holds,
          inl (λ a. freed.given a ∙ taken a),
        )
        | inr lost ↦ (
          lost.state,
          lost.free,
          rw size lost.returns,
          lost.holds,
          inr (
            (λ e. lost.top_class (empty_stays _ _ got.top e)),
            lost.top,
            λ a. lost.lost a ∙ taken a,
          ),
        )
      ]

-- The heap's contract with a client. From lists of disjoint free blocks with their size in their
-- headers, let `GlobalAlloc::alloc` return `x` for a layout whose size is at most 2^19 and whose
-- alignment is a power of two below 2^20. The client may write anything to the `size` bytes from `x`
-- on, and to nothing else. Then `GlobalAlloc::dealloc` of `x` with the same layout, with fuel for two
-- chunks more than were in the longest list, returns with valid lists. Exactly the memory that was
-- free before the allocation is then free again, unless class 19 had a chunk before; in that case
-- a block of one megabyte may be missing from it.
pub global_dealloc-global_alloc :
    {s t : Buddies} {fl : FreeLists} (fuel : ℕ) (l : Layout) (m x : ℕ) (h : Heap)
    → Holds s fl
    → l.align ≡ 2 ^ m
    → m < max_order
    → l.size ≤ 2 ^ 19
    → global_alloc l s ≡ ok (x, t)
    → ((a : ℕ) → (a < x) ⊎ (x + l.size ≤ a) → h a ≡ t.heap a)
    → ((j : ℕ) → length (class_of fl j) + 2 < fuel)
    → (u : Buddies) × (free : FreeLists) × (global_dealloc fuel x l (record t { heap = h }) ≡ ok u)
      × Holds u free
      × Restored fl free
unfolding global_alloc alloc
global_dealloc-global_alloc {s} {t} {fl} fuel l m x h v align_pow m_lt size_le given writes enough =
    let (c, q, lt, serves, least) = layout_class l m align_pow m_lt size_le in
    let tried = rw (q, trailing_zeros_pow c (omega arith)) at given in
    elim (alloc_class-Holds c v lt) [
      | inl got ↦
          let r = rw got.returns at tried in
          let r' : alloc_class c s ≡ ok (some x, t) = got.returns ∙ (cc) in
          global_dealloc-Allocated fuel c x l h (rw r' at got) lt q serves.0 v.disjoint writes
            enough
      | inr out ↦ absurd (let r = rw out.returns at tried in cc)
    ]
