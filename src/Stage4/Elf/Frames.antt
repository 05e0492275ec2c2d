-- ===== src/Stage4/Elf/Frames.antt =====
-- The pages of a segment that are mapped to the frames of the kernel file.
use miniature_os.Base.{ℕ, zero, suc, ◌+◌, ◌*◌, ◌%◌, ◌^◌, ◌≤◌, ◌<◌, ◌≡◌, ◌≢◌, refl, ap, ◌∙◌, arith}
use miniature_os.Base.{Bool, true, false, Run, ok, if◌then◌else◌, bit_or, u64_mod}
use native.Mathlib.Decide.{ℕ_discrete}
use miniature_os.Memory.Frame.{PhysicalFrame, Page, size_4kib, frame_distance, add_frames}
use miniature_os.Memory.Frame.Laws.{distance-add, frames_from}
use miniature_os.Paging.Crates.{BitCrates}
use miniature_os.Paging.Entry.{present, writable, no_execute}
use miniature_os.Paging.Table.{Memory}
use miniature_os.Paging.Mapper.{FrameAllocator, translate_4kib, not_mapped, translated, Translation}
use miniature_os.Paging.Mapper.Tree.{Owners}
use miniature_os.Paging.Mapper.Supply.{IsFrame, IsMapping, IsAllocator}
use miniature_os.Paging.Mapper.Map.{IsSound}
use miniature_os.Paging.Mapper.Enough.{IsFlags, reading-IsFlags, HasFrames, Shrinks, map_page}
use miniature_os.Stage4.Elf.{Header, KernelLoader, segment_flags, copied, map_frames}

-- The flags of a segment, also with `COPIED`, which is not among them, are kept by an entry.
pub segment_flags-IsFlags :
    (lib : BitCrates) (header : Header)
    → IsFlags (segment_flags header)
      × IsFlags (bit_or (segment_flags header) copied)
      × (lib.contains (segment_flags header) copied ≡ false)
segment_flags-IsFlags lib header = cases header.is_execute header.is_write
  where
    flags : Bool → Bool → ℕ
    flags execute write =
        let start = if execute then present else bit_or present no_execute in
        if write then bit_or start writable else start

    cases :
        (execute write : Bool)
        → IsFlags (flags execute write)
          × IsFlags (bit_or (flags execute write) copied)
          × (lib.contains (flags execute write) copied ≡ false)
    cases true true = (
      (0, 3, refl, omega arith, omega arith, refl),
      (0, 0x203, refl, omega arith, omega arith, refl),
      lib.contains_all _ _,
    )
    cases true false = (
      (0, 1, refl, omega arith, omega arith, refl),
      (0, 0x201, refl, omega arith, omega arith, refl),
      lib.contains_all _ _,
    )
    cases false true = (
      (0x800, 3, refl, omega arith, omega arith, refl),
      (0x800, 0x203, refl, omega arith, omega arith, refl),
      lib.contains_all _ _,
    )
    cases false false = (
      (0x800, 1, refl, omega arith, omega arith, refl),
      (0x800, 0x201, refl, omega arith, omega arith, refl),
      lib.contains_all _ _,
    )

abbrev pub at_page : ℕ → Page size_4kib
at_page a = record { address = a }

add_frames_lem :
    (a i : ℕ)
    → a % 4096 ≡ 0
    → a + i * 4096 < u64_mod
    → (add_frames size_4kib (at_page a) i ≡ ok (at_page (a + i * 4096)))
      × (frame_distance size_4kib (at_page (a + i * 4096)) (at_page a) ≡ ok i)
add_frames_lem a i aligned small =
    let (g, sum, e, back) = distance-add size_4kib (at_page a) i aligned small in
    let same : g ≡ at_page (a + i * 4096) = ap at_page e in (rw (← same) sum, rw (← same) back)

-- `v` is the address of the first page of a segment, and all its `total` pages are apart.
pub record IsSpan (v total : ℕ) : Type 0 where
  pub page : v % 4096 ≡ 0
  pub apart : v % 2 ^ 48 + total * 4096 ≤ 2 ^ 48
  pub small : v + total * 4096 + 4096 < u64_mod

module _ (lib : BitCrates) (frame_to_virtual : PhysicalFrame size_4kib → Run ℕ)
    (maps : IsMapping frame_to_virtual) {A : Type 0} (fa : FrameAllocator A)
    (IsFree : A → ℕ → Type 0) (IsReady : ℕ → A → Type 0) (supply : IsAllocator fa IsFree IsReady)
    (plenty : HasFrames lib frame_to_virtual maps fa IsFree IsReady) (root : ℕ) (v total : ℕ)
    (span : IsSpan v total) where
  abbrev pub translate : Page size_4kib → Memory → Run (Translation size_4kib)
  translate = translate_4kib lib frame_to_virtual root

  abbrev pub Sound : Memory → A → Owners → Type 0
  Sound = IsSound lib frame_to_virtual 3 root IsFree

  abbrev pub IsLess : A → A → Type 0
  IsLess = Shrinks lib frame_to_virtual maps fa IsFree IsReady

  abbrev pub page_of : ℕ → Page size_4kib
  page_of j = at_page (v + j * 4096)

  -- The page is none of the pages from `i` to `j`.
  abbrev pub Beside : Page size_4kib → ℕ → ℕ → Type 0
  Beside q i j = (n : ℕ) → i ≤ n → n < j → q.address % 2 ^ 48 ≢ (page_of n).address % 2 ^ 48

  -- All other pages translate as before.
  abbrev pub SameBeside : ℕ → ℕ → Memory → Memory → Type 0
  SameBeside i j m m' =
      (q : Page size_4kib) → q.address % 4096 ≡ 0 → Beside q i j → translate q m' ≡ translate q m

  abbrev pub Absent : ℕ → ℕ → Memory → Type 0
  Absent i j m = (n : ℕ) → i ≤ n → n < j → translate (page_of n) m ≡ ok not_mapped

  pub pages_apart :
      (i j : ℕ)
      → i < total
      → j < total
      → i ≢ j
      → (page_of i).address % 2 ^ 48 ≢ (page_of j).address % 2 ^ 48
  pages_apart i j hi hj ne e = ne (omega (arith, span.page, span.apart, e))

  pub page_aligned : (j : ℕ) → (page_of j).address % 4096 ≡ 0
  page_aligned j = omega (arith, span.page)

  -- The page `n` is mapped to the frame `n` of those from `p` on.
  abbrev pub InPlace : ℕ → ℕ → ℕ → ℕ → Memory → Type 0
  InPlace p flags i j m =
      (n : ℕ)
      → i ≤ n
      → n < j
      → translate (page_of n) m ≡ ok (translated (at_page (p + n * 4096)) flags)

  abbrev pub needed : ℕ → ℕ → ℕ
  needed zero k = k
  needed (suc n) k = 3 + needed n k

  pub needed-eq : (n k : ℕ) → needed n k ≡ 3 * n + k
  needed-eq zero k = omega arith
  needed-eq (suc n) k = omega (arith, needed-eq n k)

  module _ (loader : KernelLoader) (p flags : ℕ) (p_page : p % 4096 ≡ 0)
      (keeps : IsFlags flags) where
    pub map_frames_lem :
        (n i k : ℕ) (m : Memory) (a : A) (own : Owners)
        → i + n ≤ total
        → p + (i + n) * 4096 ≤ 2 ^ 48
        → Sound m a own
        → IsReady (needed n k) a
        → Absent i (i + n) m
        → (m' : Memory) × (a' : A) × (own' : Owners) × (map_frames lib frame_to_virtual fa root
              loader
              (at_page p)
              (at_page v)
              flags
              (frames_from size_4kib (p + i * 4096) n)
              m
              a
            ≡ ok (m', a'))
          × Sound m' a' own'
          × IsReady k a'
          × IsLess a a'
          × InPlace p flags i (i + n) m'
          × SameBeside i (i + n) m m'
    unfolding map_frames
    map_frames_lem zero i k m a own inside low sound ready absent = (
      m,
      a,
      own,
      refl,
      sound,
      ready,
      (λ x free. free),
      (λ n from to. absurd (omega arith)),
      λ q aligned beside. refl,
    )
    map_frames_lem (suc n) i k m a own inside low sound ready absent =
        let (m1, a1, own1, e1, sound1, ready1, less1, here, same1) =
          map_page lib frame_to_virtual maps fa IsFree IsReady supply plenty root (needed n k)
            (page_of i) (at_page (p + i * 4096)) flags m a own sound ready (page_aligned i)
            (absent i (omega arith) (omega arith)) in
        let next : p + i * 4096 + 4096 ≡ p + (i + 1) * 4096 = omega arith in
        let end : i + suc n ≡ i + 1 + n = omega arith in
        let (m2, a2, own2, e2, sound2, ready2, less2, placed, same2) =
          map_frames_lem n (i + 1) k m1 a1 own1 (omega arith) (omega arith) sound1 ready1
            (λ j from to.
              same1 (page_of j) (page_aligned j)
                (pages_apart j i (omega arith) (omega arith) (omega arith))
              ∙ absent j (omega arith) (omega arith)) in
        let is : IsFrame (at_page (p + i * 4096)) = (omega arith, omega arith) in
        let found =
          here ∙ reading-IsFlags lib frame_to_virtual (at_page (p + i * 4096)) flags is keeps in
        let first = add_frames_lem p i p_page (omega arith) in
        let second = add_frames_lem v i span.page (omega (arith, span.small)) in
        (
          m2,
          a2,
          own2,
          rw (first.1, second.0, e1, next) e2,
          sound2,
          ready2,
          (λ x free. less1 x (less2 x free)),
          (λ j from to. elim (ℕ_discrete j i) [
            | yes e ↦ rw e (
                same2 (page_of i) (page_aligned i)
                  (λ o from' to'. pages_apart i o (omega arith) (omega arith) (omega arith))
                ∙ found)
            | no ne ↦ placed j (omega arith) (omega arith)
          ]),
          λ q aligned beside.
              same2 q aligned (λ j from to. beside j (omega arith) (omega arith))
              ∙ same1 q aligned (beside i (omega arith) (omega arith)),
        )
