-- ===== src/Stage4/Stack/Guarded.antt =====
-- The kernel stack is backed by frames of its own, and the page below it is not mapped.
use miniature_os.Base.{
  ℕ, zero, suc, ◌+◌, ◌-◌, ◌*◌, ◌%◌, ◌^◌, ◌≤◌, ◌<◌, ◌≡◌, ◌≢◌, refl, sym, ◌∙◌, arith,
}
use miniature_os.Base.{List, [], ◌∷◌, Run, ok, length}
use miniature_os.Memory.Frame.{PhysicalFrame, Page, size_4kib, range_collect}
use miniature_os.Memory.Frame.Laws.{containing_address_lem, range_collect_lem, frames_from}
use miniature_os.Paging.Crates.{BitCrates}
use miniature_os.Paging.Entry.{set_address}
use miniature_os.Paging.Table.{Memory}
use miniature_os.Paging.Mapper.{FrameAllocator, translate_4kib, not_mapped, translated, Translation}
use miniature_os.Paging.Mapper.Tree.{Owners, reading}
use miniature_os.Paging.Mapper.Supply.{IsFrame, IsMapping, IsAllocator}
use miniature_os.Paging.Mapper.Map.{IsSound}
use miniature_os.Paging.Mapper.Enough.{
  reading-IsFlags, reading-none, HasFrames, Shrinks, allocate, Sound-Shrinks, map_page,
}
use miniature_os.Stage4.Stack.{
  kernel_stack_top, kernel_stack_size, stack_flags, map_stack_pages, map_guard_page,
  allocate_and_map_stack,
}

-- The pages lie at page boundaries, and no two of them are the same to the processor, which
-- reads 48 bits of an address.
abbrev pub Away : Page size_4kib → List (Page size_4kib) → Type 0
Away q [] = Unit {0}
Away q (p ∷ ps) = (q.address % 2 ^ 48 ≢ p.address % 2 ^ 48) × Away q ps

abbrev pub Separate : List (Page size_4kib) → Type 0
Separate [] = Unit {0}
Separate (p ∷ ps) = (p.address % 4096 ≡ 0) × Away p ps × Separate ps

Away-from :
    (q : Page size_4kib) (a n : ℕ)
    → q.address % 2 ^ 48 < a % 2 ^ 48
    → a % 2 ^ 48 + n * 4096 ≤ 2 ^ 48
    → Away q (frames_from size_4kib a n)
Away-from q a zero before fits = tt
Away-from q a (suc zero) before fits = (omega arith, tt)
Away-from q a (suc (suc n)) before fits =
    (omega arith, Away-from q (a + 4096) (suc n) (omega arith) (omega arith))

Separate-from :
    (a n : ℕ) → a % 4096 ≡ 0 → a % 2 ^ 48 + n * 4096 ≤ 2 ^ 48 → Separate (frames_from size_4kib a n)
Separate-from a zero page fits = tt
Separate-from a (suc zero) page fits = (page, tt, tt)
Separate-from a (suc (suc n)) page fits = (
  page,
  Away-from (record { address = a }) (a + 4096) (suc n) (omega arith) (omega arith),
  Separate-from (a + 4096) (suc n) (omega arith) (omega arith),
)

unfoldable pub stack_pages : List (Page size_4kib)
stack_pages = frames_from size_4kib (kernel_stack_top - kernel_stack_size) 33

abbrev pub guard_page : Page size_4kib
guard_page = record { address = kernel_stack_top - kernel_stack_size - 4096 }

stack_pages-Separate : Separate (guard_page ∷ stack_pages)
unfolding stack_pages
stack_pages-Separate =
    Separate-from (kernel_stack_top - kernel_stack_size - 4096) 34 refl (omega arith)

length-stack_pages : length stack_pages ≡ 33
unfolding stack_pages
length-stack_pages = refl

stack_pages_lem :
    (fuel : ℕ)
    → 33 < fuel
    → range_collect size_4kib fuel (record {
      start = record { address = kernel_stack_top - kernel_stack_size };
      end = record { address = kernel_stack_top };
    })
      ≡ ok stack_pages
unfolding stack_pages
stack_pages_lem fuel enough =
    range_collect_lem size_4kib 32 fuel (kernel_stack_top - kernel_stack_size) (omega arith) enough

module _ (lib : BitCrates) (frame_to_virtual : PhysicalFrame size_4kib → Run ℕ)
    (maps : IsMapping frame_to_virtual) {A : Type 0} (fa : FrameAllocator A)
    (IsFree : A → ℕ → Type 0) (IsReady : ℕ → A → Type 0) (supply : IsAllocator fa IsFree IsReady)
    (plenty : HasFrames lib frame_to_virtual maps fa IsFree IsReady) (root : ℕ) where
  abbrev translate : Page size_4kib → Memory → Run (Translation size_4kib)
  translate = translate_4kib lib frame_to_virtual root

  abbrev Sound : Memory → A → Owners → Type 0
  Sound = IsSound lib frame_to_virtual 3 root IsFree

  abbrev IsLess : A → A → Type 0
  IsLess = Shrinks lib frame_to_virtual maps fa IsFree IsReady

  abbrev pub Unmapped : List (Page size_4kib) → Memory → Type 0
  Unmapped [] m = Unit {0}
  Unmapped (p ∷ ps) m = (translate p m ≡ ok not_mapped) × Unmapped ps m

  -- Each page has a frame of its own among the free ones, with the flags of the stack.
  abbrev pub Backed : (ℕ → Type 0) → List (Page size_4kib) → Memory → Type 0
  Backed free [] m = Unit {0}
  Backed free (p ∷ ps) m =
      (f : PhysicalFrame size_4kib) × (translate p m ≡ ok (translated f stack_flags))
      × free f.address
      × Backed (λ x. free x × (x ≢ f.address)) ps m

  Backed-sub :
      (free more : ℕ → Type 0) (ps : List (Page size_4kib)) (m : Memory)
      → ((x : ℕ) → free x → more x)
      → Backed free ps m
      → Backed more ps m
  Backed-sub free more [] m sub b = tt
  Backed-sub free more (p ∷ ps) m sub (f, e, free_f, rest) = (
    f,
    e,
    sub f.address free_f,
    Backed-sub (λ x. free x × (x ≢ f.address)) (λ x. more x × (x ≢ f.address)) ps m
        (λ x (g, ne). (sub x g, ne)) rest,
  )

  -- Pages elsewhere translate the same.
  abbrev pub SameElsewhere : List (Page size_4kib) → Memory → Memory → Type 0
  SameElsewhere ps m m' =
      (q : Page size_4kib) → q.address % 4096 ≡ 0 → Away q ps → translate q m' ≡ translate q m

  still-Unmapped :
      (p : Page size_4kib) (ps : List (Page size_4kib)) (m m' : Memory)
      → ((q : Page size_4kib)
          → q.address % 4096 ≡ 0
          → q.address % 2 ^ 48 ≢ p.address % 2 ^ 48
          → translate q m' ≡ translate q m)
      → Away p ps
      → Separate ps
      → Unmapped ps m
      → Unmapped ps m'
  still-Unmapped p [] m m' same away separate unmapped = tt
  still-Unmapped p (q ∷ qs) m m' same (far, away) (aligned, apart, separate) (absent, unmapped) = (
    same q aligned (λ e. far (sym e)) ∙ absent,
    still-Unmapped p qs m m' same away separate unmapped,
  )

  -- How many frames the pages can take: their own and three tables for each.
  abbrev need : List (Page size_4kib) → ℕ → ℕ
  need [] k = k
  need (p ∷ ps) k = suc (3 + need ps k)

  reads :
      (f : PhysicalFrame size_4kib)
      → IsFrame f
      → reading lib frame_to_virtual size_4kib (set_address f.address stack_flags)
        ≡ ok (translated f stack_flags)
  reads f is =
      reading-IsFlags lib frame_to_virtual f stack_flags is
        (0x800, 3, refl, omega arith, omega arith, refl)

  abbrev Stacked : ℕ → List (Page size_4kib) → Memory → A → Type 0
  Stacked k ps m a =
      (m' : Memory) × (a' : A) × (own' : Owners) × (map_stack_pages lib frame_to_virtual fa root ps
          m a
        ≡ ok (m', a'))
      × Sound m' a' own'
      × IsReady k a'
      × IsLess a a'
      × Backed (IsFree a) ps m'
      × SameElsewhere ps m m'

  map_stack_pages_lem :
      (k : ℕ) (ps : List (Page size_4kib)) (m : Memory) (a : A) (own : Owners)
      → Sound m a own
      → IsReady (need ps k) a
      → Separate ps
      → Unmapped ps m
      → Stacked k ps m a
  unfolding map_stack_pages
  map_stack_pages_lem k [] m a own sound ready separate unmapped =
      (m, a, own, refl, sound, ready, (λ x free. free), tt, λ q aligned away. refl)
  map_stack_pages_lem k (p ∷ ps) m a own sound ready (aligned, away, separate) (absent, unmapped) =
      let (f, a1, got, ready1, is, free, taken, less) =
        allocate lib frame_to_virtual maps fa IsFree IsReady supply plenty (3 + need ps k) a
          ready in
      let sound1 =
        Sound-Shrinks lib frame_to_virtual maps fa IsFree IsReady supply plenty root m a a1 own
          sound less in
      let (m2, a2, own2, e2, sound2, ready2, less2, here, same2) =
        map_page lib frame_to_virtual maps fa IsFree IsReady supply plenty root (need ps k) p f
          stack_flags m a1 own sound1 ready1 aligned absent in
      let (m', a', own', e', sound', ready', less', backed, same') =
        map_stack_pages_lem k ps m2 a2 own2 sound2 ready2 separate
          (still-Unmapped p ps m m2 same2 away separate unmapped) in
      (
        m',
        a',
        own',
        rw (got, e2) e',
        sound',
        ready',
        (λ x g. less x (less2 x (less' x g))),
        (
          f,
          same' p aligned away ∙ here ∙ reads f is,
          free,
          Backed-sub (IsFree a2) (λ x. IsFree a x × (x ≢ f.address)) ps m'
              (λ x g. (less x (less2 x g), λ e. taken (rw (← e) (less2 x g)))) backed,
        ),
        λ q aligned_q (far, away_q). same' q aligned_q away_q ∙ same2 q aligned_q far,
      )

  need-eq : (ps : List (Page size_4kib)) (k : ℕ) → need ps k ≡ 4 * length ps + k
  need-eq [] k = omega arith
  need-eq (p ∷ ps) k = omega (arith, need-eq ps k)

  abbrev Guarded : ℕ → Memory → A → Type 0
  Guarded k m a =
      (m' : Memory) × (a' : A) × (own' : Owners) × (map_guard_page lib frame_to_virtual fa root
          (record { address = kernel_stack_top - kernel_stack_size }) m a
        ≡ ok (m', a'))
      × Sound m' a' own'
      × IsReady k a'
      × (translate guard_page m' ≡ ok not_mapped)
      × SameElsewhere (guard_page ∷ []) m m'

  map_guard_page_lem :
      (k : ℕ) (m : Memory) (a : A) (own : Owners)
      → Sound m a own
      → IsReady (4 + k) a
      → translate guard_page m ≡ ok not_mapped
      → Guarded k m a
  unfolding map_guard_page
  map_guard_page_lem k m a own sound ready absent =
      let (f, a1, got, ready1, is, free, taken, less) =
        allocate lib frame_to_virtual maps fa IsFree IsReady supply plenty (3 + k) a
          (let n : 4 + k ≡ suc (3 + k) = omega arith in rw n at ready) in
      let sound1 =
        Sound-Shrinks lib frame_to_virtual maps fa IsFree IsReady supply plenty root m a a1 own
          sound less in
      let (m2, a2, own2, e2, sound2, ready2, less2, here, same2) =
        map_page lib frame_to_virtual maps fa IsFree IsReady supply plenty root k guard_page f 0 m
          a1 own sound1 ready1 refl absent in
      (
        m2,
        a2,
        own2,
        rw
            (
              containing_address_lem size_4kib (kernel_stack_top - kernel_stack_size - 4096)
                  (omega arith),
              got,
              e2,
            )
            refl,
        sound2,
        ready2,
        here ∙ reading-none lib frame_to_virtual f is,
        λ q aligned (far, _). same2 q aligned far,
      )

  -- What is backed stays so where other pages change.
  Backed-same :
      (free : ℕ → Type 0) (ps : List (Page size_4kib)) (m m' : Memory)
      → ((p : Page size_4kib)
          → p.address % 4096 ≡ 0
          → Away p (guard_page ∷ [])
          → translate p m' ≡ translate p m)
      → Separate (guard_page ∷ ps)
      → Backed free ps m
      → Backed free ps m'
  Backed-same free [] m m' same separate b = tt
  Backed-same free (p ∷ ps) m m' same (page, (far, apart), (aligned, away, separate))
        (f, e, free_f, rest) =
      (
        f,
        same p aligned ((λ k. far (sym k)), tt) ∙ e,
        free_f,
        Backed-same (λ x. free x × (x ≢ f.address)) ps m m' same (page, apart, separate) rest,
      )

  -- The kernel stack: with page tables that form a tree, none of them in a free frame, with 136
  -- free frames and one to spare, and with no page of the stack or the page below it mapped, the stack is
  -- allocated and mapped and begins at `KERNEL_STACK_TOP`. Then each of its 33 pages, from
  -- `KERNEL_STACK_TOP - KERNEL_STACK_SIZE` to the one that begins at `KERNEL_STACK_TOP`, translates
  -- to a frame that was free and that no other page of the stack has, with the flags of the stack;
  -- the page below them is not mapped; every other page translates as before; and the tables
  -- form such a tree again.
  pub allocate_and_map_stack_lem :
      (k fuel : ℕ) (m : Memory) (a : A) (own : Owners)
      → 33 < fuel
      → Sound m a own
      → IsReady (136 + k) a
      → Unmapped (guard_page ∷ stack_pages) m
      → (m' : Memory) × (a' : A) × (own' : Owners) × (allocate_and_map_stack lib frame_to_virtual fa
            root fuel m a
          ≡ ok (kernel_stack_top, m', a'))
        × Sound m' a' own'
        × IsReady k a'
        × Backed (IsFree a) stack_pages m'
        × (translate guard_page m' ≡ ok not_mapped)
        × SameElsewhere (guard_page ∷ stack_pages) m m'
  unfolding allocate_and_map_stack
  allocate_and_map_stack_lem k fuel m a own enough sound ready (no_guard, unmapped) =
      let (m1, a1, own1, e1, sound1, ready1, less1, backed, same1) =
        map_stack_pages_lem (4 + k) stack_pages m a own sound
          (let n : need stack_pages (4 + k) ≡ 136 + k =
              omega (arith, need-eq stack_pages (4 + k), length-stack_pages) in
            rw n ready)
          stack_pages-Separate.2 unmapped in
      let (m2, a2, own2, e2, sound2, ready2, no_guard', same2) =
        map_guard_page_lem k m1 a1 own1 sound1 ready1
          (same1 guard_page refl stack_pages-Separate.1 ∙ no_guard) in
      (
        m2,
        a2,
        own2,
        rw
            (
              containing_address_lem size_4kib kernel_stack_top (omega arith),
              containing_address_lem size_4kib (kernel_stack_top - kernel_stack_size) (omega arith),
              stack_pages_lem fuel enough,
              e1,
              e2,
            )
            refl,
        sound2,
        ready2,
        Backed-same (IsFree a) stack_pages m1 m2 same2 stack_pages-Separate backed,
        no_guard',
        λ q aligned (far, away). same2 q aligned (far, tt) ∙ same1 q aligned away,
      )
