-- ===== src/Stage4/Elf/Segment.antt =====
-- A segment in memory after `allocate`.
use miniature_os.Base.{
  ℕ, zero, suc, ◌+◌, ◌-◌, ◌*◌, ◌/◌, ◌%◌, ◌^◌, ◌≤◌, ◌<◌, ◌≡◌, ◌≢◌, ◌⊎◌, bit_or, refl, ap, ◌∙◌, arith,
}
use miniature_os.Base.{
  true, false, Run, ok, if◌then◌else◌, ltb, u64_mod, lt→ltb, le→leb, Bool-cases, ltb→lt, inl, inr,
}
use native.Mathlib.Decide.{ℕ_discrete}
use miniature_os.Memory.Address.{align_up, align_up_lem}
use miniature_os.Memory.Frame.{PhysicalFrame, size_4kib, range_collect}
use miniature_os.Memory.Frame.Laws.{
  containing_address_lem, range_collect_lem, range_ends, frames_from,
}
use miniature_os.Paging.Crates.{BitCrates}
use miniature_os.Paging.Table.{Memory}
use miniature_os.Paging.Mapper.{FrameAllocator, translated, translate_4kib}
use miniature_os.Paging.Mapper.Tree.{Owners}
use miniature_os.Paging.Mapper.Supply.{IsMapping, IsAllocator}
use miniature_os.Paging.Mapper.Enough.{HasFrames}
use miniature_os.Stage4.Elf.{
  Header, KernelLoader, Machine, Bytes, segment_flags, copied, map_frames, zero_rest, map_zeros,
  map_bss, allocate_segment,
}
use miniature_os.Stage4.Elf.Frames.{
  segment_flags-IsFlags, at_page, IsSpan, needed-eq, map_frames_lem,
}
use miniature_os.Stage4.Elf.Frames
use miniature_os.Stage4.Elf.Zeros.{
  machine, see, IsOk, Fewer, Same, NoPages, Holds, Holds-kept, Untouched, far, needed,
  map_zeros_lem, zero_rest_lem, fewer_four,
}

-- The pages of a segment behind those of the file.
zero_pages_lem :
    (v last count fuel : ℕ)
    → v + (last + 1 + count) * 4096 + 4096 < u64_mod
    → last + 1 + count + 1 < fuel
    → range_collect size_4kib fuel (record {
      start = at_page (v + (last + 1) * 4096);
      end = at_page (v + (last + count) * 4096);
    })
      ≡ ok (frames_from size_4kib (v + (last + 1) * 4096) count)
zero_pages_lem v last count zero small enough = absurd (omega arith)
zero_pages_lem v last zero (suc fuel) small enough =
    range_ends size_4kib fuel (v + (last + 1) * 4096) (v + (last + 0) * 4096) (omega arith)
zero_pages_lem v last (suc count) (suc fuel) small enough =
    let e : v + (last + suc count) * 4096 ≡ v + (last + 1) * 4096 + count * 4096 = omega arith in
    rw e (
      range_collect_lem size_4kib count (suc fuel) (v + (last + 1) * 4096) (omega arith)
        (omega arith))

-- Where a segment lies: from `d` bytes behind a page on, in the file (`p`) and in memory (`v`); its
-- last page of the file has the number `last`, and `count` pages follow.
pub record IsPlaced (loader : KernelLoader) (header : Header) (p v d last count : ℕ) : Type 0 where
  pub in_file : loader.kernel_start + header.offset ≡ p + d
  pub in_memory : loader.virtual_base + header.virtual_addr ≡ v + d
  pub small : d < 4096
  pub page : p % 4096 ≡ 0
  pub low : p + (last + 1) * 4096 ≤ 2 ^ 48
  pub sizes : header.file_size ≤ header.mem_size
  pub some_file : last * 4096 < d + header.file_size
  pub all_file : d + header.file_size ≤ (last + 1) * 4096
  pub some_memory : (last + count) * 4096 < d + header.mem_size
  pub all_memory : d + header.mem_size ≤ (last + 1 + count) * 4096
  pub span : IsSpan v (last + 1 + count)

module _ (lib : BitCrates) (frame_to_virtual : PhysicalFrame size_4kib → Run ℕ)
    (maps : IsMapping frame_to_virtual) {A : Type 0} (fa : FrameAllocator A)
    (IsFree : A → ℕ → Type 0) (IsReady : ℕ → A → Type 0) (supply : IsAllocator fa IsFree IsReady)
    (plenty : HasFrames lib frame_to_virtual maps fa IsFree IsReady) (root : ℕ)
    (loader : KernelLoader) (header : Header) (p v d last count : ℕ)
    (placed : IsPlaced loader header p v d last count) where
  abbrev pub total : ℕ
  total = last + 1 + count

  abbrev HasBytes : ℕ → (ℕ → ℕ) → Memory → Bytes → A → Type 0
  HasBytes =
      Holds lib frame_to_virtual maps fa IsFree IsReady supply plenty root v total placed.span
        loader header

  abbrev pub Sound : Memory → A → Owners → Type 0
  Sound =
      IsOk lib frame_to_virtual maps fa IsFree IsReady supply plenty root v total placed.span loader
        header

  abbrev Untaken : A → Bytes → Bytes → Type 0
  Untaken =
      Untouched lib frame_to_virtual maps fa IsFree IsReady supply plenty root v total placed.span
        loader header

  abbrev Less : A → A → Type 0
  Less =
      Fewer lib frame_to_virtual maps fa IsFree IsReady supply plenty root v total placed.span
        loader header

  abbrev SameOutside : ℕ → ℕ → Memory → Memory → Type 0
  SameOutside =
      Same lib frame_to_virtual maps fa IsFree IsReady supply plenty root v total placed.span loader
        header

  abbrev pub NothingAt : ℕ → ℕ → Memory → Type 0
  NothingAt =
      NoPages lib frame_to_virtual maps fa IsFree IsReady supply plenty root v total placed.span
        loader header

  abbrev needs : ℕ → ℕ → ℕ
  needs =
      needed lib frame_to_virtual maps fa IsFree IsReady supply plenty root v total placed.span
        loader header

  abbrev file_end : ℕ
  file_end = d + header.file_size

  -- The bytes of a page: the file's, then zeros.
  abbrev page_bytes : Bytes → ℕ → ℕ → ℕ
  page_bytes b j o = if ltb (j * 4096 + o) file_end then b (p + j * 4096 + o) else 0

  abbrev Mapped : Memory → Type 0
  Mapped m =
      (j : ℕ)
      → 0 ≤ j
      → j < last + 1
      → see lib frame_to_virtual maps fa IsFree IsReady supply plenty root v total placed.span
          loader header (at_page (v + j * 4096)) m
        ≡ ok (translated (at_page (p + j * 4096)) (segment_flags header))

  -- The frames of the file are not free.
  abbrev pub FileKept : A → Type 0
  FileKept a = (j : ℕ) → j ≤ last → ¬ IsFree a (p + j * 4096)

  file_page :
      (m : Memory) (b : Bytes) (a : A) (j : ℕ)
      → Mapped m
      → FileKept a
      → j ≤ last
      → HasBytes j (λ o. b (p + j * 4096 + o)) m b a
  file_page m b a j mapped kept h = (
    at_page (p + j * 4096),
    segment_flags header,
    mapped j (omega arith) (omega arith),
    (omega (arith, placed.page), omega (arith, placed.low)),
    kept j h,
    (λ o small. refl),
    inl refl,
  )

  HasBytes-same :
      (j : ℕ) (value value' : ℕ → ℕ) (m : Memory) (b : Bytes) (a : A)
      → ((o : ℕ) → o < 4096 → value o ≡ value' o)
      → HasBytes j value m b a
      → HasBytes j value' m b a
  HasBytes-same j value value' m b a same (f, fl, e, is, taken, values, which) =
      (f, fl, e, is, taken, (λ o h. values o h ∙ same o h), which)

  apart :
      (i j : ℕ) → i < total → j < total → i ≢ j → (v + i * 4096) % 2 ^ 48 ≢ (v + j * 4096) % 2 ^ 48
  apart =
      far lib frame_to_virtual maps fa IsFree IsReady supply plenty root v total placed.span loader
        header

  abbrev pub Done :
      (Memory → Bytes → A → Type 0) → Run (Machine A) → ℕ → Memory → Bytes → A → Type 0
  Done Post run k m b a =
      (m' : Memory) × (b' : Bytes) × (a' : A) × (own' : Owners) × (run
        ≡ ok (
            machine lib frame_to_virtual maps fa IsFree IsReady supply plenty root v total
              placed.span loader header m' b' a'))
      × Sound m' a' own'
      × IsReady k a'
      × Less a a'
      × Untaken a b b'
      × SameOutside 0 total m m'
      × Post m' b' a'

  abbrev AllThere : Bytes → Memory → Bytes → A → Type 0
  AllThere b m' b' a' = (j : ℕ) → j < total → HasBytes j (page_bytes b j) m' b' a'

  whole_page :
      (m : Memory) (b : Bytes) (a : A) (j : ℕ)
      → Mapped m
      → FileKept a
      → j < last
      → HasBytes j (page_bytes b j) m b a
  whole_page m b a j mapped kept h =
      HasBytes-same j (λ o. b (p + j * 4096 + o)) (page_bytes b j) m b a
        (λ o small.
          let inside : ltb (j * 4096 + o) file_end ≡ true =
            lt→ltb _ _ (omega (arith, placed.some_file)) in
          rw inside refl)
        (file_page m b a j mapped kept (omega arith))

  behind : (b : Bytes) (j o : ℕ) → last < j → 0 ≡ page_bytes b j o
  behind b j o h = ground (arith, placed.all_file)

  up : align_up (v + file_end) 4096 ≡ ok (v + (last + 1) * 4096)
  up =
      let (r, e, multiple, above, below) =
        align_up_lem 12 (v + file_end) (omega arith)
          (omega (arith, placed.all_file, placed.span.small)) in
      let same : r ≡ v + (last + 1) * 4096 =
        omega
          (arith, multiple, above, below, placed.span.page, placed.some_file, placed.all_file) in
      e ∙ ap ok same

  run_bss :
      (fuel : ℕ) (before between behind : Machine A)
      → total + 1 < fuel
      → zero_rest lib frame_to_virtual fa root loader header (v + d) (v + file_end) before
        ≡ ok between
      → map_zeros lib frame_to_virtual fa root loader
          (segment_flags header)
          (frames_from size_4kib (v + (last + 1) * 4096) count)
          between
        ≡ ok behind
      → map_bss lib frame_to_virtual fa root loader fuel header (v + d) before ≡ ok behind
  unfolding map_bss
  run_bss fuel before between behind enough e1 e2 =
      let start : v + d + header.file_size ≡ v + file_end = omega arith in
      let first_zero : (v + (last + 1) * 4096) / 4096 * 4096 ≡ v + (last + 1) * 4096 =
        omega (arith, placed.span.page) in
      let last_zero : (v + d + header.mem_size - 1) / 4096 * 4096 ≡ v + (last + count) * 4096 =
        omega (arith, placed.span.page, placed.some_memory, placed.all_memory) in
      rw
        (
          start,
          lt→ltb (v + file_end) u64_mod (omega (arith, placed.all_file, placed.span.small)),
          lt→ltb (v + d + header.mem_size) u64_mod
              (omega (arith, placed.all_memory, placed.span.small)),
          e1,
          up,
          containing_address_lem size_4kib (v + (last + 1) * 4096)
              (omega (arith, placed.span.small)),
          first_zero,
          le→leb 1 (v + d + header.mem_size) (omega (arith, placed.some_memory)),
          containing_address_lem size_4kib (v + d + header.mem_size - 1)
              (omega (arith, placed.all_memory, placed.span.small)),
          last_zero,
          zero_pages_lem v last count fuel placed.span.small enough,
          e2,
        )
        refl

  bss :
      (fuel k : ℕ) (m : Memory) (b : Bytes) (a : A) (own : Owners)
      → total + 1 < fuel
      → Sound m a own
      → IsReady (4 + needs count k) a
      → Mapped m
      → FileKept a
      → NothingAt (last + 1) total m
      → Done
          (AllThere b)
          (map_bss lib frame_to_virtual fa root loader fuel header
            (v + d)
            (record { tables = m; bytes = b; allocator = a }))
          k
          m
          b
          a
  bss fuel k m b a own enough sound ready mapped kept nothing =
      let (m1, b1, a1, own1, e1, sound1, ready1, less1, kept1, rest1, same1) =
        zero_rest_lem lib frame_to_virtual maps fa IsFree IsReady supply plenty root v total
          placed.span loader header last file_end (needs count k) (p + last * 4096) (v + d) m b a
          own (omega arith) placed.some_file placed.all_file (omega arith) sound ready
          (mapped last (omega arith) (omega arith))
          (omega (arith, placed.page), omega (arith, placed.low)) (kept last (omega arith)) in
      let (m2, b2, a2, own2, e2, sound2, ready2, less2, kept2, zeroed, same2) =
        map_zeros_lem lib frame_to_virtual maps fa IsFree IsReady supply plenty root v total
          placed.span loader header count (last + 1) k m1 b1 a1 own1 (omega arith) sound1 ready1
          (λ j from to.
            same1 (at_page (v + j * 4096)) (omega (arith, placed.span.page))
              (apart j last (omega arith) (omega arith) (omega arith))
            ∙ nothing j from to) in
      let unmoved2 : (j : ℕ)
          → j ≤ last
          → see lib frame_to_virtual maps fa IsFree IsReady supply plenty root v total placed.span
              loader header (at_page (v + j * 4096)) m2
            ≡ see lib frame_to_virtual maps fa IsFree IsReady supply plenty root v total placed.span
                loader header (at_page (v + j * 4096)) m1 =
        λ j h.
          same2 (at_page (v + j * 4096)) (omega (arith, placed.span.page))
            (λ o from to. apart j o (omega arith) (omega arith) (omega arith)) in
      (
        m2,
        b2,
        a2,
        own2,
        run_bss fuel (record { tables = m; bytes = b; allocator = a })
            (record { tables = m1; bytes = b1; allocator = a1 })
            (record { tables = m2; bytes = b2; allocator = a2 }) enough e1 e2,
        sound2,
        ready2,
        (λ x fr. less1 x (less2 x fr)),
        (λ x h. kept2 x (λ fr. h (less1 _ fr)) ∙ kept1 x h),
        (λ q aligned beside.
            same2 q aligned (λ j from to. beside j (omega arith) (omega arith))
            ∙ same1 q aligned (beside last (omega arith) (omega arith))),
        λ j inside. elim (Bool-cases (ltb j last)) [
          | inl before ↦
              let lt : j < last = ltb→lt _ _ before in
              Holds-kept lib frame_to_virtual maps fa IsFree IsReady supply plenty root v total
                placed.span loader header j (page_bytes b j) m1 m2 b1 b2 a1 a2
                (unmoved2 j (omega arith)) less2 kept2
                (Holds-kept lib frame_to_virtual maps fa IsFree IsReady supply plenty root v total
                  placed.span loader header j (page_bytes b j) m m1 b b1 a a1
                  (same1 (at_page (v + j * 4096)) (omega (arith, placed.span.page))
                    (apart j last (omega arith) (omega arith) (omega arith)))
                  less1 kept1 (whole_page m b a j mapped kept lt))
          | inr other ↦ elim (ℕ_discrete j last) [
            | yes e ↦ rw e (
                Holds-kept lib frame_to_virtual maps fa IsFree IsReady supply plenty root v total
                  placed.span loader header last (page_bytes b last) m1 m2 b1 b2 a1 a2
                  (unmoved2 last (omega arith)) less2 kept2 rest1)
            | no ne ↦
                let gt : last < j = ground arith in
                HasBytes-same j (λ o. 0) (page_bytes b j) m2 b2 a2 (λ o h. behind b j o gt)
                  (zeroed j (omega arith) (omega arith))
          ]
        ],
      )

  needs-eq : (n k : ℕ) → needs n k ≡ 4 * n + k
  needs-eq zero k = omega arith
  needs-eq (suc n) k = omega (arith, needs-eq n k)

  front :
      (k : ℕ) (m : Memory) (a : A) (own : Owners)
      → Sound m a own
      → IsReady (3 * (last + 1) + k) a
      → NothingAt 0 total m
      → (m' : Memory) × (a' : A) × (own' : Owners) × (map_frames lib frame_to_virtual fa root loader
            (at_page p)
            (at_page v)
            (segment_flags header)
            (frames_from size_4kib p (suc last))
            m
            a
          ≡ ok (m', a'))
        × Sound m' a' own'
        × IsReady k a'
        × Less a a'
        × Mapped m'
        × SameOutside 0 (last + 1) m m'
  front k m a own sound ready nothing =
      let from : p ≡ p + 0 * 4096 = omega arith in
      let rounds : Frames.needed lib frame_to_virtual maps fa IsFree IsReady supply plenty root v
            total placed.span (suc last) k
          ≡ 3 * (last + 1) + k =
        omega (
          arith,
          needed-eq lib frame_to_virtual maps fa IsFree IsReady supply plenty root v total
              placed.span (suc last) k,
        ) in
      let (m', a', own', e, sound', ready', less, mapped, same) =
        map_frames_lem lib frame_to_virtual maps fa IsFree IsReady supply plenty root v total
          placed.span loader p (segment_flags header) placed.page
          (segment_flags-IsFlags lib header).0 (suc last) 0 k m a own (omega arith)
          (omega (arith, placed.low)) sound (rw rounds ready)
          (λ j le lt. nothing j le (omega arith)) in
      (
        m',
        a',
        own',
        ap
              (λ (x : ℕ).
                map_frames lib frame_to_virtual fa root loader (at_page p) (at_page v)
                  (segment_flags header) (frames_from size_4kib x (suc last)) m a)
              from
            ∙ e,
        sound',
        ready',
        less,
        (λ j le lt. mapped j le (omega arith)),
        λ q aligned beside. same q aligned (λ j le lt. beside j le (omega arith)),
      )

  run_segment :
      (fuel : ℕ) (m : Memory) (b : Bytes) (a : A) (m' : Memory) (a' : A)
      → total + 1 < fuel
      → map_frames lib frame_to_virtual fa root loader
          (at_page p)
          (at_page v)
          (segment_flags header)
          (frames_from size_4kib p (suc last))
          m
          a
        ≡ ok (m', a')
      → allocate_segment lib frame_to_virtual fa root loader fuel header
          (record { tables = m; bytes = b; allocator = a })
        ≡ (if ltb header.file_size header.mem_size
            then map_bss lib frame_to_virtual fa root loader fuel header
                (v + d)
                (record { tables = m'; bytes = b; allocator = a' })
            else ok (record { tables = m'; bytes = b; allocator = a' }))
  unfolding allocate_segment
  run_segment fuel m b a m' a' enough e =
      let first : (p + d) / 4096 * 4096 ≡ p = omega (arith, placed.page, placed.small) in
      let final : (p + d + header.file_size - 1) / 4096 * 4096 ≡ p + last * 4096 =
        omega (arith, placed.page, placed.some_file, placed.all_file) in
      let page : (v + d) / 4096 * 4096 ≡ v = omega (arith, placed.span.page, placed.small) in
      rw
        (
          placed.in_file,
          lt→ltb (p + d) u64_mod (omega (arith, placed.low, placed.small)),
          containing_address_lem size_4kib (p + d) (omega (arith, placed.low, placed.small)),
          first,
          lt→ltb (p + d + header.file_size) u64_mod (omega (arith, placed.low, placed.all_file)),
          le→leb 1 (p + d + header.file_size) (omega (arith, placed.some_file)),
          containing_address_lem size_4kib (p + d + header.file_size - 1)
              (omega (arith, placed.low, placed.all_file)),
          final,
          placed.in_memory,
          lt→ltb (v + d) u64_mod (omega (arith, placed.span.small, placed.small)),
          containing_address_lem size_4kib (v + d) (omega (arith, placed.span.small, placed.small)),
          page,
          range_collect_lem size_4kib last fuel p (omega (arith, placed.low)) (omega arith),
          e,
        )
        refl

  -- The byte `i` of the segment in memory.
  abbrev ByteAt : ℕ → ℕ → Memory → Bytes → Type 0
  ByteAt i c m b =
      let at : ℕ = loader.virtual_base + header.virtual_addr + i in
      (f : PhysicalFrame size_4kib) × (fl : ℕ) × (translate_4kib lib frame_to_virtual root
          (at_page (at / 4096 * 4096)) m
        ≡ ok (translated f fl))
      × ((fl ≡ segment_flags header) ⊎ (fl ≡ bit_or (segment_flags header) copied))
      × (b (f.address + at % 4096) ≡ c)

  -- Every byte of the segment is that of the file, or zero behind the file.
  abbrev pub Loaded : Bytes → Memory → Bytes → A → Type 0
  Loaded b m' b' a' =
      (i : ℕ)
      → i < header.mem_size
      → ByteAt i (if ltb i header.file_size then b (loader.kernel_start + header.offset + i) else 0)
          m' b'

  to_byte :
      (i j o c : ℕ) (value : ℕ → ℕ) (m : Memory) (b : Bytes) (a : A)
      → d + i ≡ j * 4096 + o
      → o < 4096
      → HasBytes j value m b a
      → value o ≡ c
      → ByteAt i c m b
  to_byte i j o c value m b a where_is small (f, fl, e, is, taken, values, which) same =
      let page : (v + d + i) / 4096 * 4096 ≡ v + j * 4096 = omega (arith, placed.span.page) in
      let behind : (v + d + i) % 4096 ≡ o = omega (arith, placed.span.page) in
      (
        f,
        fl,
        rw (placed.in_memory, page) e,
        which,
        rw (placed.in_memory, behind) (values o small ∙ same),
      )

  file_byte :
      (i : ℕ) (m : Memory) (b : Bytes) (a : A)
      → Mapped m
      → FileKept a
      → i < header.file_size
      → ByteAt i
          (if ltb i header.file_size then b (loader.kernel_start + header.offset + i) else 0)
          m
          b
  file_byte i m b a mapped kept inside =
      let there : ltb i header.file_size ≡ true = lt→ltb _ _ inside in
      let at : p + (d + i) / 4096 * 4096 + (d + i) % 4096 ≡ p + d + i = omega arith in
      rw there (
        to_byte i ((d + i) / 4096) ((d + i) % 4096) (b (loader.kernel_start + header.offset + i))
          (λ o. b (p + (d + i) / 4096 * 4096 + o)) m b a (omega arith) (omega arith)
          (file_page m b a ((d + i) / 4096) mapped kept (omega (arith, placed.all_file)))
          (rw placed.in_file (ap b at)))

  any_byte :
      (i : ℕ) (b : Bytes) (m : Memory) (b' : Bytes) (a : A)
      → AllThere b m b' a
      → i < header.mem_size
      → ByteAt i
          (if ltb i header.file_size then b (loader.kernel_start + header.offset + i) else 0)
          m
          b'
  any_byte i b m b' a there inside =
      to_byte i ((d + i) / 4096) ((d + i) % 4096)
        (if ltb i header.file_size then b (loader.kernel_start + header.offset + i) else 0)
        (page_bytes b ((d + i) / 4096)) m b' a (omega arith) (omega arith)
        (there ((d + i) / 4096) (omega (arith, placed.all_memory)))
        (value (Bool-cases (ltb i header.file_size)))
    where
      value :
          (ltb i header.file_size ≡ true) ⊎ (ltb i header.file_size ≡ false)
          → page_bytes b ((d + i) / 4096) ((d + i) % 4096)
            ≡ (if ltb i header.file_size then b (loader.kernel_start + header.offset + i) else 0)
      value (inl file) =
          let lt : i < header.file_size = ltb→lt _ _ file in
          let at : p + (d + i) / 4096 * 4096 + (d + i) % 4096 ≡ p + d + i = omega arith in
          rw
            (
              file,
              lt→ltb ((d + i) / 4096 * 4096 + (d + i) % 4096) file_end (omega arith),
              placed.in_file,
            )
            (ap b at)
      value (inr behind_file) =
          let out : ltb ((d + i) / 4096 * 4096 + (d + i) % 4096) file_end ≡ false = ground arith in
          rw (behind_file, out) refl

  -- A segment of the kernel, as the loader finds it in memory. The segment begins `d` bytes behind
  -- a page, in the file and in memory alike, reaches over `last + 1` pages of the file and `count`
  -- more pages of memory, and is not larger in the file than in memory; the frames of the
  -- file lie below 2^48 and are not free, and no page of the segment is mapped. Then, with page
  -- tables that form a tree, none of them in a free frame, and with frames to spare, `allocate`
  -- returns. Afterwards each byte of the segment has a frame: for the first `file_size` bytes it
  -- holds the byte of the file, and for all others 0. Its flags are those of the
  -- segment, to which `COPIED` may be added. No byte changes outside of frames that were free, so
  -- that a segment that shares a frame of the file keeps it; pages elsewhere translate as
  -- before; and the tables form such a tree again.
  pub allocate_segment-Loaded :
      (fuel k : ℕ) (m : Memory) (b : Bytes) (a : A) (own : Owners)
      → total + 1 < fuel
      → Sound m a own
      → IsReady (3 * (last + 1) + (4 + (4 * count + k))) a
      → FileKept a
      → NothingAt 0 total m
      → Done
          (Loaded b)
          (allocate_segment lib frame_to_virtual fa root loader fuel header
            (record { tables = m; bytes = b; allocator = a }))
          k
          m
          b
          a
  allocate_segment-Loaded fuel k m b a own enough sound ready kept nothing =
      let all : 4 + (4 * count + k) ≡ 4 + needs count k = omega (arith, needs-eq count k) in
      let (m1, a1, own1, e1, sound1, ready1, less1, mapped, same1) =
        front (4 + needs count k) m a own sound (rw all at ready) nothing in
      let kept1 : FileKept a1 = λ j h free. kept j h (less1 _ free) in
      let run = run_segment fuel m b a m1 a1 enough e1 in
      elim (Bool-cases (ltb header.file_size header.mem_size)) [
        | inr none_left ↦
            let full : header.file_size ≡ header.mem_size = ground (arith, placed.sizes) in
            let no_more : count ≡ 0 = omega (arith, full, placed.some_memory, placed.all_file) in
            let no_needs : 4 + needs count k ≡ 4 + k = omega (arith, needs-eq count k, no_more) in
            let ready2 : IsReady (4 + k) a1 = rw no_needs at ready1 in
            (
              m1,
              b,
              a1,
              own1,
              run ∙ rw none_left refl,
              sound1,
              fewer_four lib frame_to_virtual maps fa IsFree IsReady supply plenty root v total
                  placed.span loader header k a1 ready2,
              less1,
              (λ x h. refl),
              (λ q aligned beside. same1 q aligned (λ j le lt. beside j le (omega arith))),
              λ i inside. file_byte i m1 b a1 mapped kept1 (omega (arith, full)),
            )
        | inl more ↦
            let (m2, b2, a2, own2, e2, sound2, ready2, less2, untouched, same2, there) =
              bss fuel k m1 b a1 own1 enough sound1 ready1 mapped kept1 (λ j le lt.
                same1 (at_page (v + j * 4096)) (omega (arith, placed.span.page))
                  (λ o from to. apart j o lt (omega arith) (omega arith))
                ∙ nothing j (omega arith) lt) in
            (
              m2,
              b2,
              a2,
              own2,
              run ∙ rw more e2,
              sound2,
              ready2,
              (λ x free. less1 x (less2 x free)),
              (λ x h. untouched x (λ free. h (less1 _ free))),
              (λ q aligned beside.
                  same2 q aligned beside ∙ same1 q aligned (λ j le lt. beside j le (omega arith))),
              λ i inside. any_byte i b m2 b2 a2 there inside,
            )
      ]
