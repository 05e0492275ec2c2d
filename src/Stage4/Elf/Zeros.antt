-- ===== src/Stage4/Elf/Zeros.antt =====
-- The pages of a segment that are wholly or partly behind the file: frames of their own with zeros.
use miniature_os.Base.{
  ℕ, zero, suc, ◌+◌, ◌-◌, ◌*◌, ◌/◌, ◌%◌, ◌^◌, ◌≤◌, ◌<◌, ◌≡◌, ◌≢◌, ◌⊎◌, refl, ◌∙◌, arith,
}
use miniature_os.Base.{
  false, Run, ok, if◌then◌else◌, ltb, ◌==◌, ne→==, bit_or, bit_and, u64_mod, lt→ltb, le→leb,
  Bool-cases, ltb→lt, inl, inr,
}
use miniature_os.Base.Bits.{bit_and_mask}
use native.Mathlib.Decide.{ℕ_discrete}
use miniature_os.Memory.Frame.{PhysicalFrame, Page, size_4kib}
use miniature_os.Memory.Frame.Laws.{containing_address_lem, frames_from}
use miniature_os.Paging.Crates.{BitCrates}
use miniature_os.Paging.Table.{Memory}
use miniature_os.Paging.Mapper.{FrameAllocator, translated, Translation}
use miniature_os.Paging.Mapper.Tree.{Owners}
use miniature_os.Paging.Mapper.Supply.{IsFrame, IsMapping, IsAllocator}
use miniature_os.Paging.Mapper.Remove.{unmap_4kib-translate}
use miniature_os.Paging.Mapper.Enough.{
  reading-IsFlags, HasFrames, allocate, Sound-Shrinks, map_page,
}
use miniature_os.Stage4.Elf.{
  Header, KernelLoader, Machine, Bytes, segment_flags, copied, copy, write_zeros, make_mutable,
  zero_rest, map_zeros,
}
use miniature_os.Stage4.Elf.Frames.{
  segment_flags-IsFlags, at_page, IsSpan, translate, Sound, IsLess, page_of, SameBeside, Absent,
  pages_apart, page_aligned,
}

copy_inside : (b : Bytes) (from to o : ℕ) → o < 4096 → copy b from to 4096 (to + o) ≡ b (from + o)
copy_inside b from to o h =
    let e : to + o - to ≡ o = omega arith in
    rw (le→leb to (to + o) (omega arith), lt→ltb (to + o) (to + 4096) (omega arith), e) refl

copy_outside :
    (b : Bytes) (from to x : ℕ) → to % 4096 ≡ 0 → x / 4096 * 4096 ≢ to → copy b from to 4096 x ≡ b x
copy_outside b from to x page ne = ground arith

zeros_inside : (b : Bytes) (to count x : ℕ) → to ≤ x → x < to + count → write_zeros b to count x ≡ 0
zeros_inside b to count x h k = ground arith

zeros_before : (b : Bytes) (to count x : ℕ) → x < to → write_zeros b to count x ≡ b x
zeros_before b to count x h = ground arith

zeros_outside :
    (b : Bytes) (f from count x : ℕ)
    → f % 4096 ≡ 0
    → from + count ≡ 4096
    → x / 4096 * 4096 ≢ f
    → write_zeros b (f + from) count x ≡ b x
zeros_outside b f from count x page whole ne = ground arith

frame_of : (f o : ℕ) → f % 4096 ≡ 0 → o < 4096 → (f + o) / 4096 * 4096 ≡ f
frame_of f o page h = omega arith

module _ (lib : BitCrates) (frame_to_virtual : PhysicalFrame size_4kib → Run ℕ)
    (maps : IsMapping frame_to_virtual) {A : Type 0} (fa : FrameAllocator A)
    (IsFree : A → ℕ → Type 0) (IsReady : ℕ → A → Type 0) (supply : IsAllocator fa IsFree IsReady)
    (plenty : HasFrames lib frame_to_virtual maps fa IsFree IsReady) (root : ℕ) (v total : ℕ)
    (span : IsSpan v total) (loader : KernelLoader) (header : Header) where
  -- Bytes change only in frames that were free.
  abbrev pub Untouched : A → Bytes → Bytes → Type 0
  Untouched a b b' = (x : ℕ) → ¬ IsFree a (x / 4096 * 4096) → b' x ≡ b x

  abbrev pub machine : Memory → Bytes → A → Machine A
  machine m b a = record { tables = m; bytes = b; allocator = a }

  abbrev pub see : Page size_4kib → Memory → Run (Translation size_4kib)
  see = translate lib frame_to_virtual maps fa IsFree IsReady supply plenty root v total span

  abbrev pub IsOk : Memory → A → Owners → Type 0
  IsOk = Sound lib frame_to_virtual maps fa IsFree IsReady supply plenty root v total span

  abbrev pub Fewer : A → A → Type 0
  Fewer = IsLess lib frame_to_virtual maps fa IsFree IsReady supply plenty root v total span

  abbrev pub nth_page : ℕ → Page size_4kib
  nth_page = page_of lib frame_to_virtual maps fa IsFree IsReady supply plenty root v total span

  abbrev pub Same : ℕ → ℕ → Memory → Memory → Type 0
  Same = SameBeside lib frame_to_virtual maps fa IsFree IsReady supply plenty root v total span

  abbrev pub NoPages : ℕ → ℕ → Memory → Type 0
  NoPages = Absent lib frame_to_virtual maps fa IsFree IsReady supply plenty root v total span

  pub far :
      (i j : ℕ)
      → i < total
      → j < total
      → i ≢ j
      → (nth_page i).address % 2 ^ 48 ≢ (nth_page j).address % 2 ^ 48
  far = pages_apart lib frame_to_virtual maps fa IsFree IsReady supply plenty root v total span

  pub page_start : (j : ℕ) → (nth_page j).address % 4096 ≡ 0
  page_start =
      page_aligned lib frame_to_virtual maps fa IsFree IsReady supply plenty root v total span

  abbrev pub flags : ℕ
  flags = segment_flags header

  -- A page has a frame that is not free, with given bytes and the flags of the segment, to which
  -- `COPIED` may be added.
  abbrev pub Holds : ℕ → (ℕ → ℕ) → Memory → Bytes → A → Type 0
  Holds j value m b a =
      (f : PhysicalFrame size_4kib) × (fl : ℕ) × (see (nth_page j) m ≡ ok (translated f fl))
      × IsFrame f
      × (¬ IsFree a f.address)
      × ((o : ℕ) → o < 4096 → b (f.address + o) ≡ value o)
      × ((fl ≡ flags) ⊎ (fl ≡ bit_or flags copied))

  -- It still holds them when other pages are mapped and free frames written.
  pub Holds-kept :
      (j : ℕ) (value : ℕ → ℕ) (m m' : Memory) (b b' : Bytes) (a a' : A)
      → see (nth_page j) m' ≡ see (nth_page j) m
      → Fewer a a'
      → Untouched a b b'
      → Holds j value m b a
      → Holds j value m' b' a'
  Holds-kept j value m m' b b' a a' same less kept (f, fl, e, is, taken, values, which) = (
    f,
    fl,
    same ∙ e,
    is,
    (λ free. taken (less f.address free)),
    λ o h. kept (f.address + o) (rw (frame_of f.address o is.0 h) taken) ∙ values o h,
    which,
  )

  abbrev pub Zeroed : ℕ → ℕ → Memory → Bytes → A → Type 0
  Zeroed i j m b a = (n : ℕ) → i ≤ n → n < j → Holds n (λ o. 0) m b a

  abbrev pub needed : ℕ → ℕ → ℕ
  needed zero k = k
  needed (suc n) k = suc (3 + needed n k)

  pub map_zeros_lem :
      (n i k : ℕ) (m : Memory) (b : Bytes) (a : A) (own : Owners)
      → i + n ≤ total
      → IsOk m a own
      → IsReady (needed n k) a
      → NoPages i (i + n) m
      → (m' : Memory) × (b' : Bytes) × (a' : A) × (own' : Owners) × (map_zeros lib frame_to_virtual
            fa root loader flags
            (frames_from size_4kib (v + i * 4096) n)
            (machine m b a)
          ≡ ok (machine m' b' a'))
        × IsOk m' a' own'
        × IsReady k a'
        × Fewer a a'
        × Untouched a b b'
        × Zeroed i (i + n) m' b' a'
        × Same i (i + n) m m'
  unfolding map_zeros
  map_zeros_lem zero i k m b a own inside sound ready absent = (
    m,
    b,
    a,
    own,
    refl,
    sound,
    ready,
    (λ x free. free),
    (λ x h. refl),
    (λ j from to. absurd (omega arith)),
    λ q aligned beside. refl,
  )
  map_zeros_lem (suc n) i k m b a own inside sound ready absent =
      let (f, a1, got, ready1, is, free, taken, less) =
        allocate lib frame_to_virtual maps fa IsFree IsReady supply plenty (3 + needed n k) a
          ready in
      let sound1 =
        Sound-Shrinks lib frame_to_virtual maps fa IsFree IsReady supply plenty root m a a1 own
          sound less in
      let b1 : Bytes = write_zeros b f.address 4096 in
      let (m2, a2, own2, e2, sound2, ready2, less2, here, same2) =
        map_page lib frame_to_virtual maps fa IsFree IsReady supply plenty root (needed n k)
          (nth_page i) f flags m a1 own sound1 ready1 (page_start i)
          (absent i (omega arith) (omega arith)) in
      let next : v + i * 4096 + 4096 ≡ v + (i + 1) * 4096 = omega arith in
      let (m', b', a', own', e', sound', ready', less', kept', zeroed, same') =
        map_zeros_lem n (i + 1) k m2 b1 a2 own2 (omega arith) sound2 ready2 (λ j from to.
          same2 (nth_page j) (page_start j) (far j i (omega arith) (omega arith) (omega arith))
          ∙ absent j (omega arith) (omega arith)) in
      let found =
        here
        ∙ reading-IsFlags lib frame_to_virtual f flags is (segment_flags-IsFlags lib header).0 in
      let now : Holds i (λ o. 0) m2 b1 a2 = (
        f,
        flags,
        found,
        is,
        (λ fr. taken (less2 f.address fr)),
        λ o h. zeros_inside b f.address 4096 (f.address + o) (omega arith) (omega arith),
        inl refl,
      ) in
      let whole : f.address + 0 ≡ f.address = omega arith in
      (
        m',
        b',
        a',
        own',
        rw (got, e2, next) e',
        sound',
        ready',
        (λ x fr. less x (less2 x (less' x fr))),
        (λ x h.
            kept' x (λ fr. h (less _ (less2 _ fr)))
            ∙ (let out = zeros_outside b f.address 0 4096 x is.0 refl (λ e. h (rw e free)) in
                rw whole at out)),
        (λ j from to. elim (ℕ_discrete j i) [
          | yes e ↦ rw e (
              Holds-kept i (λ o. 0) m2 m' b1 b' a2 a'
                (same' (nth_page i) (page_start i)
                  (λ o from' to'. far i o (omega arith) (omega arith) (omega arith)))
                less' kept' now)
          | no ne ↦ zeroed j (omega arith) (omega arith)
        ]),
        λ q aligned beside.
            same' q aligned (λ j from to. beside j (omega arith) (omega arith))
            ∙ same2 q aligned (beside i (omega arith) (omega arith)),
      )

  make_mutable_lem :
      (j k : ℕ) (m : Memory) (b : Bytes) (a : A) (own : Owners) (f : PhysicalFrame size_4kib)
      → IsOk m a own
      → IsReady (4 + k) a
      → see (nth_page j) m ≡ ok (translated f flags)
      → (g : PhysicalFrame size_4kib) × (m' : Memory) × (a' : A) × (own' : Owners) × (make_mutable
            lib frame_to_virtual fa root loader
            (nth_page j)
            (machine m b a)
          ≡ ok (g, machine m' (copy b f.address g.address 4096) a'))
        × IsOk m' a' own'
        × IsReady k a'
        × Fewer a a'
        × (see (nth_page j) m' ≡ ok (translated g (bit_or flags copied)))
        × IsFrame g
        × IsFree a g.address
        × (¬ IsFree a' g.address)
        × ((q : Page size_4kib)
            → q.address % 4096 ≡ 0
            → q.address % 2 ^ 48 ≢ (nth_page j).address % 2 ^ 48
            → see q m' ≡ see q m)
  unfolding make_mutable
  make_mutable_lem j k m b a own f sound ready there =
      let (fl, fl', not_copied) = segment_flags-IsFlags lib header in
      let more : 4 + k ≡ suc (3 + k) = omega arith in
      let (g, a1, got, ready1, is, free, taken, less) =
        allocate lib frame_to_virtual maps fa IsFree IsReady supply plenty (3 + k) a
          (rw more at ready) in
      let (m1, e1, (tree1, gone, same1)) =
        unmap_4kib-translate lib frame_to_virtual root m own (nth_page j) f flags sound.0
          (page_start j) there in
      let sound1 =
        Sound-Shrinks lib frame_to_virtual maps fa IsFree IsReady supply plenty root m1 a a1 own
          (tree1, sound.1) less in
      let (m2, a2, own2, e2, sound2, ready2, less2, here, same2) =
        map_page lib frame_to_virtual maps fa IsFree IsReady supply plenty root k (nth_page j) g
          (bit_or flags copied) m1 a1 own sound1 ready1 (page_start j) gone in
      (
        g,
        m2,
        a2,
        own2,
        rw (there, not_copied, got, e1, e2) refl,
        sound2,
        ready2,
        (λ x fr. less x (less2 x fr)),
        here ∙ reading-IsFlags lib frame_to_virtual g (bit_or flags copied) is fl',
        is,
        free,
        (λ fr. taken (less2 g.address fr)),
        λ q aligned apart. same2 q aligned apart ∙ same1 q aligned apart,
      )

  -- The bytes of the last page of the file: `e` bytes from `v` on are the file's.
  abbrev pub last_bytes : ℕ → ℕ → ℕ → Bytes → ℕ → ℕ
  last_bytes j e p b o = if ltb (j * 4096 + o) e then b (p + o) else 0

  tail_bytes :
      (j e p g : ℕ) (b : Bytes) (o : ℕ)
      → j * 4096 < e
      → e ≢ (j + 1) * 4096
      → e ≤ (j + 1) * 4096
      → o < 4096
      → write_zeros (copy b p g 4096) (g + (e - j * 4096)) (4096 - (e - j * 4096)) (g + o)
        ≡ last_bytes j e p b o
  tail_bytes j e p g b o before part file h = elim (Bool-cases (ltb (j * 4096 + o) e)) [
    | inl inside ↦
        let lt : j * 4096 + o < e = ltb→lt _ _ inside in
        rw inside (
          zeros_before (copy b p g 4096) (g + (e - j * 4096)) (4096 - (e - j * 4096)) (g + o)
            (omega arith)
          ∙ copy_inside b p g o h)
    | inr behind ↦
        let ge : e ≤ j * 4096 + o = ground arith in
        rw behind (
          zeros_inside (copy b p g 4096) (g + (e - j * 4096)) (4096 - (e - j * 4096)) (g + o)
            (omega arith) (omega arith))
  ]

  pub fewer_four : (k : ℕ) (a : A) → IsReady (4 + k) a → IsReady k a
  fewer_four k a ready =
      let four : 4 + k ≡ suc (suc (suc (suc k))) = omega arith in
      supply.fewer k a (
        supply.fewer (suc k) a
          (supply.fewer (suc (suc k)) a (supply.fewer (suc (suc (suc k))) a (rw four at ready))))

  pub zero_rest_lem :
      (j e k p virtual_start : ℕ) (m : Memory) (b : Bytes) (a : A) (own : Owners)
      → j < total
      → j * 4096 < e
      → e ≤ (j + 1) * 4096
      → virtual_start + header.file_size ≡ v + e
      → IsOk m a own
      → IsReady (4 + k) a
      → see (nth_page j) m ≡ ok (translated (at_page p) flags)
      → IsFrame (at_page p)
      → ¬ IsFree a p
      → (m' : Memory) × (b' : Bytes) × (a' : A) × (own' : Owners) × (zero_rest lib frame_to_virtual
            fa root loader header virtual_start
            (v + e)
            (machine m b a)
          ≡ ok (machine m' b' a'))
        × IsOk m' a' own'
        × IsReady k a'
        × Fewer a a'
        × Untouched a b b'
        × Holds j (last_bytes j e p b) m' b' a'
        × ((q : Page size_4kib)
            → q.address % 4096 ≡ 0
            → q.address % 2 ^ 48 ≢ (nth_page j).address % 2 ^ 48
            → see q m' ≡ see q m)
  unfolding zero_rest
  zero_rest_lem j e k p virtual_start m b a own small before file after sound ready there is taken =
      let mask : bit_and (v + e) (4096 - 1) ≡ (v + e) % 4096 = bit_and_mask 12 (v + e) in
      let after_all : e ≤ (j + 1) * 4096 = file in
      elim (ℕ_discrete e ((j + 1) * 4096)) [
        | yes full ↦
            let none_left : (v + e) % 4096 ≡ 0 = omega (arith, span.page, full) in
            (
              m,
              b,
              a,
              own,
              rw (mask, none_left) refl,
              sound,
              fewer_four k a ready,
              (λ x fr. fr),
              (λ x h. refl),
              (
                at_page p,
                flags,
                there,
                is,
                taken,
                λ o h. rw (lt→ltb (j * 4096 + o) e (omega (arith, full))) refl,
                inl refl,
              ),
              λ q aligned apart. refl,
            )
        | no part ↦
            let d : ℕ = e - j * 4096 in
            let left : (v + e) % 4096 ≡ d = omega (arith, span.page, part) in
            let some_left : (d == 0) ≡ false = ne→== d 0 (omega arith) in
            let (g, m1, a1, own1, e1, sound1, ready1, less1, now, frame, free, taken', same1) =
              make_mutable_lem j k m b a own (at_page p) sound ready there in
            let b1 : Bytes = copy b p g.address 4096 in
            (
              m1,
              write_zeros b1 (g.address + d) (4096 - d),
              a1,
              own1,
              rw
                  (
                    mask,
                    left,
                    some_left,
                    after,
                    lt→ltb (v + e) u64_mod (omega (arith, span.small)),
                    le→leb 1 (v + e) (omega arith),
                    containing_address_lem size_4kib (v + e - 1) (omega (arith, span.small)),
                    (let at : (v + e - 1) / 4096 * 4096 ≡ v + j * 4096 =
                          omega (arith, span.page, part) in
                        at),
                    e1,
                  )
                  refl,
              sound1,
              ready1,
              less1,
              (λ x h.
                  zeros_outside b1 g.address d (4096 - d) x frame.0 (omega arith)
                    (λ e. h (rw e free))
                  ∙ copy_outside b p g.address x frame.0 (λ e. h (rw e free))),
              (
                g,
                bit_or flags copied,
                now,
                frame,
                taken',
                λ o h. tail_bytes j e p g.address b o before part after_all h,
                inr refl,
              ),
              same1,
            )
      ]
