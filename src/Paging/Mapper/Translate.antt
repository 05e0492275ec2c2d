-- ===== src/Paging/Mapper/Translate.antt =====
-- `map_to` and `translate` of pages of 4 KiB and of 2 MiB.
use miniature_os.Base.{ℕ, ◌+◌, ◌*◌, ◌%◌, ◌^◌, ◌<◌, ◌≡◌, sym, ap, ◌∙◌, arith}
use miniature_os.Base.{Run, ok}
use miniature_os.Base.{bit_or}
use miniature_os.Memory.Frame.{PhysicalFrame, Page, PageSize, size_4kib, size_2mib, page_size}
use miniature_os.Paging.Crates.{BitCrates}
use miniature_os.Paging.Entry.{set_address, huge_page}
use miniature_os.Paging.Table.{Memory}
use miniature_os.Paging.Mapper.{FrameAllocator, MapResult, mapped, frame_allocation_failed}
use miniature_os.Paging.Mapper.{
  page_already_mapped, map_to_4kib, map_to_2mib, translate_at, translate_4kib, translate_2mib,
  Translation,
}
use miniature_os.Paging.Mapper.{translated}
use miniature_os.Paging.Mapper.Tree.{Owners, IsTree, entry_at, reading, translate_at_lem}
use miniature_os.Paging.Mapper.Supply.{IsMapping, IsAllocator}
use miniature_os.Paging.Mapper.Map.{IsSound, Effect, map_at_lem}
use miniature_os.Paging.Mapper.Pages.{
  After, Layout, layout_4kib, layout_2mib, reading-absent, reading-present, reading-set_address,
  huge_page_flags,
}

module _ (lib : BitCrates) (frame_to_virtual : PhysicalFrame size_4kib → Run ℕ)
    (maps : IsMapping frame_to_virtual) {A : Type 0} (fa : FrameAllocator A)
    (IsFree : A → ℕ → Type 0) (IsReady : ℕ → A → Type 0) (supply : IsAllocator fa IsFree IsReady)
    (root k : ℕ) (m : Memory) (a : A) (own : Owners) where
  module _ (S : PageSize) (depth : ℕ) (layout : Layout S depth) (page : Page S)
      (frame : PhysicalFrame S) (flags : ℕ) where
    abbrev translate : Page S → Memory → Run (Translation S)
    translate q m = translate_at lib frame_to_virtual S (layout.path q) (layout.final q) root m

    pub translate-Layout :
        (m : Memory) (own : Owners) (q : Page S)
        → IsTree lib frame_to_virtual depth root m own
        → translate q m
          ≡ reading lib frame_to_virtual S
              (entry_at lib frame_to_virtual (layout.path q) (layout.final q) root m)
    translate-Layout m own q v =
        translate_at_lem lib frame_to_virtual depth root m own v S (layout.path q) (layout.final q)
          (layout.inside q) (layout.final_inside q) (omega (arith, layout.full q))

    -- A page whose entry is the same translates the same.
    translate_same :
        (m' : Memory) (own' : Owners) (q : Page S)
        → IsTree lib frame_to_virtual depth root m own
        → IsTree lib frame_to_virtual depth root m' own'
        → entry_at lib frame_to_virtual (layout.path q) (layout.final q) root m'
          ≡ entry_at lib frame_to_virtual (layout.path q) (layout.final q) root m
        → translate q m' ≡ translate q m
    translate_same m' own' q v v' e =
        translate-Layout m' own' q v'
        ∙ ap (reading lib frame_to_virtual S) e
        ∙ sym (translate-Layout m own q v)

    After-Effect :
        (m' : Memory) (own' : Owners) (a' : A) (r : MapResult S)
        → IsTree lib frame_to_virtual depth root m own
        → IsTree lib frame_to_virtual depth root m' own'
        → page.address % page_size S ≡ 0
        → reading lib frame_to_virtual S (set_address frame.address flags)
          ≡ ok (translated frame flags)
        → Effect lib frame_to_virtual depth root IsFree S
            (layout.path page)
            (layout.final page)
            page
            (set_address frame.address flags)
            m
            m'
            a'
            r
        → After S translate (IsFree a') page frame flags m m' r
    After-Effect m' own' a' (mapped of) v v' aligned read (same_page, absent, now, others) = (
      same_page,
      translate-Layout m own page v ∙ reading-absent lib S frame_to_virtual _ absent,
      translate-Layout m' own' page v' ∙ ap (reading lib frame_to_virtual S) now ∙ read,
      λ other aligned' far. translate_same m' own' other v v' (
          others (layout.path other) (layout.final other) (layout.inside other)
            (layout.final_inside other) (layout.full other)
            (λ (e, f). far (layout.distinct other page aligned' aligned e f))),
    )
    After-Effect m' own' a' frame_allocation_failed v v' aligned read (spent, same) = (
      spent,
      λ other. translate_same m' own' other v v' (
          same (layout.path other) (layout.final other) (layout.inside other)
            (layout.final_inside other) (layout.full other)),
    )
    After-Effect m' own' a' page_already_mapped v v' aligned read (there, same) =
        let (f, e) = reading-present lib S frame_to_virtual _ there in
        (
          (f, _, translate-Layout m own page v ∙ e),
          λ other. translate_same m' own' other v v' (
              same (layout.path other) (layout.final other) (layout.inside other)
                (layout.final_inside other) (layout.full other)),
        )

  -- On page tables that form a tree of four levels, no table of which lies in a free frame, with an
  -- allocator that hands out free frames, `map_to` of a page of 4 KiB returns (the frame is below
  -- 2^48, and the flags contain `PRESENT`), and the tables form such a tree afterwards. If it
  -- reports success, the page was not mapped before, `translate` gives the frame and exactly the
  -- flags afterwards, and every other page translates as before. If it reports that a
  -- frame is missing, the allocator has none left, and if it reports that the page is mapped
  -- already, it is; in both cases all pages translate as before.
  pub map_to_4kib-translate :
      (page : Page size_4kib) (p hi lo : ℕ)
      → page.address % 4096 ≡ 0
      → p < 2 ^ 36
      → hi < 2 ^ 12
      → lo < 2 ^ 12
      → lo % 2 ≡ 1
      → IsSound lib frame_to_virtual 3 root IsFree m a own
      → IsReady (3 + k) a
      → (r : MapResult size_4kib) × (m' : Memory) × (a' : A) × (own' : Owners) × (map_to_4kib lib
            frame_to_virtual fa root
            (record { address = p * 2 ^ 12 })
            page
            (hi * 2 ^ 52 + lo)
            m
            a
          ≡ ok (r, m', a'))
        × IsSound lib frame_to_virtual 3 root IsFree m' a' own'
        × IsReady k a'
        × After size_4kib
            (translate_4kib lib frame_to_virtual root)
            (IsFree a')
            page
            (record { address = p * 2 ^ 12 })
            (hi * 2 ^ 52 + lo)
            m
            m'
            r
  unfolding map_to_4kib translate_4kib layout_4kib
  map_to_4kib-translate page p hi lo aligned hp hhi hlo odd sound ready =
      let frame : PhysicalFrame size_4kib = record { address = p * 2 ^ 12 } in
      let flags : ℕ = hi * 2 ^ 52 + lo in
      let layout = layout_4kib lib in
      let (r, m', a', own', e, sound', extends, ready', effect) =
        map_at_lem lib frame_to_virtual maps fa IsFree IsReady supply size_4kib 3 root k
          (layout.path page) (layout.final page) frame page flags m a own sound ready
          (layout.inside page) (layout.final_inside page) (layout.full page) in
      (
        r,
        m',
        a',
        own',
        e,
        sound',
        ready',
        After-Effect size_4kib 3 layout page frame flags m' own' a' r sound.0 sound'.0 aligned
            (reading-set_address lib size_4kib frame_to_virtual p hi lo hp hhi hlo odd
              (omega arith))
            effect,
      )

  -- The same for pages of 2 MiB, on tables of three levels: `translate` gives the flags with
  -- `HUGE_PAGE` added.
  pub map_to_2mib-translate :
      (page : Page size_2mib) (q hi lo : ℕ)
      → page.address % 2 ^ 21 ≡ 0
      → q < 2 ^ 27
      → hi < 2 ^ 12
      → lo < 2 ^ 12
      → lo % 2 ≡ 1
      → IsSound lib frame_to_virtual 2 root IsFree m a own
      → IsReady (2 + k) a
      → (r : MapResult size_2mib) × (m' : Memory) × (a' : A) × (own' : Owners) × (map_to_2mib lib
            frame_to_virtual fa root
            (record { address = q * 2 ^ 21 })
            page
            (hi * 2 ^ 52 + lo)
            m
            a
          ≡ ok (r, m', a'))
        × IsSound lib frame_to_virtual 2 root IsFree m' a' own'
        × IsReady k a'
        × After size_2mib
            (translate_2mib lib frame_to_virtual root)
            (IsFree a')
            page
            (record { address = q * 2 ^ 21 })
            (bit_or (hi * 2 ^ 52 + lo) huge_page)
            m
            m'
            r
  unfolding map_to_2mib translate_2mib layout_2mib
  map_to_2mib-translate page q hi lo aligned hq hhi hlo odd sound ready =
      let frame : PhysicalFrame size_2mib = record { address = q * 2 ^ 21 } in
      let flags : ℕ = bit_or (hi * 2 ^ 52 + lo) huge_page in
      let (split, hlo', odd') = huge_page_flags hi lo hlo in
      let address : q * 2 ^ 21 ≡ q * 512 * 2 ^ 12 = omega arith in
      let read : reading lib frame_to_virtual size_2mib (set_address frame.address flags)
          ≡ ok (translated frame flags) =
        rw (address, split)
          (reading-set_address lib size_2mib frame_to_virtual (q * 512) hi (bit_or lo huge_page)
            (omega arith) hhi hlo' (odd' ∙ odd) (omega arith)) in
      let layout = layout_2mib lib in
      let (r, m', a', own', e, sound', extends, ready', effect) =
        map_at_lem lib frame_to_virtual maps fa IsFree IsReady supply size_2mib 2 root k
          (layout.path page) (layout.final page) frame page flags m a own sound ready
          (layout.inside page) (layout.final_inside page) (layout.full page) in
      (
        r,
        m',
        a',
        own',
        e,
        sound',
        ready',
        After-Effect size_2mib 2 layout page frame flags m' own' a' r sound.0 sound'.0 aligned read
            effect,
      )
