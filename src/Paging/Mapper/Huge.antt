-- ===== src/Paging/Mapper/Huge.antt =====
-- `unmap` of a page of 2 MiB in all cases, on tables of three levels that form a tree.
use miniature_os.Base.{ℕ, ◌+◌, ◌*◌, ◌%◌, ◌^◌, ◌≡◌, ◌⊎◌, refl, sym, ap, ◌∙◌, inl, inr, arith}
use miniature_os.Base.{Option, [], none, some, true, false, Bool-cases, Run, ok, panic}
use miniature_os.Base.{ltb, lt→ltb, bit_and}
use miniature_os.Base.Bits.{bit_and_mask, bit_and_odd}
use miniature_os.Memory.Frame.{PhysicalFrame, Page, PageSize, size_4kib, size_2mib, page_size}
use miniature_os.Paging.Crates.{BitCrates}
use miniature_os.Paging.Entry.{is_present, entry_flags, present, all_flags}
use miniature_os.Paging.Table.{Memory, slot}
use miniature_os.Paging.Mapper.{
  Translation, translated, not_mapped, UnmapResult, unmapped, page_not_mapped,
}
use miniature_os.Paging.Mapper.{
  find_table, indices_2mib, translate_2mib, unmap_entry, unmap_at, unmap_2mib,
}
use miniature_os.Paging.Mapper.Tree.{Owners, IsTree, entry_at, walk}
use miniature_os.Paging.Mapper.Pages.{Layout, layout_2mib, reading-absent, reading-present}
use miniature_os.Paging.Mapper.Remove
use miniature_os.Paging.Mapper.Remove.{Removed}

-- The flag `PRESENT` is not among the flags of an entry that is not present.
present_missing :
    (lib : BitCrates) (e : ℕ)
    → is_present e ≡ false
    → lib.contains (entry_flags lib e) present ≡ false
unfolding is_present entry_flags
present_missing lib e h =
    let flags : lib.from_bits_truncate all_flags e ≡ bit_and e all_flags =
      lib.from_bits_known all_flags e in
    rw (lib.contains_all (lib.from_bits_truncate all_flags e) present, flags)
      (ground (
        arith,
        bit_and_mask 1 e,
        bit_and_mask 1 (bit_and e all_flags),
        bit_and_odd e all_flags (omega arith),
      ))

module _ (lib : BitCrates) (frame_to_virtual : PhysicalFrame size_4kib → Run ℕ) (root : ℕ)
    (m : Memory) (own : Owners) where
  -- The page was mapped, and its entry is reset; or a table on the way to it is missing, which is a
  -- panic; or all tables are there, and its entry is not present.
  abbrev pub Outcome :
      (S : PageSize)
      → ℕ
      → (Page S → Memory → Run (Translation S))
      → Page S
      → Run (Option ℕ)
      → Run (UnmapResult S × Memory)
      → Type 0
  Outcome S depth translate page found r =
      ((f : PhysicalFrame S) × (flags : ℕ) × (m' : Memory) × (translate page m
          ≡ ok (translated f flags))
        × (r ≡ ok (unmapped (record { address = 0 }) page, m'))
        × Removed lib frame_to_virtual root m own S depth translate page m')
      ⊎ ((translate page m ≡ ok not_mapped)
          × (((found ≡ ok none) × (r ≡ panic))
              ⊎ ((t : ℕ) × (found ≡ ok (some t)) × (r ≡ ok (page_not_mapped, m)))))

  module _ (S : PageSize) (depth : ℕ) (layout : Layout S depth) (page : Page S)
      (v : IsTree lib frame_to_virtual depth root m own) where
    abbrev translate : Page S → Memory → Run (Translation S)
    translate = Remove.translate lib frame_to_virtual root m own S depth layout page

    abbrev here : ℕ
    here = entry_at lib frame_to_virtual (layout.path page) (layout.final page) root m

    abbrev found : Run (Option ℕ)
    found = find_table lib frame_to_virtual (layout.path page) root m

    abbrev result : Run (UnmapResult S × Memory)
    result = unmap_at lib frame_to_virtual S (layout.path page) (layout.final page) root page m

    -- A page whose entry is not present.
    unmap_at-absent :
        is_present here ≡ false
        → ((found ≡ ok none) × (result ≡ panic))
          ⊎ ((t : ℕ) × (found ≡ ok (some t)) × (result ≡ ok (page_not_mapped, m)))
    unfolding unmap_at unmap_entry slot
    unmap_at-absent absent =
        elim (walk lib frame_to_virtual depth root m own v (layout.path page) [] (layout.final page)
          root v.top (layout.inside page) (omega (arith, layout.full page))) [
            | inl (e, z) ↦ inl (e, rw e refl)
            | inr (t, e, ot, z) ↦
                let inside : ltb (layout.final page) 512 ≡ true =
                  lt→ltb _ _ (layout.final_inside page) in
                let gone =
                  present_missing lib (m (t + 8 * layout.final page))
                    (ap is_present (sym z) ∙ absent) in
                inr (t, e, rw (e, inside, gone) refl)
          ]

    unmap_at-Outcome : page.address % page_size S ≡ 0 → Outcome S depth translate page found result
    unmap_at-Outcome aligned = elim (Bool-cases (is_present here)) [
      | inl there ↦
          let (f, read) = reading-present lib S frame_to_virtual here there in
          let says =
            Remove.translate_entry lib frame_to_virtual root m own S depth layout page m page v
            ∙ read in
          let (m', r, removed) =
            Remove.unmap_at-Removed lib frame_to_virtual root m own S depth layout page f
              (entry_flags lib here) v aligned says in
          inl (f, entry_flags lib here, m', says, r, removed)
      | inr absent ↦ inr (
        Remove.translate_entry lib frame_to_virtual root m own S depth layout page m page v
            ∙ reading-absent lib S frame_to_virtual here absent,
        unmap_at-absent absent,
      )
    ]

  -- `unmap` of a page of 2 MiB on page tables that form a tree of three levels. If `translate` has a
  -- frame for the page, `unmap` succeeds, although with the frame at address 0 for its result; then
  -- the tables are the same tree, `translate` says that the page is not mapped, and says of all
  -- other pages what it said before. Otherwise `translate` says that the page is not mapped, and
  -- `unmap` panics if a table on the way to it is missing, and else reports that the page is not
  -- mapped, and leaves the memory as it was.
  pub unmap_2mib-translate :
      (page : Page size_2mib)
      → IsTree lib frame_to_virtual 2 root m own
      → page.address % 2 ^ 21 ≡ 0
      → Outcome size_2mib 2
          (translate_2mib lib frame_to_virtual root)
          page
          (find_table lib frame_to_virtual (indices_2mib lib frame_to_virtual page.address) root m)
          (unmap_2mib lib frame_to_virtual root page m)
  unfolding translate_2mib unmap_2mib layout_2mib
  unmap_2mib-translate page v aligned =
      unmap_at-Outcome size_2mib 2 (layout_2mib lib) page v aligned
