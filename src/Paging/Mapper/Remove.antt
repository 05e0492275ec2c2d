-- ===== src/Paging/Mapper/Remove.antt =====
-- `unmap` on tables that form a tree, and what `translate` says afterwards.
use miniature_os.Base.{ℕ, ◌+◌, ◌*◌, ◌%◌, ◌^◌, ◌≡◌, ◌≢◌, refl, sym, ap, ◌∙◌, inl, inr, arith}
use miniature_os.Base.{[], some, true, false, Bool-cases, Run, ok}
use miniature_os.Base.{ltb, lt→ltb, ==_self, bit_and}
use miniature_os.Base.Bits.{bit_and_mask, bit_and_odd}
use miniature_os.Memory.Frame.{PhysicalFrame, Page, PageSize, size_4kib, page_size}
use miniature_os.Paging.Crates.{BitCrates}
use miniature_os.Paging.Entry.{is_present, entry_flags, present, all_flags}
use miniature_os.Paging.Table.{Memory, store, slot}
use miniature_os.Paging.Mapper.{Translation, translated, not_mapped, unmapped}
use miniature_os.Paging.Mapper.{
  find_table, translate_at, translate_4kib, unmap_entry, unmap_at, unmap_4kib,
}
use miniature_os.Paging.Mapper.Tree.{Owners, IsTree, entry_at, reading, walk, translate_at_lem}
use miniature_os.Paging.Mapper.Leaf.{store-IsTree, entry_at-store, entry_at-store_ne}
use miniature_os.Paging.Mapper.Pages.{Layout, layout_4kib, reading-absent}
use miniature_os.Paging.Mapper.Unmap.{zero_frame}

-- The flag `PRESENT` is among the flags of an entry that is present.
present_among :
    (lib : BitCrates) (e : ℕ)
    → is_present e ≡ true
    → lib.contains (entry_flags lib e) present ≡ true
unfolding is_present entry_flags
present_among lib e h =
    let flags : lib.from_bits_truncate all_flags e ≡ bit_and e all_flags =
      lib.from_bits_known all_flags e in
    rw (lib.contains_all (lib.from_bits_truncate all_flags e) present, flags)
      (ground (
        arith,
        bit_and_mask 1 e,
        bit_and_mask 1 (bit_and e all_flags),
        bit_and_odd e all_flags (omega arith),
      ))

zero-is_present : is_present 0 ≡ false
unfolding is_present
zero-is_present = refl

module _ (lib : BitCrates) (frame_to_virtual : PhysicalFrame size_4kib → Run ℕ) (root : ℕ)
    (m : Memory) (own : Owners) where
  -- What an `unmap` of a page that is mapped leaves behind.
  abbrev pub Removed :
      (S : PageSize) → ℕ → (Page S → Memory → Run (Translation S)) → Page S → Memory → Type 0
  Removed S depth translate page m' =
      IsTree lib frame_to_virtual depth root m' own
      × (translate page m' ≡ ok not_mapped)
      × ((other : Page S)
          → other.address % page_size S ≡ 0
          → other.address % 2 ^ 48 ≢ page.address % 2 ^ 48
          → translate other m' ≡ translate other m)

  module _ (S : PageSize) (depth : ℕ) (layout : Layout S depth) (page : Page S) where
    abbrev pub translate : Page S → Memory → Run (Translation S)
    translate q m = translate_at lib frame_to_virtual S (layout.path q) (layout.final q) root m

    abbrev pub here : Memory → ℕ
    here m = entry_at lib frame_to_virtual (layout.path page) (layout.final page) root m

    pub translate_entry :
        (m : Memory) (q : Page S)
        → IsTree lib frame_to_virtual depth root m own
        → translate q m
          ≡ reading lib frame_to_virtual S
              (entry_at lib frame_to_virtual (layout.path q) (layout.final q) root m)
    translate_entry m q v =
        translate_at_lem lib frame_to_virtual depth root m own v S (layout.path q) (layout.final q)
          (layout.inside q) (layout.final_inside q) (omega (arith, layout.full q))

    mapped-is_present :
        (f : PhysicalFrame S) (flags : ℕ)
        → IsTree lib frame_to_virtual depth root m own
        → translate page m ≡ ok (translated f flags)
        → is_present (here m) ≡ true
    mapped-is_present f flags v h = elim (Bool-cases (is_present (here m))) [
      | inl yes_present ↦ yes_present
      | inr absent ↦ absurd (
          let k =
            sym h ∙ translate_entry m page v ∙ reading-absent lib S frame_to_virtual _ absent in
          cc)
    ]

    -- The store of 0 to the entry that a walk found.
    removed :
        (t : ℕ)
        → IsTree lib frame_to_virtual depth root m own
        → page.address % page_size S ≡ 0
        → own t ≡ some (layout.path page)
        → find_table lib frame_to_virtual (layout.path page) root m ≡ ok (some t)
        → Removed S depth translate page (store m (t + 8 * layout.final page) 0)
    unfolding is_present
    removed t v aligned ot found =
        let m' : Memory = store m (t + 8 * layout.final page) 0 in
        let v' =
          store-IsTree lib frame_to_virtual depth root m own v t (layout.final page)
            (layout.path page) ot (layout.full page) (layout.final_inside page) 0 in
        let gone =
          entry_at-store lib frame_to_virtual depth root m own v t (layout.final page)
            (layout.path page) ot (layout.full page) (layout.final_inside page) 0
            (layout.inside page) found in
        (
          v',
          translate_entry m' page v' ∙ ap (reading lib frame_to_virtual S) gone,
          λ other aligned' far.
              translate_entry m' other v'
              ∙ ap (reading lib frame_to_virtual S) (
                  entry_at-store_ne lib frame_to_virtual depth root m own v t (layout.final page)
                    (layout.path page) ot (layout.full page) (layout.final_inside page) 0
                    (layout.path other) (layout.final other) (layout.inside other)
                    (layout.final_inside other) (layout.full other)
                    (λ (e, f). far (layout.distinct other page aligned' aligned e f)))
              ∙ sym (translate_entry m other v),
        )

    pub unmap_at-Removed :
        (f : PhysicalFrame S) (flags : ℕ)
        → IsTree lib frame_to_virtual depth root m own
        → page.address % page_size S ≡ 0
        → translate page m ≡ ok (translated f flags)
        → (m' : Memory) × (unmap_at lib frame_to_virtual S
              (layout.path page)
              (layout.final page)
              root
              page
              m
            ≡ ok (unmapped (record { address = 0 }) page, m'))
          × Removed S depth translate page m'
    unfolding unmap_at unmap_entry slot
    unmap_at-Removed f flags v aligned h =
        let there = mapped-is_present f flags v h in
        let inside : ltb (layout.final page) 512 ≡ true = lt→ltb _ _ (layout.final_inside page) in
        elim (walk lib frame_to_virtual depth root m own v (layout.path page) [] (layout.final page)
          root v.top (layout.inside page) (omega (arith, layout.full page))) [
            | inl (e, z) ↦
                absurd (let k = sym zero-is_present ∙ ap is_present (sym z) ∙ there in cc)
            | inr (t, found, ot, z) ↦
                let at : ℕ = t + 8 * layout.final page in
                let now : lib.contains (entry_flags lib (m at)) present ≡ true =
                  present_among lib (m at) (ap is_present (sym z) ∙ there) in
                (
                  store m at 0,
                  rw (found, inside, now, ==_self at, zero_frame lib S) refl,
                  removed t v aligned ot found,
                )
          ]

  -- On page tables that form a tree of four levels, `unmap` of a page of 4 KiB that `translate` has a
  -- frame for succeeds, although with the frame at address 0 for its result. The tables are the same
  -- tree afterwards; `translate` says that the page is not mapped, and says of all other pages
  -- what it said before.
  pub unmap_4kib-translate :
      (page : Page size_4kib) (f : PhysicalFrame size_4kib) (flags : ℕ)
      → IsTree lib frame_to_virtual 3 root m own
      → page.address % 4096 ≡ 0
      → translate_4kib lib frame_to_virtual root page m ≡ ok (translated f flags)
      → (m' : Memory) × (unmap_4kib lib frame_to_virtual root page m
          ≡ ok (unmapped (record { address = 0 }) page, m'))
        × Removed size_4kib 3 (translate_4kib lib frame_to_virtual root) page m'
  unfolding translate_4kib unmap_4kib layout_4kib
  unmap_4kib-translate page f flags v aligned h =
      unmap_at-Removed size_4kib 3 (layout_4kib lib) page f flags v aligned h
