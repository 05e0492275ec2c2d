-- ===== src/Paging/Mapper/Enough.antt =====
-- Calls of the allocator and of `map_to` for pages of 4 KiB, with frames to spare: they succeed.
use mathlib.Core.Path.{subst}
use miniature_os.Base.{ℕ, suc, ◌+◌, ◌*◌, ◌/◌, ◌<◌, ◌%◌, ◌^◌, ◌≡◌, ◌≢◌, sym, ap, ◌∙◌, arith}
use miniature_os.Base.{Option, none, some, Run, ok}
use miniature_os.Memory.Frame.{PhysicalFrame, Page, size_4kib}
use miniature_os.Paging.Crates.{BitCrates}
use miniature_os.Paging.Entry.{set_address, set_address_fields}
use miniature_os.Paging.Table.{Memory}
use miniature_os.Paging.Mapper.{FrameAllocator, MapResult, mapped, frame_allocation_failed}
use miniature_os.Paging.Mapper.{
  page_already_mapped, map_to_4kib, translate_4kib, not_mapped, translated, Translation,
}
use miniature_os.Paging.Mapper.Tree.{Owners, IsTree, entry_at, reading, translate_at_lem}
use miniature_os.Paging.Mapper.Supply.{IsFrame, IsMapping, Handed, IsAllocator}
use miniature_os.Paging.Mapper.Map.{IsSound, Effect, map_at_lem}
use miniature_os.Paging.Mapper.Pages.{
  layout_4kib, reading-present, reading-absent, reading-set_address,
}

-- A frame as its number, in the form in which entries are read.
frame_form :
    (f : PhysicalFrame size_4kib) → IsFrame f → f ≡ record { address = f.address / 4096 * 2 ^ 12 }
frame_form f (page, small) =
    ap (λ x. record { address = x })
      (let e : f.address ≡ f.address / 4096 * 2 ^ 12 = omega (arith, page) in e)

-- Flags that an entry keeps, `PRESENT` among them.
abbrev pub IsFlags : ℕ → Type 0
IsFlags flags =
    (hi : ℕ) × (lo : ℕ) × (flags ≡ hi * 2 ^ 52 + lo) × (hi < 2 ^ 12) × (lo < 2 ^ 12) × (lo % 2 ≡ 1)

pub reading-IsFlags :
    (lib : BitCrates) (frame_to_virtual : PhysicalFrame size_4kib → Run ℕ)
    (f : PhysicalFrame size_4kib) (flags : ℕ)
    → IsFrame f
    → IsFlags flags
    → reading lib frame_to_virtual size_4kib (set_address f.address flags) ≡ ok (translated f flags)
reading-IsFlags lib frame_to_virtual f flags is (hi, lo, e, hhi, hlo, odd) = rw e (
    subst
      (λ (g : PhysicalFrame size_4kib).
        reading lib frame_to_virtual size_4kib (set_address g.address (hi * 2 ^ 52 + lo))
        ≡ ok (translated g (hi * 2 ^ 52 + lo)))
      (sym (frame_form f is))
      (reading-set_address lib size_4kib frame_to_virtual (f.address / 4096) hi lo
        (omega (arith, is.1)) hhi hlo odd (omega arith)))

pub reading-none :
    (lib : BitCrates) (frame_to_virtual : PhysicalFrame size_4kib → Run ℕ)
    (f : PhysicalFrame size_4kib)
    → IsFrame f
    → reading lib frame_to_virtual size_4kib (set_address f.address 0) ≡ ok not_mapped
reading-none lib frame_to_virtual f is =
    subst
      (λ (g : PhysicalFrame size_4kib).
        reading lib frame_to_virtual size_4kib (set_address g.address 0) ≡ ok not_mapped)
      (sym (frame_form f is))
      (reading-absent lib size_4kib frame_to_virtual _
        (set_address_fields lib (f.address / 4096) 0 0 (omega (arith, is.1)) (omega arith)
          (omega arith)).2)

module _ (lib : BitCrates) (frame_to_virtual : PhysicalFrame size_4kib → Run ℕ)
    (maps : IsMapping frame_to_virtual) {A : Type 0} (fa : FrameAllocator A)
    (IsFree : A → ℕ → Type 0) (IsReady : ℕ → A → Type 0) where
  -- As long as the allocator is ready, it has a free frame.
  abbrev pub HasFrames : Type 0
  HasFrames = (k : ℕ) (a : A) → IsReady k a → (x : ℕ) × IsFree a x

  -- No frame has become free.
  abbrev pub Shrinks : A → A → Type 0
  Shrinks a a' = (x : ℕ) → IsFree a' x → IsFree a x

  module _ (supply : IsAllocator fa IsFree IsReady) (plenty : HasFrames) where
    abbrev IsReadySince : A → ℕ → A → Type 0
    IsReadySince before k a = IsReady k a × Shrinks before a

    supply_since : (before : A) → IsAllocator fa IsFree (IsReadySince before)
    supply_since before = record {
      fewer = λ k a (ready, less). (supply.fewer k a ready, less);
      call = λ k a (ready, less).
          let (r, a', e, ready', handed) = supply.call k a ready in
          (r, a', e, (ready', λ x free. less x (still r a a' handed x free)), handed);
    }
      where
        still :
            (r : Option (PhysicalFrame size_4kib)) (a a' : A)
            → Handed fa IsFree a r a'
            → Shrinks a a'
        still none a a' spent x free = absurd (spent x free)
        still (some f) a a' handed x free = handed.3 x free

    -- A frame is handed out.
    abbrev pub Got : ℕ → A → Type 0
    Got k a =
        (f : PhysicalFrame size_4kib) × (a' : A) × (fa.allocate_frame a ≡ ok (some f, a'))
        × IsReady k a'
        × IsFrame f
        × IsFree a f.address
        × (¬ IsFree a' f.address)
        × Shrinks a a'

    pub allocate : (k : ℕ) (a : A) → IsReady (suc k) a → Got k a
    allocate k a ready =
        let (r, a', e, ready', handed) = supply.call k a ready in given r a' e ready' handed
      where
        given :
            (r : Option (PhysicalFrame size_4kib)) (a' : A)
            → fa.allocate_frame a ≡ ok (r, a')
            → IsReady k a'
            → Handed fa IsFree a r a'
            → Got k a
        given none a' e ready' spent = absurd (let (x, free) = plenty k a' ready' in spent x free)
        given (some f) a' e ready' (frame, free, taken, less) =
            (f, a', e, ready', frame, free, taken, less)

    module _ (root : ℕ) where
      abbrev Sound : Memory → A → Owners → Type 0
      Sound = IsSound lib frame_to_virtual 3 root IsFree

      pub Sound-Shrinks :
          (m : Memory) (a a' : A) (own : Owners) → Sound m a own → Shrinks a a' → Sound m a' own
      Sound-Shrinks m a a' own (v, apart) less =
          (v, λ f t free e. apart f t (less f.address free) e)

      abbrev translate : Page size_4kib → Memory → Run (Translation size_4kib)
      translate = translate_4kib lib frame_to_virtual root

      -- `translate` reads the entry of the page.
      view :
          (m : Memory) (own : Owners) (q : Page size_4kib)
          → IsTree lib frame_to_virtual 3 root m own
          → translate q m
            ≡ reading lib frame_to_virtual size_4kib (
                entry_at lib frame_to_virtual
                  ((layout_4kib lib).path q)
                  ((layout_4kib lib).final q)
                  root
                  m)
      unfolding translate_4kib layout_4kib
      view m own q v =
          let layout = layout_4kib lib in
          translate_at_lem lib frame_to_virtual 3 root m own v size_4kib (layout.path q)
            (layout.final q) (layout.inside q) (layout.final_inside q)
            (omega (arith, layout.full q))

      module _ (k : ℕ) (page : Page size_4kib) (frame : PhysicalFrame size_4kib) (flags : ℕ)
          (m : Memory) (a : A) (own : Owners) where
        -- The page is mapped, and nothing else changes.
        abbrev pub Success : Type 0
        Success =
            (m' : Memory) × (a' : A) × (own' : Owners) × (map_to_4kib lib frame_to_virtual fa root
                frame page flags m a
              ≡ ok (mapped page, m', a'))
            × Sound m' a' own'
            × IsReady k a'
            × Shrinks a a'
            × (translate page m'
                ≡ reading lib frame_to_virtual size_4kib (set_address frame.address flags))
            × ((q : Page size_4kib)
                → q.address % 4096 ≡ 0
                → q.address % 2 ^ 48 ≢ page.address % 2 ^ 48
                → translate q m' ≡ translate q m)

        pub map_page :
            Sound m a own
            → IsReady (3 + k) a
            → page.address % 4096 ≡ 0
            → translate page m ≡ ok not_mapped
            → Success
        unfolding map_to_4kib translate_4kib layout_4kib
        map_page sound ready aligned absent =
            let layout = layout_4kib lib in
            let (r, m', a', own', e, sound', extends, (ready', less), effect) =
              map_at_lem lib frame_to_virtual maps fa IsFree (IsReadySince a) (supply_since a)
                size_4kib 3 root k (layout.path page) (layout.final page) frame page flags m a own
                sound (ready, λ x free. free) (layout.inside page) (layout.final_inside page)
                (layout.full page) in
            go r m' a' own' e sound' ready' less effect
          where
            go :
                (r : MapResult size_4kib) (m' : Memory) (a' : A) (own' : Owners)
                → map_to_4kib lib frame_to_virtual fa root frame page flags m a ≡ ok (r, m', a')
                → Sound m' a' own'
                → IsReady k a'
                → Shrinks a a'
                → Effect lib frame_to_virtual 3 root IsFree size_4kib
                    ((layout_4kib lib).path page)
                    ((layout_4kib lib).final page)
                    page
                    (set_address frame.address flags)
                    m
                    m'
                    a'
                    r
                → Success
            go (mapped of) m' a' own' e sound' ready' less (same_page, was, now, others) =
                let layout = layout_4kib lib in
                (
                  m',
                  a',
                  own',
                  e ∙ ap (λ p. ok (mapped p, m', a')) same_page,
                  sound',
                  ready',
                  less,
                  view m' own' page sound'.0 ∙ ap (reading lib frame_to_virtual size_4kib) now,
                  λ q aligned_q far.
                      view m' own' q sound'.0
                      ∙ ap (reading lib frame_to_virtual size_4kib) (
                          others (layout.path q) (layout.final q) (layout.inside q)
                            (layout.final_inside q) (layout.full q)
                            (λ (e, f). far (layout.distinct q page aligned_q aligned e f)))
                      ∙ sym (view m own q sound.0),
                )
            go frame_allocation_failed m' a' own' e sound' ready' less (spent, same) =
                absurd (let (x, free) = plenty k a' ready' in spent x free)
            go page_already_mapped m' a' own' e sound' ready' less (there, same) =
                let (f, read) = reading-present lib size_4kib frame_to_virtual _ there in
                absurd (let both = sym absent ∙ view m own page sound.0 ∙ read in cc)
