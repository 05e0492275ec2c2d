-- ===== src/Paging/Mapper/Pages.antt =====
-- How pages of 4 KiB and of 2 MiB are found in the tables.
use miniature_os.Base.{ℕ, ◌+◌, ◌*◌, ◌/◌, ◌%◌, ◌^◌, ◌<◌, ◌≡◌, ◌≢◌, refl, ap, ◌∙◌, arith}
use miniature_os.Base.{List, [], ◌∷◌, true, false, Run, ok, length}
use miniature_os.Base.{bit_or}
use miniature_os.Base.Bits.{bit_or_parts, bit_or-lt, bit_or-zero, bit_or_even}
use miniature_os.Memory.Frame.{PhysicalFrame, Page, PageSize, size_4kib, size_2mib, page_size}
use miniature_os.Memory.Frame.Laws.{containing_address_lem}
use miniature_os.Paging.Crates.{BitCrates}
use miniature_os.Paging.Entry.{
  is_present, set_address, set_address_fields, entry_address, entry_flags, huge_page,
}
use miniature_os.Paging.Entry.{l4_index, l3_index, l2_index, l1_index, indices_lem}
use miniature_os.Paging.Table.{Memory}
use miniature_os.Paging.Mapper.{MapResult, mapped, frame_allocation_failed}
use miniature_os.Paging.Mapper.{page_already_mapped, Translation}
use miniature_os.Paging.Mapper.{translated, not_mapped}
use miniature_os.Paging.Mapper.Tree.{IsPath, reading}

-- What `translate` says of all pages after a call of `map_to`, compared with before; `free`
-- says which frames the allocator has left.
abbrev pub After :
    (S : PageSize)
    → (Page S → Memory → Run (Translation S))
    → (ℕ → Type 0)
    → Page S
    → PhysicalFrame S
    → ℕ
    → Memory
    → Memory
    → MapResult S
    → Type 0
After S translate free page frame flags m m' (mapped of) =
    (of ≡ page)
    × (translate page m ≡ ok not_mapped)
    × (translate page m' ≡ ok (translated frame flags))
    × ((other : Page S)
        → other.address % page_size S ≡ 0
        → other.address % 2 ^ 48 ≢ page.address % 2 ^ 48
        → translate other m' ≡ translate other m)
After S translate free page frame flags m m' frame_allocation_failed =
    ((x : ℕ) → ¬ free x) × ((other : Page S) → translate other m' ≡ translate other m)
After S translate free page frame flags m m' page_already_mapped =
    ((f : PhysicalFrame S) × (old : ℕ) × (translate page m ≡ ok (translated f old)))
    × ((other : Page S) → translate other m' ≡ translate other m)

-- `HUGE_PAGE` is one of the low flags.
pub huge_page_flags :
    (hi lo : ℕ)
    → lo < 2 ^ 12
    → (bit_or (hi * 2 ^ 52 + lo) huge_page ≡ hi * 2 ^ 52 + bit_or lo huge_page)
      × (bit_or lo huge_page < 2 ^ 12)
      × (bit_or lo huge_page % 2 ≡ lo % 2)
huge_page_flags hi lo h = (
  bit_or_parts 52 hi 0 lo huge_page (omega arith) (omega arith)
      ∙ ap (λ (x : ℕ). x * 2 ^ 52 + bit_or lo huge_page) (bit_or-zero hi),
  bit_or-lt 12 lo huge_page h (omega arith),
  bit_or_even lo huge_page (omega arith),
)

-- The tables that a size of pages is found by: a path and a last index for each page.
pub record Layout (S : PageSize) (depth : ℕ) : Type 0 where
  pub path : Page S → List ℕ
  pub final : Page S → ℕ
  pub inside : (q : Page S) → IsPath (path q)
  pub final_inside : (q : Page S) → final q < 512
  pub full : (q : Page S) → length (path q) ≡ depth
  pub distinct :
      (q r : Page S)
      → q.address % page_size S ≡ 0
      → r.address % page_size S ≡ 0
      → path q ≡ path r
      → final q ≡ final r
      → q.address % 2 ^ 48 ≡ r.address % 2 ^ 48

module _ (lib : BitCrates) where
  pub reading-absent :
      (S : PageSize) (frame_to_virtual : PhysicalFrame size_4kib → Run ℕ) (e : ℕ)
      → is_present e ≡ false
      → reading lib frame_to_virtual S e ≡ ok not_mapped
  reading-absent S frame_to_virtual e h = rw h refl

  pub reading-present :
      (S : PageSize) (frame_to_virtual : PhysicalFrame size_4kib → Run ℕ) (e : ℕ)
      → is_present e ≡ true
      → (f : PhysicalFrame S) × (reading lib frame_to_virtual S e
          ≡ ok (translated f (entry_flags lib e)))
  unfolding entry_address
  reading-present S frame_to_virtual e h = (
    record { address = entry_address lib e / page_size S * page_size S },
    rw
        (
          h,
          containing_address_lem S (entry_address lib e)
              (omega (arith, lib.get_bits_range e 12 48)),
        )
        refl,
  )

  -- An entry that was written for a frame and flags with `PRESENT` reads as these.
  pub reading-set_address :
      (S : PageSize) (frame_to_virtual : PhysicalFrame size_4kib → Run ℕ) (p hi lo : ℕ)
      → p < 2 ^ 36
      → hi < 2 ^ 12
      → lo < 2 ^ 12
      → lo % 2 ≡ 1
      → p * 2 ^ 12 % page_size S ≡ 0
      → reading lib frame_to_virtual S (set_address (p * 2 ^ 12) (hi * 2 ^ 52 + lo))
        ≡ ok (translated (record { address = p * 2 ^ 12 }) (hi * 2 ^ 52 + lo))
  reading-set_address S frame_to_virtual p hi lo hp hhi hlo odd aligned =
      let (address, flags, here) = set_address_fields lib p hi lo hp hhi hlo in
      let round : p * 2 ^ 12 / page_size S * page_size S ≡ p * 2 ^ 12 = round S aligned in
      rw (here, address, flags, odd, containing_address_lem S (p * 2 ^ 12) (omega arith), round)
        refl
    where
      round :
          (S : PageSize)
          → p * 2 ^ 12 % page_size S ≡ 0
          → p * 2 ^ 12 / page_size S * page_size S ≡ p * 2 ^ 12
      round size_4kib e = omega arith
      round size_2mib e = omega arith

  unfoldable pub layout_4kib : Layout size_4kib 3
  unfolding l4_index l3_index l2_index l1_index
  layout_4kib = record {
    path = λ q. l4_index lib q.address ∷ l3_index lib q.address ∷ l2_index lib q.address ∷ [];
    final = λ q. l1_index lib q.address;
    inside = λ q. (
      omega (arith, lib.get_bits_range q.address 39 48),
      (
        omega (arith, lib.get_bits_range q.address 30 39),
        (omega (arith, lib.get_bits_range q.address 21 30), tt),
      ),
    );
    final_inside = λ q. omega (arith, lib.get_bits_range q.address 12 21);
    full = λ q. refl;
    distinct = λ q r aligned_q aligned_r e e1.
        let e4 : l4_index lib q.address ≡ l4_index lib r.address = cc in
        let e3 : l3_index lib q.address ≡ l3_index lib r.address = cc in
        let e2 : l2_index lib q.address ≡ l2_index lib r.address = cc in
        omega (arith, indices_lem lib q.address, indices_lem lib r.address, e4, e3, e2, e1);
  }

  unfoldable pub layout_2mib : Layout size_2mib 2
  unfolding l4_index l3_index l2_index l1_index
  layout_2mib = record {
    path = λ q. l4_index lib q.address ∷ l3_index lib q.address ∷ [];
    final = λ q. l2_index lib q.address;
    inside = λ q. (
      omega (arith, lib.get_bits_range q.address 39 48),
      (omega (arith, lib.get_bits_range q.address 30 39), tt),
    );
    final_inside = λ q. omega (arith, lib.get_bits_range q.address 21 30);
    full = λ q. refl;
    distinct = λ q r aligned_q aligned_r e e2.
        let e4 : l4_index lib q.address ≡ l4_index lib r.address = cc in
        let e3 : l3_index lib q.address ≡ l3_index lib r.address = cc in
        let zero_q : l1_index lib q.address ≡ 0 =
          omega (arith, lib.get_bits_range q.address 12 21) in
        let zero_r : l1_index lib r.address ≡ 0 =
          omega (arith, lib.get_bits_range r.address 12 21) in
        omega
          (arith, indices_lem lib q.address, indices_lem lib r.address, e4, e3, e2, zero_q, zero_r);
  }
