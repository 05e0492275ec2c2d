-- ===== src/Paging/Mapper/Unmap.antt =====
-- The frame that `unmap` reports: the entry is 0 when its address is read.
use miniature_os.Base.{◌*◌, ◌/◌, ◌≡◌, ap, ◌∙◌, arith, ok}
use miniature_os.Memory.Frame.{PageSize, containing_address, page_size}
use miniature_os.Memory.Frame.Laws.{containing_address_lem}
use miniature_os.Paging.Crates.{BitCrates}
use miniature_os.Paging.Entry.{entry_address}

module _ (lib : BitCrates) where
  zero_address : entry_address lib 0 ≡ 0
  unfolding entry_address
  zero_address = omega (arith, lib.get_bits_range 0 12 48)

  pub zero_frame :
      (S : PageSize) → containing_address S (entry_address lib 0) ≡ ok (record { address = 0 })
  zero_frame S =
      ap (containing_address S) zero_address
      ∙ containing_address_lem S 0 (omega arith)
      ∙ ap (λ k. ok (record { address = k })) (zero_div S)
    where
      zero_div : (S : PageSize) → 0 / page_size S * page_size S ≡ 0
      zero_div S = omega arith
