-- ===== src/Paging/Mapper/Fresh.antt =====
-- A new table of the mapper: the entry that refers to it, and its contents.
use native.Mathlib.Decide.{dec_lt}
use miniature_os.Base.Bits.{bit_or_odd}
use miniature_os.Base.{ℕ, ◌+◌, ◌-◌, ◌*◌, ◌/◌, ◌%◌, ◌^◌, ◌<◌, ◌≡◌, ◌≢◌, refl, sym, ap, ◌∙◌, arith}
use miniature_os.Base.{false, Run, ok}
use miniature_os.Memory.Frame.{PhysicalFrame, size_4kib}
use miniature_os.Memory.Frame.Laws.{containing_address_lem}
use miniature_os.Paging.Crates.{BitCrates}
use miniature_os.Paging.Entry.{
  is_unused, physical_frame, entry_address, add_flags, set_address, set_address_fields,
}
use miniature_os.Paging.Table.{Memory}
use miniature_os.Paging.Mapper.{parent_flags}
use miniature_os.Paging.Mapper.Tree.{entry_table}
use miniature_os.Paging.Mapper.Extend.{add_flags_address}
use miniature_os.Paging.Mapper.Supply.{IsFrame, IsMapping}

-- An initialised table elsewhere leaves an entry alone.
pub initialize_other :
    (t u j : ℕ) (m m' : Memory)
    → t % 4096 ≡ 0
    → u % 4096 ≡ 0
    → u ≢ t
    → j < 512
    → ((x : ℕ) → x < t → m' x ≡ m x)
    → ((k : ℕ) → m' (t + 4096 + k) ≡ m (t + 4096 + k))
    → m' (u + 8 * j) ≡ m (u + 8 * j)
initialize_other t u j m m' ht hu ne small below above = elim (dec_lt u t) [
  | yes lt ↦ below (u + 8 * j) (omega arith)
  | no ge ↦
      let e : t + 4096 + (u + 8 * j - (t + 4096)) ≡ u + 8 * j = omega arith in
      ap m' (sym e) ∙ above (u + 8 * j - (t + 4096)) ∙ ap m e
]

module _ (lib : BitCrates) (frame_to_virtual : PhysicalFrame size_4kib → Run ℕ)
    (maps : IsMapping frame_to_virtual) where
  -- An entry written for a frame refers to the frame's table, and is in use.
  pub entry_table-set_address :
      (f : PhysicalFrame size_4kib) (t : ℕ)
      → IsFrame f
      → frame_to_virtual f ≡ ok t
      → (entry_table lib frame_to_virtual (set_address f.address parent_flags) ≡ ok t)
        × (is_unused (set_address f.address parent_flags) ≡ false)
  unfolding physical_frame is_unused set_address
  entry_table-set_address f t (aligned, small) e =
      let q : ℕ = f.address / 2 ^ 12 in
      let back : f.address ≡ q * 2 ^ 12 = omega arith in
      let there : entry_address lib (set_address f.address parent_flags) ≡ f.address =
        ap (λ (x : ℕ). entry_address lib (set_address x parent_flags)) back
        ∙ (set_address_fields lib q 0 7 (omega arith) (omega arith) (omega arith)).0
        ∙ sym back in
      let round : f.address / 4096 * 4096 ≡ f.address = omega arith in
      (
        rw (there, containing_address_lem size_4kib f.address (omega arith), round) e,
        ground (arith, bit_or_odd f.address 7),
      )

  pub entry_table-add_flags :
      (e : ℕ)
      → entry_table lib frame_to_virtual (add_flags e parent_flags)
        ≡ entry_table lib frame_to_virtual e
  unfolding physical_frame
  entry_table-add_flags e = rw (add_flags_address lib e) refl
