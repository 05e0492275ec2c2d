-- ===== src/Paging/Entry.antt =====
-- `PageTableEntry` and `PageTableEntryFlags` of x86_64/src/paging/mod.rs, and the table indices
-- of a virtual address (x86_64/src/memory.rs). An entry and a set of flags are 64-bit words.
use miniature_os.Base.{ℕ, ◌+◌, ◌*◌, ◌%◌, ◌^◌, ◌<◌, ◌≡◌, ap, ◌∙◌, arith}
use miniature_os.Base.{Bool, not, Run, ◌==◌, ◌<<<◌, bit_and, bit_or}
use miniature_os.Base.Bits.{bit_or_parts, bit_or-zero, zero-bit_or, bit_and_parts, bit_and-zero}
use miniature_os.Base.Bits.{bit_and_mask}
use miniature_os.Memory.Frame.{PhysicalFrame, size_4kib, containing_address}
use miniature_os.Paging.Crates.{BitCrates}

abbrev pub present : ℕ
present = 1

abbrev pub writable : ℕ
writable = 2

abbrev pub user_accessible : ℕ
user_accessible = 4

abbrev pub huge_page : ℕ
huge_page = 2 ^ 7

-- `BIT_9`, which is left to the operating system.
abbrev pub bit_9 : ℕ
bit_9 = 2 ^ 9

abbrev pub no_execute : ℕ
no_execute = 2 ^ 63

-- The bits 0 to 11 and 52 to 63 are the flags that `PageTableEntryFlags` names.
abbrev pub all_flags : ℕ
all_flags = (0xfff * 2 ^ 40) * 2 ^ 12 + 0xfff

unfoldable pub is_present : ℕ → Bool
is_present e = not (bit_and e present == 0)

unfoldable pub is_unused : ℕ → Bool
is_unused e = e == 0

unfoldable pub set_address : ℕ → ℕ → ℕ
set_address addr flags = bit_or addr flags

unfoldable pub add_flags : ℕ → ℕ → ℕ
add_flags e flags = bit_or e flags

module _ (lib : BitCrates) where
  open lib use {get_bits, get_bits_range, from_bits_truncate, from_bits_known}

  unfoldable pub entry_address : ℕ → ℕ
  entry_address e = get_bits e 12 48 <<< 12

  unfoldable pub physical_frame : ℕ → Run (PhysicalFrame size_4kib)
  physical_frame e = containing_address size_4kib (entry_address e)

  unfoldable pub entry_flags : ℕ → ℕ
  entry_flags e = from_bits_truncate all_flags e

  unfoldable pub l4_index : ℕ → ℕ
  l4_index a = get_bits a 39 48

  unfoldable pub l3_index : ℕ → ℕ
  l3_index a = get_bits a 30 39

  unfoldable pub l2_index : ℕ → ℕ
  l2_index a = get_bits a 21 30

  unfoldable pub l1_index : ℕ → ℕ
  l1_index a = get_bits a 12 21

  -- Four indices of nine bits and the offset in the page make up the low 48 bits of an address.
  pub indices_lem :
      (a : ℕ)
      → (((l4_index a * 512 + l3_index a) * 512 + l2_index a) * 512 + l1_index a) * 4096 + a % 4096
        ≡ a % 2 ^ 48
  unfolding l4_index l3_index l2_index l1_index
  indices_lem a = omega (
    arith,
    get_bits_range a 39 48,
    get_bits_range a 30 39,
    get_bits_range a 21 30,
    get_bits_range a 12 21,
  )

-- What an entry holds once it is written: the frame number `p` and flags `hi` and `lo`.
pub entry_fields :
    (p hi lo : ℕ)
    → p < 2 ^ 40
    → lo < 2 ^ 12
    → set_address (p * 2 ^ 12) (hi * 2 ^ 52 + lo) ≡ (hi * 2 ^ 40 + p) * 2 ^ 12 + lo
unfolding set_address
entry_fields p hi lo hp hlo =
    ap (λ x. bit_or x (hi * 2 ^ 52 + lo)) low
    ∙ ap (bit_or (p * 2 ^ 12 + 0)) high
    ∙ bit_or_parts 12 p (hi * 2 ^ 40) 0 lo (omega arith) hlo
    ∙ omega (arith, zero-bit_or lo, upper)
  where
    low : p * 2 ^ 12 ≡ p * 2 ^ 12 + 0
    low = omega arith

    high : hi * 2 ^ 52 + lo ≡ hi * 2 ^ 40 * 2 ^ 12 + lo
    high = omega arith

    left : p ≡ 0 * 2 ^ 40 + p
    left = omega arith

    right : hi * 2 ^ 40 ≡ hi * 2 ^ 40 + 0
    right = omega arith

    upper : bit_or p (hi * 2 ^ 40) ≡ hi * 2 ^ 40 + p
    upper =
        ap (λ x. bit_or x (hi * 2 ^ 40)) left
        ∙ ap (bit_or (0 * 2 ^ 40 + p)) right
        ∙ bit_or_parts 40 0 hi p 0 hp (omega arith)
        ∙ omega (arith, zero-bit_or hi, bit_or-zero p)

-- The named flags of a word are its lowest and its highest twelve bits.
flags_kept :
    (p hi lo : ℕ)
    → p < 2 ^ 40
    → hi < 2 ^ 12
    → lo < 2 ^ 12
    → bit_and ((hi * 2 ^ 40 + p) * 2 ^ 12 + lo) all_flags ≡ hi * 2 ^ 52 + lo
flags_kept p hi lo hp hhi hlo =
    bit_and_parts 12 (hi * 2 ^ 40 + p) (0xfff * 2 ^ 40) lo 0xfff hlo (omega arith)
    ∙ omega (arith, bit_and_mask 12 lo, upper)
  where
    upper : bit_and (hi * 2 ^ 40 + p) (0xfff * 2 ^ 40) ≡ hi * 2 ^ 40
    upper =
        bit_and_parts 40 hi 0xfff p 0 hp (omega arith)
        ∙ omega (arith, bit_and_mask 12 hi, bit_and-zero p)

present_bit : (x lo : ℕ) → lo < 2 ^ 12 → is_present (x * 2 ^ 12 + lo) ≡ (lo % 2 == 1)
unfolding is_present
present_bit x lo h = ground (arith, bit_and_mask 1 (x * 2 ^ 12 + lo))

-- An entry that `set_address` wrote for a frame below 2^48 and flags without unnamed bits gives
-- back that address and exactly these flags, and is present if the flag `PRESENT` is among them.
pub set_address_fields :
    (lib : BitCrates) (p hi lo : ℕ)
    → p < 2 ^ 36
    → hi < 2 ^ 12
    → lo < 2 ^ 12
    → (entry_address lib (set_address (p * 2 ^ 12) (hi * 2 ^ 52 + lo)) ≡ p * 2 ^ 12)
      × (entry_flags lib (set_address (p * 2 ^ 12) (hi * 2 ^ 52 + lo)) ≡ hi * 2 ^ 52 + lo)
      × (is_present (set_address (p * 2 ^ 12) (hi * 2 ^ 52 + lo)) ≡ (lo % 2 == 1))
unfolding entry_address entry_flags
set_address_fields lib p hi lo hp hhi hlo =
    let e = entry_fields p hi lo (omega arith) hlo in
    rw e (
      omega (arith, lib.get_bits_range ((hi * 2 ^ 40 + p) * 2 ^ 12 + lo) 12 48),
      lib.from_bits_known all_flags ((hi * 2 ^ 40 + p) * 2 ^ 12 + lo)
          ∙ flags_kept p hi lo (omega arith) hhi hlo,
      present_bit (hi * 2 ^ 40 + p) lo hlo,
    )
