-- ===== src/Gdt.antt =====
-- The global descriptor table (x86_64/src/gdt.rs): segment descriptors, and the table they are
-- added to.
pub mod Fields
pub mod Table
use miniature_os.Base.{ℕ, ◌+◌, ◌-◌, ◌*◌, ◌/◌, ◌%◌, ◌^◌, List, bit_and, bit_or}
use miniature_os.Base.{Run, ok, panic, ◌>>=◌, ltb, ◌==◌, if◌then◌else◌, length, set, replicate}
use miniature_os.Base.{u16_mod, ◌<<<◌, ◌>>>◌, mul64, sub}
use miniature_os.Paging.Crates.{BitCrates}

pub data PrivilegeLevel : Type 0 where
  ring0 ring1 ring2 ring3 : PrivilegeLevel

abbrev pub ring_number : PrivilegeLevel → ℕ
ring_number ring0 = 0
ring_number ring1 = 1
ring_number ring2 = 2
ring_number ring3 = 3

-- `PrivilegeLevel::from`.
unfoldable pub privilege_level : ℕ → Run PrivilegeLevel
privilege_level v =
    if v == 0
    then ok ring0
    else if v == 1
    then ok ring1
    else if v == 2
    then ok ring2
    else if v == 3
    then ok ring3
    else panic

-- `SegmentSelector::new`.
unfoldable pub selector : ℕ → PrivilegeLevel → ℕ
selector idx rpl = bit_or ((idx <<< 3) % u16_mod) (ring_number rpl)

-- The flags of `SegmentDescriptorFlags`, and the type of an available TSS.
abbrev pub accessed : ℕ
accessed = 1 <<< 40

abbrev pub read_write : ℕ
read_write = 1 <<< 41

abbrev pub executable : ℕ
executable = 1 <<< 43

abbrev pub user_segment : ℕ
user_segment = 1 <<< 44

abbrev pub present : ℕ
present = 1 <<< 47

abbrev pub long_mode : ℕ
long_mode = 1 <<< 53

abbrev pub protected_mode : ℕ
protected_mode = 1 <<< 54

abbrev pub granularity : ℕ
granularity = 1 <<< 55

abbrev pub tss_available : ℕ
tss_available = 0x9

-- `size_of::<TaskStateSegment>()`: the fields, packed to 4 bytes.
abbrev pub tss_size : ℕ
tss_size = 4 + 3 * 8 + 8 + 7 * 8 + 8 + 2 + 2

pub data SegmentDescriptor : Type 0 where
  user : ℕ → SegmentDescriptor
  system : ℕ → ℕ → SegmentDescriptor

module _ (lib : BitCrates) where
  open lib use {get_bits, set_bits}

  -- The base goes to its two fields, unless it is zero.
  unfoldable pub set_base : ℕ → ℕ → ℕ
  set_base desc base =
      if base == 0
      then desc
      else let low = set_bits desc 16 40 (bit_and base 0xFFFFFF) in
        set_bits low 56 64 (bit_and (base >>> 24) 0xFF)

  -- `new_user(flags, limit, base)`.
  unfoldable pub new_user : ℕ → ℕ → ℕ → SegmentDescriptor
  new_user flags limit base =
      let desc = set_bits (set_base flags base) 0 16 (bit_and limit 0xFFFF) in
      user (set_bits desc 48 52 (bit_and (limit >>> 16) 0b1111))

  -- `new_tss_segment`, of a TSS at address `ptr`.
  unfoldable pub new_tss_segment : ℕ → SegmentDescriptor
  new_tss_segment ptr =
      let base_low = set_bits present 16 40 (get_bits ptr 0 24) in
      let base_high = set_bits base_low 56 64 (get_bits ptr 24 32) in
      let high = set_bits 0 0 32 (get_bits ptr 32 64) in
      let limited = set_bits base_high 0 16 (tss_size - 1) in
      system (set_bits limited 40 44 tss_available) high

  unfoldable pub protected_mode_code_segment : SegmentDescriptor
  protected_mode_code_segment =
      new_user
        (bit_or read_write (
          bit_or executable (
            bit_or present
              (bit_or user_segment (bit_or protected_mode (bit_or granularity accessed))))))
        0xFFFFF 0

  unfoldable pub protected_mode_data_segment : SegmentDescriptor
  protected_mode_data_segment =
      new_user
        (bit_or read_write (
          bit_or present
            (bit_or user_segment (bit_or protected_mode (bit_or granularity accessed)))))
        0xFFFFF 0

  unfoldable pub long_mode_code_segment : SegmentDescriptor
  long_mode_code_segment =
      new_user
        (bit_or read_write (
          bit_or executable (
            bit_or present (bit_or user_segment (bit_or long_mode (bit_or accessed granularity))))))
        0 0

  unfoldable pub long_mode_data_segment : SegmentDescriptor
  long_mode_data_segment =
      new_user
        (bit_or read_write (bit_or present (bit_or user_segment (bit_or accessed granularity)))) 0 0

abbrev pub low_value : SegmentDescriptor → ℕ
low_value (user v) = v
low_value (system v high) = v

unfoldable pub descriptor_privilege_level : SegmentDescriptor → Run PrivilegeLevel
descriptor_privilege_level d = privilege_level (bit_and (low_value d >>> 45) 0b11)

pub record GlobalDescriptorTable : Type 0 where
  pub entries : List ℕ
  pub size : ℕ

unfoldable pub new : GlobalDescriptorTable
new = record { entries = replicate 8 0; size = 1 }

unfoldable pub push : GlobalDescriptorTable → ℕ → Run (ℕ × GlobalDescriptorTable)
push table value =
    if ltb table.size (length table.entries)
    then ok
        (table.size, record { entries = set table.entries table.size value; size = table.size + 1 })
    else panic

-- The words of a descriptor, one after the other; the index of the first.
unfoldable pub push_words :
    GlobalDescriptorTable → SegmentDescriptor → Run (ℕ × GlobalDescriptorTable)
push_words table (user value) = push table value
push_words table (system low high) = do
  (idx, after) ← push table low
  (_, last) ← push after high
  ok (idx, last)

unfoldable pub add_entry :
    GlobalDescriptorTable → SegmentDescriptor → Run (ℕ × GlobalDescriptorTable)
add_entry table entry = do
  (idx, after) ← push_words table entry
  level ← descriptor_privilege_level entry
  ok (selector (idx % u16_mod) level, after)

-- The size that `lgdt` is given: `GlobalDescriptorTableDescriptor::new`.
unfoldable pub descriptor_size : GlobalDescriptorTable → Run ℕ
descriptor_size table = do bytes ← mul64 table.size 8; last ← sub bytes 1; ok (last % u16_mod)
