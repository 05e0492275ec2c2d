-- ===== src/Memory/Region.antt =====
-- The trait `MemoryRegion` and its implementers, with `E820MemoryRegion` of
-- bootloader/x86_64/bios/common/src/lib.rs.
use miniature_os.Base.{ℕ, Bool, true, false, Run, ok, ◌>>=◌, add64, leb, if◌then◌else◌}

-- A region as the trait shows it.
pub record MemoryRegion (D : Type 0) : Type 0 where
  pub start : D → ℕ
  pub set_start : D → ℕ → D
  pub end_of : D → Run ℕ
  pub size : D → ℕ
  pub set_size : D → ℕ → D
  pub contains : D → ℕ → Run Bool
  pub is_usable : D → Bool

-- `self.start() <= address && address <= self.end()`.
abbrev pub within : ℕ → Run ℕ → ℕ → Run Bool
within start end address = if leb start address then (do e ← end; ok (leb address e)) else ok false

pub record Region : Type 0 where
  pub start : ℕ
  pub size : ℕ

abbrev region_end : Region → Run ℕ
region_end r = add64 r.start r.size

instance abbrev pub region : MemoryRegion Region
region = record {
  start = λ r. r.start;
  set_start = λ r a. record r { start = a };
  end_of = region_end;
  size = λ r. r.size;
  set_size = λ r n. record r { size = n };
  contains = λ r a. within r.start (region_end r) a;
  is_usable = λ r. true;
}

pub data PhysicalMemoryRegionType : Type 0 where
  reserved free used : PhysicalMemoryRegionType

pub record PhysicalMemoryRegion : Type 0 where
  pub start : ℕ
  pub size : ℕ
  pub typ : PhysicalMemoryRegionType

abbrev physical_region_end : PhysicalMemoryRegion → Run ℕ
physical_region_end r = add64 r.start r.size

abbrev pub is_free : PhysicalMemoryRegionType → Bool
is_free free = true
is_free _ = false

instance abbrev pub physical_memory_region : MemoryRegion PhysicalMemoryRegion
physical_memory_region = record {
  start = λ r. r.start;
  set_start = λ r a. record r { start = a };
  end_of = physical_region_end;
  size = λ r. r.size;
  set_size = λ r n. record r { size = n };
  contains = λ r a. within r.start (physical_region_end r) a;
  is_usable = λ r. is_free r.typ;
}

pub data E820MemoryRegionType : Type 0 where
  none normal reserved acpi_reclaimable acpi_nvs unusable : E820MemoryRegionType

pub record E820MemoryRegion : Type 0 where
  pub start : ℕ
  pub size : ℕ
  pub typ : E820MemoryRegionType
  pub acpi_extended_attributes : ℕ

abbrev pub is_normal : E820MemoryRegionType → Bool
is_normal E820MemoryRegionType.normal = true
is_normal _ = false

abbrev pub e820_end : E820MemoryRegion → Run ℕ
e820_end r = add64 r.start r.size

instance abbrev pub e820_memory_region : MemoryRegion E820MemoryRegion
e820_memory_region = record {
  start = λ r. r.start;
  set_start = λ r a. record r { start = a };
  end_of = e820_end;
  size = λ r. r.size;
  set_size = λ r n. record r { size = n };
  contains = λ r a. within r.start (e820_end r) a;
  is_usable = λ r. is_normal r.typ;
}

-- `Into<PhysicalMemoryRegionType>` and `Into<PhysicalMemoryRegion>`.
abbrev pub physical_type : E820MemoryRegionType → PhysicalMemoryRegionType
physical_type E820MemoryRegionType.normal = PhysicalMemoryRegionType.free
physical_type _ = PhysicalMemoryRegionType.reserved

abbrev pub into_physical : E820MemoryRegion → PhysicalMemoryRegion
into_physical r = record { start = r.start; size = r.size; typ = physical_type r.typ }
