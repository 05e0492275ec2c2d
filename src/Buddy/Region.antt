-- ===== src/Buddy/Region.antt =====
-- How the heap gets its memory: `add_region` cuts a region into aligned powers of two.
use miniature_os.Base.{ℕ, zero, suc, ◌+◌, ◌-◌, ◌^◌, ◌/◌, min, bit_and, List, [], ◌∷◌}
use miniature_os.Base.{Run, ok, out_of_fuel, ◌>>=◌, ◌>>◌, assert, add64, sub, not64}
use miniature_os.Base.{ltb, leb, ◌==◌, if◌then◌else◌}
use miniature_os.Memory.Region.{PhysicalMemoryRegion, physical_memory_region}
use miniature_os.Buddy.{Buddies, max_order, push_new, trailing_zeros}

-- The number of bits of a word, 64 less `u64::leading_zeros`.
unfoldable pub bits_loop : ℕ → ℕ → ℕ
bits_loop zero n = 0
bits_loop (suc fuel) n = let more = bits_loop fuel (n / 2) + 1 in if n == 0 then 0 else more

unfoldable pub leading_zeros : ℕ → ℕ
unfolding bits_loop
leading_zeros n = 64 - bits_loop 64 n

unfoldable pub previous_power_of_two : ℕ → Run ℕ
previous_power_of_two num = do k ← sub (64 - leading_zeros num) 1; ok (2 ^ k)

-- `lowbit` of `add_region`.
unfoldable pub lowbit : ℕ → Run ℕ
lowbit start =
    if ltb 0 start then (do negated ← add64 (not64 start) 1; ok (bit_and start negated)) else ok 64

-- The loop of `add_region`. Each round takes at least a byte off the region.
unfoldable pub region_loop : ℕ → ℕ → ℕ → Buddies → Run Buddies
region_loop zero current_start end s = if ltb current_start end then out_of_fuel else ok s
region_loop (suc fuel) current_start end s =
    if ltb current_start end
    then (do
      low ← lowbit current_start
      left ← sub end current_start
      power ← previous_power_of_two left
      let size = min (min low power) (2 ^ (max_order - 1))
      t ← push_new s (trailing_zeros size) current_start size
      next ← add64 current_start size
      region_loop fuel next end t)
    else ok s

unfoldable pub add_region : ℕ → ℕ → ℕ → Buddies → Run Buddies
add_region fuel start end s = do assert (leb start end); region_loop fuel start end s

unfoldable pub init : ℕ → ℕ → ℕ → Buddies → Run Buddies
init fuel start size s = do end ← add64 start size; add_region fuel start end s

unfoldable pub init_from_memory_map : ℕ → List PhysicalMemoryRegion → Buddies → Run Buddies
init_from_memory_map fuel [] s = ok s
init_from_memory_map fuel (region ∷ regions) s =
    if physical_memory_region.is_usable region
    then (do
      end ← physical_memory_region.end_of region
      last ← sub end 1
      t ← add_region fuel (physical_memory_region.start region) last s
      init_from_memory_map fuel regions t)
    else init_from_memory_map fuel regions s
