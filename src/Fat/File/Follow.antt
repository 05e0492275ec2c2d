-- ===== src/Fat/File/Follow.antt =====
-- `FileIter` against the chain of clusters that the table describes.
use miniature_os.Base.{
  ℕ, zero, suc, ◌+◌, ◌-◌, ◌*◌, ◌≤◌, ◌<◌, List, [], ◌∷◌, ◌≡◌, refl, sym, ap, ◌∙◌,
}
use native.Mathlib.Nat.{mul-le-mul}
use miniature_os.Base.{arith, some, ok, length, u16_mod, u32_mod, u64_mod, lt→ltb, ltb, true}
use miniature_os.Fat.Bpb.{BiosParameterBlock, FatType, fat_type, first_cluster_sector}
use miniature_os.Fat.Bpb.{first_fat_sector}
use miniature_os.Fat.Bpb.Layout.{IsSmall, data_start, first_cluster_sector_lem}
use miniature_os.Fat.Table.{ReadSeek, FatEntry, end_of_file, cluster, bad_cluster}
use miniature_os.Fat.Table.{reserved_cluster, FileAllocationTable, parse_entry, new_table}
use miniature_os.Fat.Table.Packed.{Reads, Encodes, entry_end, get_entry_lem}
use miniature_os.Fat.File.{Cluster, FileIter, Result, done, error, file_read_error, visit, collect}
use miniature_os.Fat.File.{File, new_iter, file_clusters}
use miniature_os.Fat.File.{prepend}

-- From an entry, the table's entries lead through the clusters `cs` to the entry `stop`.
abbrev pub Leads : (ℕ → FatEntry) → FatEntry → List ℕ → FatEntry → Type 0
Leads next e [] stop = e ≡ stop
Leads next e (c ∷ cs) stop = (e ≡ cluster c) × Leads next (next c) cs stop

-- How a chain that ends in `stop` ends for the reader; a chain does not stop at a cluster.
abbrev pub ending : FatEntry → Result (List Cluster)
ending end_of_file = done []
ending (cluster c) = done []
ending bad_cluster = error file_read_error
ending reserved_cluster = error file_read_error

abbrev pub IsLast : FatEntry → Type 0
IsLast (cluster c) = ⊥
IsLast end_of_file = Unit
IsLast bad_cluster = Unit
IsLast reserved_cluster = Unit

-- The cluster's sectors: consecutive clusters lie side by side from the first data sector on.
abbrev pub cluster_at : BiosParameterBlock → ℕ → Cluster
cluster_at b c = record {
  start_sector = data_start b + (c - 2) * b.sectors_per_cluster;
  size_in_sectors = b.sectors_per_cluster;
}

abbrev pub clusters_then :
    BiosParameterBlock → List ℕ → Result (List Cluster) → Result (List Cluster)
clusters_then b [] r = r
clusters_then b (c ∷ cs) r = prepend (cluster_at b c) (clusters_then b cs r)

-- The clusters that exist: their entries lie in the table on the disk, their sectors have 32 bits.
abbrev pub Exist : BiosParameterBlock → FileAllocationTable → ℕ → List ℕ → Type 0
Exist b table size [] = Unit
Exist b table size (c ∷ cs) =
    (2 ≤ c)
    × ((c - 2) * b.sectors_per_cluster + data_start b < u32_mod)
    × (entry_end table.typ c ≤ u32_mod)
    × (table.start + entry_end table.typ c ≤ size)
    × Exist b table size cs

module _ {D : Type 0} (lib : ReadSeek D) (IsOpen : D → Type 0) (image : ℕ → ℕ) (size : ℕ)
    (reads : Reads lib IsOpen image size) (fits : size ≤ u64_mod) (b : BiosParameterBlock)
    (small : IsSmall b) (table : FileAllocationTable) (entry : ℕ → ℕ)
    (enc : Encodes table.typ image table.start entry) where
  abbrev pub next : ℕ → FatEntry
  next c = parse_entry (entry c) table.typ

  abbrev pub iter : D → FatEntry → FileIter D
  iter d e = record { disk = d; current_entry = e; bpb = b; fat_table = table }

  ends :
      (fuel : ℕ) (d : D) (stop : FatEntry)
      → IsLast stop
      → collect lib (suc fuel) (iter d stop) ≡ ok (ending stop)
  unfolding collect visit
  ends fuel d end_of_file last = refl
  ends fuel d bad_cluster last = refl
  ends fuel d reserved_cluster last = refl
  ends fuel d (cluster c) last = absurd last

  pub visit_lem :
      (d : D) (c : ℕ)
      → Exist b table size (c ∷ [])
      → IsOpen d
      → (d' : D) × IsOpen d'
        × (visit lib (iter d (cluster c)) (cluster c)
            ≡ ok (done (some (cluster_at b c)), iter d' (next c)))
  unfolding visit
  visit_lem d c (two, sector, offset, there, _) open_d =
      let (d', open_e, q) =
        get_entry_lem lib IsOpen image size reads fits table entry d c enc offset there open_d in
      let back : c - 2 + 2 ≡ c = omega arith in
      let at : first_cluster_sector b c ≡ ok (data_start b + (c - 2) * b.sectors_per_cluster) =
        ap (first_cluster_sector b) (sym back) ∙ first_cluster_sector_lem b small (c - 2) sector in
      (d', open_e, rw (at, q))

  collect_lem :
      (cs : List ℕ) (fuel : ℕ) (d : D) (e stop : FatEntry)
      → Leads next e cs stop
      → Exist b table size cs
      → IsLast stop
      → length cs < fuel
      → IsOpen d
      → collect lib fuel (iter d e) ≡ ok (clusters_then b cs (ending stop))
  unfolding collect
  collect_lem cs zero d e stop l ex last h open_d = absurd (omega arith)
  collect_lem [] (suc fuel) d e stop l ex last h open_d = rw l (ends fuel d stop last)
  collect_lem (c ∷ cs) (suc fuel) d e stop (here, l) ex last h open_d =
      let (two, sector, offset, there, ex') = ex in
      let (d', open_e, q) = visit_lem d c (two, sector, offset, there, tt) open_d in
      rw (here, q, collect_lem cs fuel d' (next c) stop l ex' last (omega arith) open_e)

-- The first of the tables, which begins right after the reserved sectors.
abbrev pub first_table : BiosParameterBlock → FatType → FileAllocationTable
first_table b typ = record { typ = typ; start = first_fat_sector b * b.bytes_per_sector }

pub product_lt :
    (b : BiosParameterBlock) → IsSmall b → first_fat_sector b * b.bytes_per_sector < u64_mod
product_lt b small =
    let reserved : b.reserved_sector_count ≤ u32_mod = omega (arith, small.data_fits) in
    let sector : b.bytes_per_sector ≤ u16_mod = omega (arith, small.sector) in
    omega (arith, mul-le-mul reserved sector)

module _ {D : Type 0} (lib : ReadSeek D) (IsOpen : D → Type 0) (image : ℕ → ℕ) (size : ℕ)
    (reads : Reads lib IsOpen image size) (fits : size ≤ u64_mod) (b : BiosParameterBlock)
    (small : IsSmall b) (typ : FatType) (known : fat_type b ≡ ok typ) (entry : ℕ → ℕ)
    (enc : Encodes typ image (first_table b typ).start entry) where
  -- When the table on the disk, in any of the three formats, leads from a file's first cluster
  -- through the existing clusters `cs` to an entry that names no cluster, then the file's
  -- iterator gives exactly those clusters, in that order and with the sectors they have on the
  -- disk, if the last entry is an end of file, and ends with a read error if it is a bad or a
  -- reserved cluster. One more step than there are clusters is enough, and nothing panics.
  pub file_clusters_lem :
      (cs : List ℕ) (fuel : ℕ) (d : D) (file : File) (stop : FatEntry)
      → Leads (λ c. parse_entry (entry c) typ) (cluster file.start_sector) cs stop
      → Exist b (first_table b typ) size cs
      → IsLast stop
      → length cs < fuel
      → IsOpen d
      → file_clusters lib fuel d b file ≡ ok (clusters_then b cs (ending stop))
  unfolding file_clusters new_iter new_table
  file_clusters_lem cs fuel d file stop l ex last h open_d =
      let start : ltb (first_fat_sector b * b.bytes_per_sector) u64_mod ≡ true =
        lt→ltb _ _ (product_lt b small) in
      rw (
        known,
        start,
        collect_lem lib IsOpen image size reads fits b small (first_table b typ) entry enc cs fuel d
            (cluster file.start_sector) stop l ex last h open_d,
      )
