-- ===== src/Fat/File.antt =====
-- Files: the chain of clusters that `FileIter` follows through the table.
pub mod Follow
use miniature_os.Base.{ℕ, zero, suc, ◌+◌, ◌-◌, ◌/◌, List, [], ◌∷◌, Option, none, some}
use miniature_os.Base.{Run, ok, panic, out_of_fuel, ◌>>=◌, add32}
use miniature_os.Fat.Bpb.{BiosParameterBlock, fat_type, first_fat_sector, first_cluster_sector}
use miniature_os.Fat.Table.{ReadSeek, FatEntry, end_of_file, cluster, bad_cluster}
use miniature_os.Fat.Table.{reserved_cluster, FileAllocationTable, new_table, get_entry}

pub data FatError : Type 0 where
  file_not_found dir_entry_error file_read_error : FatError

pub data Result {ℓ} (A : Type ℓ) : Type ℓ where
  done : A → Result A
  error : FatError → Result A

pub record File : Type 0 where
  pub start_sector : ℕ
  pub size : ℕ

-- `File::size_in_sectors`.
unfoldable pub size_in_sectors : File → Run ℕ
size_in_sectors file = do sum ← add32 file.size 511; ok (sum / 512)

pub record Cluster : Type 0 where
  pub start_sector : ℕ
  pub size_in_sectors : ℕ

pub record FileIter (D : Type 0) : Type 0 where
  pub disk : D
  pub current_entry : FatEntry
  pub bpb : BiosParameterBlock
  pub fat_table : FileAllocationTable

-- `FileIter::new`.
unfoldable pub new_iter : {D : Type 0} → D → ℕ → BiosParameterBlock → Run (FileIter D)
new_iter disk start_cluster b = do
  typ ← fat_type b
  table ← new_table typ (first_fat_sector b) b.bytes_per_sector
  ok (record { disk = disk; current_entry = cluster start_cluster; bpb = b; fat_table = table })

abbrev pub prepend : Cluster → Result (List Cluster) → Result (List Cluster)
prepend c (done cs) = done (c ∷ cs)
prepend c (error e) = error e

module _ {D : Type 0} (lib : ReadSeek D) where
  -- The cluster of the current entry; the entry of the table becomes the current one.
  unfoldable pub visit : FileIter D → FatEntry → Run (Result (Option Cluster) × FileIter D)
  visit it bad_cluster = ok (error file_read_error, it)
  visit it reserved_cluster = ok (error file_read_error, it)
  visit it end_of_file = ok (done none, it)
  visit it (cluster cluster_number) = do
    sector ← first_cluster_sector it.bpb cluster_number
    (entry, after) ← get_entry lib it.fat_table it.disk cluster_number
    ok (
      done (some (record { start_sector = sector; size_in_sectors = it.bpb.sectors_per_cluster })),
      record it { disk = after; current_entry = entry },
    )

  abbrev pub next_cluster : FileIter D → Run (Result (Option Cluster) × FileIter D)
  next_cluster it = visit it it.current_entry

  -- `for cluster in self.file_clusters(..)` with `cluster?` in its body: the clusters that the
  -- iterator gives before it ends, or its first error. A chain of the table can be a cycle, so the
  -- loop runs on fuel.
  abbrev pub continue :
      (FileIter D → Run (Result (List Cluster)))
      → Result (Option Cluster)
      → FileIter D
      → Run (Result (List Cluster))
  continue go (error e) it = ok (error e)
  continue go (done none) it = ok (done [])
  continue go (done (some c)) it = do rest ← go it; ok (prepend c rest)

  unfoldable pub collect : ℕ → FileIter D → Run (Result (List Cluster))
  collect zero it = out_of_fuel
  collect (suc fuel) it = do (item, after) ← next_cluster it; continue (collect fuel) item after

  -- `FATFileSystem::file_clusters`.
  unfoldable pub file_clusters : ℕ → D → BiosParameterBlock → File → Run (Result (List Cluster))
  file_clusters fuel disk b file = do it ← new_iter disk file.start_sector b; collect fuel it
