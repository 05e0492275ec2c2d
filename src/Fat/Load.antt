-- ===== src/Fat/Load.antt =====
-- `FATFileSystem`: the search in the root directory and `try_load_file`, which copies a file to
-- memory. `usize` has 32 bits in the second stage.
pub mod Clusters
pub mod Whole
use miniature_os.Base.{
  ℕ, zero, suc, ◌+◌, ◌-◌, ◌*◌, ◌/◌, ◌%◌, ◌^◌, min, List, [], ◌∷◌, Option, none, some,
}
use miniature_os.Base.{
  Bool, true, false, not, ◌&&◌, Run, ok, panic, out_of_fuel, ◌>>=◌, ◌>>◌, assert,
}
use miniature_os.Base.{ltb, leb, ◌==◌, if◌then◌else◌, length, get_or, add32, mul32, sub, u32_mod}
use miniature_os.Fat.Bpb.{BiosParameterBlock, FatType, fat12, fat16, fat32, fat_type, root_dir_size}
use miniature_os.Fat.Bpb.{first_root_dir_sector}
use miniature_os.Fat.Table.{ReadSeek}
use miniature_os.Fat.File.{
  File, FileIter, Cluster, Result, done, error, file_not_found, file_read_error,
}
use miniature_os.Fat.File.{new_iter, next_cluster, size_in_sectors}
use miniature_os.Fat.Directory.{DirectoryEntry, RootDirIter, find, is_dir, first_cluster, file_size}

-- The traits `Read`, `Seek` and `Disk`, as far as files are loaded with them: a seek to a sector,
-- `read` of a whole buffer of `len` bytes, and `read_sectors` of some sectors into a buffer of
-- `len` bytes, with the bytes that are read.
pub record Disk (D : Type 0) : Type 0 where
  pub seek_sectors : D → ℕ → Run D
  pub read : D → ℕ → Run (List ℕ × D)
  pub read_sectors : D → ℕ → ℕ → Run (List ℕ × D)
  pub sector_size : D → ℕ
  pub sectors_per_cluster : D → Run ℕ

pub record FatFileSystem (D : Type 0) : Type 0 where
  pub disk : D
  pub bpb : BiosParameterBlock

-- The memory that a file is loaded to, a byte for each address.
abbrev pub Memory : Type 0
Memory = ℕ → ℕ

-- `ptr::copy_nonoverlapping`.
abbrev pub copy : Memory → ℕ → List ℕ → Memory
copy m at bytes x = if leb at x && ltb x (at + length bytes) then get_or bytes (x - at) 0 else m x

abbrev pub is_fat32 : FatType → Bool
is_fat32 fat12 = false
is_fat32 fat16 = false
is_fat32 fat32 = true

-- Division by zero panics.
abbrev div : ℕ → ℕ → Run ℕ
div a b = if b == 0 then panic else ok (a / b)

-- The static buffers: 512 entries of the root directory, 8 sectors of a file.
abbrev pub root_buffer : ℕ
root_buffer = 16384

abbrev pub load_buffer : ℕ
load_buffer = 4096

module _ {D : Type 0} (lib : ReadSeek D) (io : Disk D) where
  -- `read_root_dir` into a buffer of `len` bytes.
  unfoldable pub read_root_dir : FatFileSystem D → ℕ → Run (List ℕ × FatFileSystem D)
  read_root_dir fs len = do
    size ← root_dir_size fs.bpb
    assert (len == size)
    typ ← fat_type fs.bpb
    assert (not (is_fat32 typ))
    first ← first_root_dir_sector fs.bpb
    at ← io.seek_sectors fs.disk first
    (buffer, after) ← io.read at len
    ok (buffer, record fs { disk = after })

  -- `File::new(entry.first_cluster(), entry.file_size())`, unless the entry is a directory.
  unfoldable pub file_of : Option DirectoryEntry → Option File
  file_of none = none
  file_of (some entry) =
      if is_dir entry
      then none
      else some (record { start_sector = first_cluster entry; size = file_size entry })

  -- `find_file_in_root_dir`.
  unfoldable pub find_file_in_root_dir :
      ℕ → FatFileSystem D → List ℕ → Run (Option File × FatFileSystem D)
  find_file_in_root_dir fuel fs name = do
    (buffer, fs') ← read_root_dir fs root_buffer
    found ← find fuel name (record { buf = buffer; offset = 0 })
    ok (file_of found, fs')

  -- The inner loop of `try_load_file`: the sectors of a cluster, at most a buffer at a time. It
  -- takes a step for each read, so that as many steps as there are sectors are enough.
  unfoldable pub load_sectors : ℕ → ℕ → D → ℕ → ℕ → Memory → Run (D × ℕ × Memory)
  load_sectors zero dest disk left total m = if left == 0 then ok (disk, total, m) else out_of_fuel
  load_sectors (suc fuel) dest disk left total m = if left == 0 then ok (disk, total, m) else (do
    room ← div load_buffer (io.sector_size disk)
    let count = min left room
    (bytes, disk') ← io.read_sectors disk count load_buffer
    behind ← mul32 total (io.sector_size disk')
    let m' = copy m ((dest + behind) % u32_mod) bytes
    total' ← add32 total count
    left' ← sub left count
    load_sectors fuel dest disk' left' total' m')

  -- The loop over the clusters of the file; `disk` is the clone that the data is read from.
  unfoldable pub load_clusters : ℕ → ℕ → FileIter D → D → ℕ → Memory → Run (Result ℕ × Memory)
  load_clusters zero dest it disk total m = out_of_fuel
  load_clusters (suc fuel) dest it disk total m = do
    (item, it') ← next_cluster lib it
    elim item [
      | error e ↦ ok (error e, m)
      | done found ↦ elim found [
        | none ↦ ok (done total, m)
        | some c ↦ do
          at ← io.seek_sectors disk c.start_sector
          left ← io.sectors_per_cluster at
          (disk', total', m') ← load_sectors left dest at left total m
          load_clusters fuel dest it' disk' total' m'
      ]
    ]

  -- `try_load_file`, with the memory it leaves.
  unfoldable pub try_load_file : ℕ → FatFileSystem D → List ℕ → ℕ → Memory → Run (Result ℕ × Memory)
  try_load_file fuel fs name dest m = do
    (found, fs') ← find_file_in_root_dir fuel fs name
    elim found [
      | none ↦ ok (error file_not_found, m)
      | some file ↦ do
        it ← new_iter fs'.disk file.start_sector fs'.bpb
        (loaded, m') ← load_clusters fuel dest it fs'.disk 0 m
        elim loaded [
          | error e ↦ ok (error e, m')
          | done total ↦ do
            sectors ← size_in_sectors file
            ok (if ltb total sectors then error file_read_error else done file.size, m')
        ]
    ]
