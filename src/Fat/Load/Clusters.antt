-- ===== src/Fat/Load/Clusters.antt =====
-- Loading the clusters of a file puts their bytes one behind the other.
use miniature_os.Base.{
  ℕ, zero, suc, ◌+◌, ◌-◌, ◌*◌, ◌%◌, ◌≤◌, ◌<◌, ◌≡◌, refl, sym, ap, ◌∙◌, arith, min,
}
use native.Mathlib.Decide.{dec_lt}
use miniature_os.Base.{◌⊎◌, inl, inr}
use miniature_os.Base.{List, [], ◌∷◌, true, false, ok}
use miniature_os.Base.{
  ltb, leb, lt→ltb, le→leb, ◌==◌, ne→==, if◌then◌else◌, length, get_or, u32_mod, u64_mod,
}
use miniature_os.Fat.Bpb.{BiosParameterBlock}
use miniature_os.Fat.Bpb.Layout.{IsSmall, data_start}
use miniature_os.Fat.Table.{
  ReadSeek, FatEntry, cluster, end_of_file, bad_cluster, reserved_cluster, FileAllocationTable,
  parse_entry,
}
use miniature_os.Fat.Table.Packed.{entry_end, Reads, Encodes, bytes_at}
use miniature_os.Fat.File.{FileIter, Result, done, error, file_read_error, visit}
use miniature_os.Fat.File.Follow.{Leads, IsLast, Exist, cluster_at, visit_lem, iter}
use miniature_os.Fat.Load.{Disk, Memory, copy, load_sectors, load_clusters}

-- Behind a seek, the disk reads at most eight sectors of its content, and is open again.
abbrev pub ReadsSectors : {D : Type 0} → Disk D → (D → Type 0) → (ℕ → ℕ) → ℕ → ℕ → Type 0
ReadsSectors {D} io IsOpen image size per_cluster =
    (d : D) (sector n : ℕ)
    → IsOpen d
    → (sector + n) * 512 ≤ size
    → 1 ≤ n
    → n ≤ 8
    → (at : D) × (d' : D) × (io.seek_sectors d sector ≡ ok at)
      × (io.sector_size at ≡ 512)
      × (io.sectors_per_cluster at ≡ ok per_cluster)
      × (io.read_sectors at n 4096 ≡ ok (bytes_at image (sector * 512) (n * 512), d'))
      × (io.sector_size d' ≡ 512)
      × IsOpen d'

length-bytes_at : (image : ℕ → ℕ) (o n : ℕ) → length (bytes_at image o n) ≡ n
length-bytes_at image o zero = refl
length-bytes_at image o (suc n) = ap suc (length-bytes_at image (suc o) n)

get_or-bytes_at :
    (image : ℕ → ℕ) (o n k : ℕ) → k < n → get_or (bytes_at image o n) k 0 ≡ image (o + k)
get_or-bytes_at image o zero k h = absurd (omega arith)
get_or-bytes_at image o (suc n) zero h = ap image (omega arith)
get_or-bytes_at image o (suc n) (suc k) h =
    get_or-bytes_at image (suc o) n k (omega arith) ∙ ap image (omega arith)

-- How loading a chain that ends in `stop` ends, after a number of sectors.
abbrev pub loading : FatEntry → ℕ → Result ℕ
loading end_of_file n = done n
loading (cluster c) n = done n
loading bad_cluster n = error file_read_error
loading reserved_cluster n = error file_read_error

module _ (b : BiosParameterBlock) (image : ℕ → ℕ) where
  -- The sectors in some clusters.
  abbrev pub sectors_in : List ℕ → ℕ
  sectors_in [] = 0
  sectors_in (c ∷ cs) = b.sectors_per_cluster + sectors_in cs

  -- The bytes of the clusters on the disk, one cluster behind the other.
  abbrev pub file_byte : List ℕ → ℕ → ℕ
  file_byte [] k = 0
  file_byte (c ∷ cs) k =
      let behind = file_byte cs (k - b.sectors_per_cluster * 512) in
      if ltb k (b.sectors_per_cluster * 512)
      then image ((cluster_at b c).start_sector * 512 + k)
      else behind

  -- The clusters lie on the disk.
  abbrev pub Inside : ℕ → List ℕ → Type 0
  Inside size [] = Unit {0}
  Inside size (c ∷ cs) =
      (((cluster_at b c).start_sector + b.sectors_per_cluster) * 512 ≤ size) × Inside size cs

  -- The memory holds the clusters from an address on, and is otherwise as it was.
  abbrev pub Loaded : List ℕ → ℕ → Memory → Memory → Type 0
  Loaded cs at m m' =
      ((k : ℕ) → k < sectors_in cs * 512 → m' (at + k) ≡ file_byte cs k)
      × ((x : ℕ) → x < at → m' x ≡ m x)
      × ((k : ℕ) → m' (at + sectors_in cs * 512 + k) ≡ m (at + sectors_in cs * 512 + k))

copied :
    (image : ℕ → ℕ) (m : Memory) (at o n k : ℕ)
    → k < n
    → copy m at (bytes_at image o n) (at + k) ≡ image (o + k)
copied image m at o n k h =
    let low : leb at (at + k) ≡ true = le→leb _ _ (omega arith) in
    let high : ltb (at + k) (at + length (bytes_at image o n)) ≡ true =
      lt→ltb _ _ (omega (arith, length-bytes_at image o n)) in
    let offset : at + k - at ≡ k = omega arith in
    rw (low, high, offset) (get_or-bytes_at image o n k h)

not_copied :
    (image : ℕ → ℕ) (m : Memory) (at o n x : ℕ)
    → (x < at) ⊎ (at + n ≤ x)
    → copy m at (bytes_at image o n) x ≡ m x
not_copied image m at o n x h = ground (arith, length-bytes_at image o n)

-- The bytes of a cluster, and those of the clusters behind it.
Loaded-copy :
    (b : BiosParameterBlock) (image : ℕ → ℕ) (c : ℕ) (cs : List ℕ) (at : ℕ) (m m' : Memory)
    → Loaded b image cs
        (at + b.sectors_per_cluster * 512)
        (copy m at
          (bytes_at image ((cluster_at b c).start_sector * 512) (b.sectors_per_cluster * 512)))
        m'
    → Loaded b image (c ∷ cs) at m m'
Loaded-copy b image c cs at m m' (behind, before, beyond) =
    let n : ℕ = b.sectors_per_cluster * 512 in
    let start : ℕ = (cluster_at b c).start_sector * 512 in
    (
      λ k h. elim (dec_lt k n) [
        | yes lt ↦
            let here : ltb k n ≡ true = lt→ltb _ _ lt in
            rw here (before (at + k) (omega arith) ∙ copied image m at start n k lt)
        | no ge ↦
            let there : ltb k n ≡ false = ground arith in
            let e : at + k ≡ at + n + (k - n) = omega arith in
            rw there (ap m' e ∙ behind (k - n) (omega arith))
      ],
      λ x lt. before x (omega arith) ∙ not_copied image m at start n x (inl lt),
      λ k.
          let e : at + (b.sectors_per_cluster + sectors_in b image cs) * 512 + k
              ≡ at + n + sectors_in b image cs * 512 + k =
            omega arith in
          ap m' e
          ∙ beyond k
          ∙ not_copied image m at start n (at + n + sectors_in b image cs * 512 + k)
              (inr (omega arith))
          ∙ ap m (sym e),
    )

module _ {D : Type 0} (lib : ReadSeek D) (io : Disk D) (IsOpen : D → Type 0) (image : ℕ → ℕ)
    (size : ℕ) (reads : Reads lib IsOpen image size) (fits : size ≤ u64_mod)
    (b : BiosParameterBlock) (small : IsSmall b) (table : FileAllocationTable) (entry : ℕ → ℕ)
    (enc : Encodes table.typ image table.start entry)
    (sectors : ReadsSectors io IsOpen image size b.sectors_per_cluster)
    (cluster_fits : (1 ≤ b.sectors_per_cluster) × (b.sectors_per_cluster ≤ 8)) where
  abbrev spc : ℕ
  spc = b.sectors_per_cluster

  abbrev chain : D → FatEntry → FileIter D
  chain = iter lib IsOpen image size reads fits b small table entry enc

  load_nothing :
      (fuel dest total : ℕ) (disk : D) (m : Memory)
      → load_sectors lib io fuel dest disk 0 total m ≡ ok (disk, total, m)
  unfolding load_sectors
  load_nothing zero dest total disk m = refl
  load_nothing (suc fuel) dest total disk m = refl

  -- A cluster of at most eight sectors takes one read.
  load_sectors_lem :
      (dest total sector n : ℕ) (disk : D) (m : Memory)
      → spc ≡ suc n
      → IsOpen disk
      → (sector + spc) * 512 ≤ size
      → dest + (total + spc) * 512 < u32_mod
      → (at : D) × (d' : D) × IsOpen d'
        × (io.seek_sectors disk sector ≡ ok at)
        × (io.sectors_per_cluster at ≡ ok spc)
        × (load_sectors lib io spc dest at spc total m
            ≡ ok (
              d',
              total + spc,
              copy m (dest + total * 512) (bytes_at image (sector * 512) (spc * 512)),
            ))
  unfolding load_sectors
  load_sectors_lem dest total sector n disk m count open_d inside room =
      let (at, d', seek, bytes, per, read, bytes', open_e) =
        sectors disk sector spc open_d inside cluster_fits.0 cluster_fits.1 in
      let left : (suc n == 0) ≡ false = ne→== _ _ (omega arith) in
      let buffer : min (suc n) 8 ≡ suc n = omega (arith, count, cluster_fits.1) in
      let product : ltb (total * 512) u32_mod ≡ true = lt→ltb _ _ (omega arith) in
      let sum : ltb (total + suc n) u32_mod ≡ true = lt→ltb _ _ (omega (arith, count)) in
      let wrap : (dest + total * 512) % u32_mod ≡ dest + total * 512 = omega arith in
      let whole : leb (suc n) (suc n) ≡ true = le→leb _ _ (omega arith) in
      let none_left : suc n - suc n ≡ 0 = omega arith in
      (
        at,
        d',
        open_e,
        seek,
        per,
        rw count (
            rw (left, bytes, buffer, rw count at read, bytes', product, wrap, sum, whole, none_left)
              (load_nothing n dest (total + suc n) d' _)),
      )

  load_end :
      (fuel dest total : ℕ) (d disk : D) (stop : FatEntry) (m : Memory)
      → IsLast stop
      → load_clusters lib io (suc fuel) dest (chain d stop) disk total m
        ≡ ok (loading stop total, m)
  unfolding load_clusters visit
  load_end fuel dest total d disk end_of_file m last = refl
  load_end fuel dest total d disk bad_cluster m last = refl
  load_end fuel dest total d disk reserved_cluster m last = refl
  load_end fuel dest total d disk (cluster c) m last = absurd last

  load_step :
      (fuel dest total c : ℕ) (d disk : D) (m : Memory)
      → 2 ≤ c
      → (c - 2) * spc + data_start b < u32_mod
      → entry_end table.typ c ≤ u32_mod
      → table.start + entry_end table.typ c ≤ size
      → ((cluster_at b c).start_sector + spc) * 512 ≤ size
      → dest + (total + spc) * 512 < u32_mod
      → IsOpen d
      → IsOpen disk
      → (d' : D) × (disk' : D) × IsOpen d'
        × IsOpen disk'
        × (load_clusters lib io (suc fuel) dest (chain d (cluster c)) disk total m
            ≡ load_clusters lib io fuel dest
                (chain d' (parse_entry (entry c) table.typ))
                disk'
                (total + spc)
                (copy m
                  (dest + total * 512)
                  (bytes_at image ((cluster_at b c).start_sector * 512) (spc * 512))))
  unfolding load_clusters
  load_step fuel dest total c d disk m two sector offset there inside room o o' =
      let (d', od, q) =
        visit_lem lib IsOpen image size reads fits b small table entry enc d c
          (two, sector, offset, there, tt) o in
      let (at, disk', od', seek, per, r) =
        load_sectors_lem dest total (cluster_at b c).start_sector (spc - 1) disk m
          (omega (arith, cluster_fits.0)) o' inside room in
      (d', disk', od, od', rw (q, seek, per, r) refl)

  abbrev Outcome : List ℕ → ℕ → ℕ → ℕ → D → FatEntry → D → FatEntry → Memory → Type 0
  Outcome cs fuel dest total d e disk stop m =
      (m' : Memory) × (load_clusters lib io fuel dest (chain d e) disk total m
        ≡ ok (loading stop (total + sectors_in b image cs), m'))
      × Loaded b image cs (dest + total * 512) m m'

  pub load_clusters_lem :
      (cs : List ℕ) (fuel dest total : ℕ) (d disk : D) (e stop : FatEntry) (m : Memory)
      → Leads (λ c. parse_entry (entry c) table.typ) e cs stop
      → Exist b table size cs
      → Inside b image size cs
      → IsLast stop
      → length cs < fuel
      → dest + (total + sectors_in b image cs) * 512 < u32_mod
      → IsOpen d
      → IsOpen disk
      → Outcome cs fuel dest total d e disk stop m
  load_clusters_lem cs zero dest total d disk e stop m l ex inside last h room o o' =
      absurd (omega arith)
  load_clusters_lem [] (suc fuel) dest total d disk e stop m l ex inside last h room o o' =
      let count : total + 0 ≡ total = omega arith in
      (
        m,
        rw (l, count) (load_end fuel dest total d disk stop m last),
        ((λ k lt. absurd (omega arith)), (λ x lt. refl), (λ k. refl)),
      )
  load_clusters_lem (c ∷ cs) (suc fuel) dest total d disk e stop m (here, l) ex inside last h room o
        o' =
      let (two, sector, offset, there, ex') = ex in
      let (at_disk, inside') = inside in
      let (d', disk', od, od', q) =
        load_step fuel dest total c d disk m two sector offset there at_disk (omega arith) o o' in
      let next_at : dest + (total + spc) * 512 ≡ dest + total * 512 + spc * 512 = omega arith in
      let count : total + spc + sectors_in b image cs ≡ total + (spc + sectors_in b image cs) =
        omega arith in
      let (m', r, loaded) =
        load_clusters_lem cs fuel dest (total + spc) d' disk' (parse_entry (entry c) table.typ) stop
          (copy m (dest + total * 512)
            (bytes_at image ((cluster_at b c).start_sector * 512) (spc * 512)))
          l ex' inside' last (omega arith) (omega arith) od od' in
      (
        m',
        ap (λ (f : FatEntry). load_clusters lib io (suc fuel) dest (chain d f) disk total m) here
            ∙ q
            ∙ r
            ∙ ap (λ (k : ℕ). ok (loading stop k, m')) count,
        Loaded-copy b image c cs (dest + total * 512) m m' (rw next_at at loaded),
      )
