-- ===== src/Fat/Directory/Items.antt =====
-- A directory as a list of its items, and `parse` at each of them.
use mathlib.Core.List.{append-nil, append_assoc}
use miniature_os.Base.{ℕ, zero, suc, ◌+◌, ◌-◌, ◌*◌, ◌≤◌, ◌<◌, ◌≡◌, ◌≢◌, refl, sym, ap, ◌∙◌, arith}
use miniature_os.Base.{List, [], ◌∷◌, ◌++◌, Option, some, none, false, ok}
use miniature_os.Base.{
  length, get_elem?, take, drop, replicate, length-append, take-append, drop-append,
}
use miniature_os.Base.{get_elem?-append_some, ◌==◌, ne→==, if◌then◌else◌}
use miniature_os.Fat.Directory.{
  DirectoryEntry, normal_dir_entry, long_name_dir_entry, parse, parse_long,
}
use miniature_os.Fat.Directory.{
  take_until_zero, eq, eq_name, long_file_name, name_part, put_chars, cluster_number,
}
use miniature_os.Fat.Bpb.{le_field}
use miniature_os.Fat.Directory.Names.{put_chars_lem, take_until_zero-append}
use miniature_os.Fat.Directory.Slots.{Short, IsShort, short_bytes, short_entry, length-short_bytes}
use miniature_os.Fat.Directory.Slots.{attributes_at, size_at, cluster_at, parse-short_bytes}
use miniature_os.Fat.Directory.Long.{
  Part, part_bytes, part_name, AreParts, parts_bytes, parts_name, length-part_bytes,
}
use miniature_os.Fat.Directory.Long.{
  part-attributes, name_part-part_bytes, parts_name-IsText, length-parts_bytes,
}

-- The entry for the parts `ps` of a name, with `s` behind them.
abbrev pub long_entry : List ℕ → ℕ → Short → DirectoryEntry
long_entry name k s = long_name_dir_entry (record {
  order = 0;
  filename = name ++ replicate k 0;
  first_cluster_number = s.cluster;
  attributes = s.attributes;
  size_in_bytes = s.size;
})

-- The last round of the loop: an entry with an 8.3 name.
parse_long-last :
    (fuel i name_idx attributes cluster size : ℕ) (raw entry filename : List ℕ)
    → 1 ≤ length raw
    → take 0x20 raw ≡ entry
    → get_elem? entry 11 ≡ some attributes
    → attributes ≢ long_file_name
    → cluster_number entry ≡ ok cluster
    → le_field entry 28 32 ≡ ok size
    → parse_long (suc fuel) raw i filename name_idx
      ≡ ok (
        (i + 1) * 32,
        long_name_dir_entry (record {
          order = 0;
          filename = filename;
          first_cluster_number = cluster;
          attributes = attributes;
          size_in_bytes = size;
        }),
      )
unfolding parse_long
parse_long-last fuel i name_idx attributes cluster size raw entry filename some_left e a ne c z =
    let left : (length raw == 0) ≡ false = ne→== _ _ (omega arith) in
    rw (left, e, a, ne→== attributes long_file_name ne, c, z) refl

-- A round for a part of the name.
parse_long-part :
    (fuel i n n' : ℕ) (raw entry part filename filename' : List ℕ)
    → 1 ≤ length raw
    → take 0x20 raw ≡ entry
    → get_elem? entry 11 ≡ some long_file_name
    → name_part entry ≡ ok part
    → put_chars part filename n ≡ ok (filename', n')
    → parse_long (suc fuel) raw i filename n ≡ parse_long fuel (drop 0x20 raw) (i + 1) filename' n'
unfolding parse_long
parse_long-part fuel i n n' raw entry part filename filename' some_left e a q put =
    let left : (length raw == 0) ≡ false = ne→== _ _ (omega arith) in rw (left, e, a, q, put) refl

parse_long_lem :
    (ps : List Part) (s : Short) (rest name : List ℕ) (k i n fuel : ℕ)
    → AreParts ps
    → IsShort s
    → length ps < fuel
    → length name ≡ n
    → parse_long fuel
        (parts_bytes ps (short_bytes s ++ rest))
        i
        (name ++ replicate (length (parts_name ps) + k) 0)
        n
      ≡ ok ((i + length ps + 1) * 32, long_entry (name ++ parts_name ps) k s)
parse_long_lem ps s rest name k i n zero parts v enough e = absurd (omega arith)
parse_long_lem [] s rest name k i n (suc fuel) parts v enough e =
    let count : 0 + k ≡ k = omega arith in
    let stop : i + 0 + 1 ≡ i + 1 = omega arith in
    let entry : take 32 (short_bytes s ++ rest) ≡ short_bytes s ++ [] =
      take-append (short_bytes s) rest 32 (length-short_bytes s v)
      ∙ sym (append-nil (short_bytes s)) in
    parse_long-last fuel i n s.attributes s.cluster s.size (short_bytes s ++ rest)
      (short_bytes s ++ []) (name ++ replicate (0 + k) 0)
      (omega (arith, length-append (short_bytes s) rest, length-short_bytes s v)) entry
      (attributes_at s v []) v.not_long (cluster_at s v []) (size_at s v [])
    ∙ rw (count, stop, append-nil name) refl
parse_long_lem (p ∷ ps) s rest name k i n (suc fuel) (part, parts) v enough e =
    let behind : List ℕ = parts_bytes ps (short_bytes s ++ rest) in
    let room : length (part_name p ++ parts_name ps) + k
        ≡ length (part_name p) + (length (parts_name ps) + k) =
      omega (arith, length-append (part_name p) (parts_name ps)) in
    let stop : i + 1 + length ps + 1 ≡ i + suc (length ps) + 1 = omega arith in
    parse_long-part fuel i n (n + length (part_name p)) (part_bytes p ++ behind) (part_bytes p)
      (part_name p) (name ++ replicate (length (part_name p ++ parts_name ps) + k) 0)
      ((name ++ part_name p) ++ replicate (length (parts_name ps) + k) 0)
      (omega (arith, length-append (part_bytes p) behind, length-part_bytes p part))
      (take-append (part_bytes p) behind 32 (length-part_bytes p part)) (part-attributes p part)
      (name_part-part_bytes p part)
      (rw room (put_chars_lem (part_name p) name (length (parts_name ps) + k) n e))
    ∙ ap
        (λ (raw : List ℕ).
          parse_long fuel raw (i + 1)
            ((name ++ part_name p) ++ replicate (length (parts_name ps) + k) 0)
            (n + length (part_name p)))
        (drop-append (part_bytes p) behind 32 (length-part_bytes p part))
    ∙ parse_long_lem ps s rest (name ++ part_name p) k (i + 1) (n + length (part_name p)) fuel parts
        v (omega arith) (omega (arith, length-append name (part_name p)))
    ∙ rw (stop, append_assoc name (part_name p) (parts_name ps)) refl

-- `parse` on an entry that is part of a long name.
parse-parse_long :
    (raw : List ℕ) (first : ℕ)
    → get_elem? raw 0 ≡ some first
    → first ≢ 0
    → first ≢ 0xe5
    → get_elem? raw 11 ≡ some long_file_name
    → parse raw ≡ parse_long (length raw) raw 0 (replicate 255 0) 0
unfolding parse
parse-parse_long raw first e nz used a = rw (e, ne→== first 0 nz, ne→== first 0xe5 used, a) refl

-- What a directory holds: free entries, and entries with parts of a long name, if any, before them.
pub data Item : Type 0 where
  free : List ℕ → Item
  named : List Part → Short → Item

abbrev pub IsItem : Item → Type 0
IsItem (free bytes) = length bytes ≡ 31
IsItem (named ps s) = AreParts ps × IsShort s × (length (parts_name ps) ≤ 255)

abbrev pub AreItems : List Item → Type 0
AreItems [] = Unit {0}
AreItems (x ∷ xs) = IsItem x × AreItems xs

-- The bytes of the items, and those behind them.
abbrev pub items_bytes : List Item → List ℕ → List ℕ
items_bytes [] after = after
items_bytes (free bytes ∷ xs) after = (0xe5 ∷ bytes) ++ items_bytes xs after
items_bytes (named ps s ∷ xs) after = parts_bytes ps (short_bytes s ++ items_bytes xs after)

abbrev pub item_name : List Part → Short → List ℕ
item_name [] s = take_until_zero (s.first ∷ s.name)
item_name (p ∷ ps) s = parts_name (p ∷ ps)

abbrev pub item_entry : List Part → Short → DirectoryEntry
item_entry [] s = normal_dir_entry (short_entry s)
item_entry (p ∷ ps) s = long_entry (parts_name (p ∷ ps)) (255 - length (parts_name (p ∷ ps))) s

-- The first item of a name.
abbrev pub lookup : List ℕ → List Item → Option DirectoryEntry
lookup name [] = none
lookup name (free bytes ∷ xs) = lookup name xs
lookup name (named ps s ∷ xs) =
    let rest = lookup name xs in if eq (item_name ps s) name then some (item_entry ps s) else rest

pub eq_name-item_entry :
    (ps : List Part) (s : Short) (name : List ℕ)
    → eq_name (item_entry ps s) name ≡ eq (item_name ps s) name
unfolding eq_name
eq_name-item_entry [] s name = refl
eq_name-item_entry (p ∷ ps) s name =
    rw
      (take_until_zero-append (parts_name (p ∷ ps)) (255 - length (parts_name (p ∷ ps)))
        (parts_name-IsText (p ∷ ps)))
      refl

-- An entry with the parts of its name is read in one go.
pub parse-named :
    (ps : List Part) (s : Short) (rest : List ℕ)
    → IsItem (named ps s)
    → parse (parts_bytes ps (short_bytes s ++ rest)) ≡ ok ((length ps + 1) * 32, item_entry ps s)
parse-named [] s rest (parts, v, small) = parse-short_bytes s v rest
parse-named (p ∷ ps) s rest ((part, parts), v, small) =
    let behind : List ℕ = parts_bytes ps (short_bytes s ++ rest) in
    let n : ℕ = length (parts_name (p ∷ ps)) in
    let all : n + (255 - n) ≡ 255 = omega arith in
    let stop : 0 + suc (length ps) + 1 ≡ suc (length ps) + 1 = omega arith in
    let enough : suc (length ps) < length (part_bytes p ++ behind) = omega (
      arith,
      length-append (part_bytes p) behind,
      length-part_bytes p part,
      length-parts_bytes ps (short_bytes s ++ rest) parts,
      length-append (short_bytes s) rest,
      length-short_bytes s v,
    ) in
    parse-parse_long (part_bytes p ++ behind) p.order refl part.in_use.0 part.in_use.1
      (get_elem?-append_some (part_bytes p) behind 11 _ (part-attributes p part))
    ∙ ap
        (λ (k : ℕ).
          parse_long (length (part_bytes p ++ behind)) (part_bytes p ++ behind) 0 (replicate k 0) 0)
        (sym all)
    ∙ parse_long_lem (p ∷ ps) s rest [] (255 - n) 0 0 (length (part_bytes p ++ behind))
        (part, parts) v enough refl
    ∙ rw stop refl
