-- ===== src/Fat/Directory/Slots.antt =====
-- Directory entries as they are laid out on the disk, and `parse` on them.
use miniature_os.Base.{ℕ, ◌/◌, ◌%◌, ◌^◌, ◌<◌, ◌≡◌, ◌≢◌, refl, ap, ◌∙◌, arith}
use miniature_os.Base.{List, [], ◌∷◌, ◌++◌, some, ok, ◌>>=◌, u32_mod}
use miniature_os.Base.{length, get_elem?, slice, length-append}
use miniature_os.Base.{
  get_elem?-append, get_elem?-append_some, slice-append, slice-append_le, to_le_bytes,
  from_le_bytes,
}
use miniature_os.Base.{ne→==}
use miniature_os.Base.Bits.{bit_or_fields}
use miniature_os.Fat.Bpb.{le_field}
use miniature_os.Fat.Directory.{
  NormalDirectoryEntry, normal_dir_entry, parse, cluster_number, long_file_name,
}

-- The 32 bytes of an entry with an 8.3 name; `extra` and `stamp` are fields that are not read.
pub record Short : Type 0 where
  pub first : ℕ
  pub name : List ℕ
  pub attributes : ℕ
  pub extra : List ℕ
  pub cluster : ℕ
  pub stamp : List ℕ
  pub size : ℕ

-- The entry is neither free nor the end nor part of a long name, and its fields fit.
pub record IsShort (s : Short) : Type 0 where
  pub in_use : (s.first ≢ 0) × (s.first ≢ 0xe5)
  pub not_long : s.attributes ≢ long_file_name
  pub name_length : length s.name ≡ 10
  pub extra_length : length s.extra ≡ 8
  pub stamp_length : length s.stamp ≡ 4
  pub cluster_fits : s.cluster < u32_mod
  pub size_fits : s.size < u32_mod

abbrev head_bytes : Short → List ℕ
head_bytes s = (s.first ∷ s.name) ++ (s.attributes ∷ s.extra)

abbrev high_bytes : Short → List ℕ
high_bytes s = head_bytes s ++ to_le_bytes 2 (s.cluster / 2 ^ 16)

abbrev stamp_bytes : Short → List ℕ
stamp_bytes s = high_bytes s ++ s.stamp

abbrev low_bytes : Short → List ℕ
low_bytes s = stamp_bytes s ++ to_le_bytes 2 (s.cluster % 2 ^ 16)

abbrev pub short_bytes : Short → List ℕ
short_bytes s = low_bytes s ++ to_le_bytes 4 s.size

abbrev pub short_entry : Short → NormalDirectoryEntry
short_entry s = record {
  filename = s.first ∷ s.name;
  attributes = s.attributes;
  first_cluster_number = s.cluster;
  size_in_bytes = s.size;
}

two_bytes : (n : ℕ) → n < 2 ^ 16 → from_le_bytes (to_le_bytes 2 n) ≡ n
two_bytes n h = omega arith

four_bytes : (n : ℕ) → n < 2 ^ 32 → from_le_bytes (to_le_bytes 4 n) ≡ n
four_bytes n h = omega arith

module _ (s : Short) (v : IsShort s) where
  length-head : length (head_bytes s) ≡ 20
  length-head = omega (
    arith,
    length-append (s.first ∷ s.name) (s.attributes ∷ s.extra),
    v.name_length,
    v.extra_length,
  )

  length-stamp : length (stamp_bytes s) ≡ 26
  length-stamp = omega (
    arith,
    length-head,
    length-append (head_bytes s) (to_le_bytes 2 (s.cluster / 2 ^ 16)),
    length-append (high_bytes s) s.stamp,
    v.stamp_length,
  )

  length-low : length (low_bytes s) ≡ 28
  length-low =
      omega
        (arith, length-stamp, length-append (stamp_bytes s) (to_le_bytes 2 (s.cluster % 2 ^ 16)))

  pub length-short_bytes : length (short_bytes s) ≡ 32
  length-short_bytes = omega (arith, length-low, length-append (low_bytes s) (to_le_bytes 4 s.size))

  module _ (rest : List ℕ) where
    abbrev raw : List ℕ
    raw = short_bytes s ++ rest

    pub attributes_at : get_elem? raw 11 ≡ some s.attributes
    attributes_at = get_elem?-append_some (short_bytes s) rest 11 _ (
        get_elem?-append_some (low_bytes s) (to_le_bytes 4 s.size) 11 _ (
          get_elem?-append_some (stamp_bytes s) (to_le_bytes 2 (s.cluster % 2 ^ 16)) 11 _ (
            get_elem?-append_some (high_bytes s) s.stamp 11 _ (
              get_elem?-append_some (head_bytes s) (to_le_bytes 2 (s.cluster / 2 ^ 16)) 11 _ (
                get_elem?-append (s.first ∷ s.name) s.extra s.attributes 11
                  (omega (arith, v.name_length)))))))

    pub filename_at : slice raw 0 11 ≡ ok (s.first ∷ s.name)
    filename_at = slice-append_le (short_bytes s) rest _ 0 11 (
        slice-append_le (low_bytes s) (to_le_bytes 4 s.size) _ 0 11 (
          slice-append_le (stamp_bytes s) (to_le_bytes 2 (s.cluster % 2 ^ 16)) _ 0 11 (
            slice-append_le (high_bytes s) s.stamp _ 0 11 (
              slice-append_le (head_bytes s) (to_le_bytes 2 (s.cluster / 2 ^ 16)) _ 0 11 (
                slice-append_le (s.first ∷ s.name) (s.attributes ∷ s.extra) _ 0 11
                  (slice-append [] (s.first ∷ s.name) 0 11 refl (omega (arith, v.name_length))))))))

    high_at : le_field raw 20 22 ≡ ok (s.cluster / 2 ^ 16)
    high_at =
        ap (λ r. r >>= λ bytes. ok (from_le_bytes bytes))
          (slice-append_le (short_bytes s) rest _ 20 22 (
            slice-append_le (low_bytes s) (to_le_bytes 4 s.size) _ 20 22 (
              slice-append_le (stamp_bytes s) (to_le_bytes 2 (s.cluster % 2 ^ 16)) _ 20 22 (
                slice-append_le (high_bytes s) s.stamp _ 20 22 (
                  slice-append (head_bytes s) (to_le_bytes 2 (s.cluster / 2 ^ 16)) 20 22 length-head
                    refl)))))
        ∙ ap ok (two_bytes (s.cluster / 2 ^ 16) (omega (arith, v.cluster_fits)))

    low_at : le_field raw 26 28 ≡ ok (s.cluster % 2 ^ 16)
    low_at =
        ap (λ r. r >>= λ bytes. ok (from_le_bytes bytes))
          (slice-append_le (short_bytes s) rest _ 26 28 (
            slice-append_le (low_bytes s) (to_le_bytes 4 s.size) _ 26 28 (
              slice-append (stamp_bytes s) (to_le_bytes 2 (s.cluster % 2 ^ 16)) 26 28 length-stamp
                refl)))
        ∙ ap ok (two_bytes (s.cluster % 2 ^ 16) (omega arith))

    pub size_at : le_field raw 28 32 ≡ ok s.size
    size_at =
        ap (λ r. r >>= λ bytes. ok (from_le_bytes bytes))
          (slice-append_le (short_bytes s) rest _ 28 32
            (slice-append (low_bytes s) (to_le_bytes 4 s.size) 28 32 length-low refl))
        ∙ ap ok (four_bytes s.size v.size_fits)

    pub cluster_at : cluster_number raw ≡ ok s.cluster
    unfolding cluster_number
    cluster_at =
        rw (high_at, low_at)
          (ap ok (
            bit_or_fields 16 (s.cluster / 2 ^ 16) (s.cluster % 2 ^ 16) (omega arith) ∙ omega arith))

    -- An entry with an 8.3 name that stands in the directory is read as its fields: the eleven
    -- characters of the name, the attributes, the number of the first cluster from its two halves,
    -- and the size.
    pub parse-short_bytes : parse raw ≡ ok (32, normal_dir_entry (short_entry s))
    unfolding parse
    parse-short_bytes =
        rw
          (
            ne→== s.first 0 v.in_use.0,
            ne→== s.first 0xe5 v.in_use.1,
            attributes_at,
            ne→== s.attributes long_file_name v.not_long,
            filename_at,
            cluster_at,
            size_at,
          )
          refl
