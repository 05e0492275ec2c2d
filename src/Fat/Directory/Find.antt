-- ===== src/Fat/Directory/Find.antt =====
-- The search for a name goes through the items of a directory.
use miniature_os.Base.{ℕ, zero, suc, ◌+◌, ◌*◌, ◌≤◌, ◌<◌, ◌≡◌, refl, ap, ◌∙◌, arith}
use miniature_os.Base.{
  List, [], ◌∷◌, ◌++◌, Option, some, none, true, Bool-cases, inl, inr, Run, ok, ◌>>=◌,
}
use miniature_os.Base.{length, drop, length-append, length-drop, drop-append, drop-add}
use miniature_os.Base.{leb, le→leb, if◌then◌else◌}
use miniature_os.Fat.Directory.{
  DirectoryEntry, parse, eq, eq_name, RootDirIter, next_entry, next, find, end_of_dir, unused,
}
use miniature_os.Fat.Directory.Slots.{Short, IsShort, short_bytes, length-short_bytes}
use miniature_os.Fat.Directory.Long.{
  Part, AreParts, part_bytes, parts_bytes, length-part_bytes, length-parts_bytes,
}
use miniature_os.Fat.Directory.Items.{
  Item, free, named, IsItem, AreItems, items_bytes, item_name, item_entry,
}
use miniature_os.Fat.Directory.Items.{lookup, parse-named, eq_name-item_entry}

-- The rest of the buffer from the iterator's offset on.
abbrev At : RootDirIter → List ℕ → Type 0
At it rest = (it.offset ≤ length it.buf) × (drop it.offset it.buf ≡ rest)

abbrev advanced : RootDirIter → ℕ → RootDirIter
advanced it n = record it { offset = it.offset + n }

-- One entry is read, and the iterator stands behind it.
next_entry-parse :
    (it : RootDirIter) (rest : List ℕ) (n : ℕ) (entry : DirectoryEntry)
    → At it rest
    → parse rest ≡ ok (n, entry)
    → next_entry it ≡ ok (entry, advanced it n)
unfolding next_entry
next_entry-parse it rest n entry (le, e) q =
    let inside : leb it.offset (length it.buf) ≡ true = le→leb _ _ le in rw (inside, e, q) refl

At-advanced :
    (it : RootDirIter) (rest after : List ℕ) (n : ℕ)
    → At it rest
    → n ≤ length rest
    → drop n rest ≡ after
    → At (advanced it n) after
At-advanced it rest after n (le, e) fits q = (
  omega (arith, ap length e, length-drop it.offset it.buf),
  drop-add it.offset n it.buf ∙ ap (drop n) e ∙ q,
)

-- `parse` at the end of the directory, and at a free entry.
parse-end : (junk : List ℕ) → parse (0 ∷ junk) ≡ ok (32, end_of_dir)
unfolding parse
parse-end junk = refl

parse-free : (bytes : List ℕ) → parse (0xe5 ∷ bytes) ≡ ok (32, unused)
unfolding parse
parse-free bytes = refl

drop-parts_bytes :
    (ps : List Part) (s : Short) (rest : List ℕ)
    → AreParts ps
    → IsShort s
    → drop ((length ps + 1) * 32) (parts_bytes ps (short_bytes s ++ rest)) ≡ rest
drop-parts_bytes [] s rest parts v = drop-append (short_bytes s) rest 32 (length-short_bytes s v)
drop-parts_bytes (p ∷ ps) s rest (part, parts) v =
    let e : (suc (length ps) + 1) * 32 ≡ 32 + (length ps + 1) * 32 = omega arith in
    rw e (
      drop-add 32 ((length ps + 1) * 32) (part_bytes p ++ parts_bytes ps (short_bytes s ++ rest))
      ∙ ap (drop ((length ps + 1) * 32)) (
          drop-append (part_bytes p) (parts_bytes ps (short_bytes s ++ rest)) 32
            (length-part_bytes p part))
      ∙ drop-parts_bytes ps s rest parts v)

next-named :
    (ps : List Part) (s : Short) (rest : List ℕ) (it : RootDirIter) (f : ℕ)
    → IsItem (named ps s)
    → At it (parts_bytes ps (short_bytes s ++ rest))
    → next (suc f) it ≡ ok (some (item_entry ps s), advanced it ((length ps + 1) * 32))
unfolding next
next-named [] s rest it f item at =
    rw (next_entry-parse it (short_bytes s ++ rest) _ _ at (parse-named [] s rest item)) refl
next-named (p ∷ ps) s rest it f item at =
    rw
      (next_entry-parse it (parts_bytes (p ∷ ps) (short_bytes s ++ rest)) _ _ at
        (parse-named (p ∷ ps) s rest item))
      refl

-- What `find` does with the answer of `next`.
abbrev checked :
    ℕ → List ℕ → Run (Option DirectoryEntry × RootDirIter) → Run (Option DirectoryEntry)
checked fuel name answer = do
  (item, it') ← answer
  elim item [
    | none ↦ ok none
    | some entry ↦ if eq_name entry name then ok (some entry) else find fuel name it'
  ]

find-checked :
    (k : ℕ) (name : List ℕ) (it : RootDirIter)
    → find (suc k) name it ≡ checked k name (next (suc k) it)
unfolding find
find-checked k name it = refl

checked_lem :
    (xs : List Item) (name junk : List ℕ) (it : RootDirIter) (f k : ℕ)
    → AreItems xs
    → At it (items_bytes xs (0 ∷ junk))
    → length xs < f
    → length xs ≤ k
    → checked k name (next f it) ≡ ok (lookup name xs)
unfolding next
checked_lem xs name junk it zero k v at h g = absurd (omega arith)
checked_lem [] name junk it (suc f) k v at h g =
    rw (next_entry-parse it (0 ∷ junk) 32 end_of_dir at (parse-end junk)) refl
checked_lem (free bytes ∷ xs) name junk it (suc f) k (len, v) at h g =
    let rest : List ℕ = items_bytes xs (0 ∷ junk) in
    let skip : At (advanced it 32) rest =
      At-advanced it (0xe5 ∷ bytes ++ rest) rest 32 at (omega (arith, length-append bytes rest))
        (drop-append bytes rest 31 len) in
    rw (next_entry-parse it (0xe5 ∷ bytes ++ rest) 32 unused at (parse-free (bytes ++ rest)))
      (checked_lem xs name junk (advanced it 32) f k v skip (omega arith) (omega arith))
checked_lem (named ps s ∷ xs) name junk it (suc f) zero (item, v) at h g = absurd (omega arith)
checked_lem (named ps s ∷ xs) name junk it (suc f) (suc k) (item, v) at h g =
    let (parts, short, small) = item in
    let rest : List ℕ = items_bytes xs (0 ∷ junk) in
    let fits : (length ps + 1) * 32 ≤ length (parts_bytes ps (short_bytes s ++ rest)) = omega (
      arith,
      length-parts_bytes ps (short_bytes s ++ rest) parts,
      length-append (short_bytes s) rest,
      length-short_bytes s short,
    ) in
    let skip : At (advanced it ((length ps + 1) * 32)) rest =
      At-advanced it (parts_bytes ps (short_bytes s ++ rest)) rest ((length ps + 1) * 32) at fits
        (drop-parts_bytes ps s rest parts short) in
    ap (checked (suc k) name) (next-named ps s rest it f item at)
    ∙ rw (eq_name-item_entry ps s name) (elim (Bool-cases (eq (item_name ps s) name)) [
      | inl same ↦ rw same refl
      | inr differ ↦ rw differ (
          find-checked k name (advanced it ((length ps + 1) * 32))
          ∙ checked_lem xs name junk (advanced it ((length ps + 1) * 32)) (suc k) k v skip
              (omega arith) (omega arith))
    ])

-- In a directory whose items are free entries, entries with an 8.3 name, and entries with the
-- parts of a long name of at most 255 characters before them, with an end behind them, the search gives
-- the first item whose name is the one looked for: of an 8.3 name the eleven bytes as they are,
-- up to a zero byte, of a long name the characters of its parts in the order in which these stand.
-- It gives nothing if there is no such item. One step more than there are items is enough, and nothing
-- panics.
pub find-lookup :
    (xs : List Item) (name junk : List ℕ) (fuel : ℕ)
    → AreItems xs
    → length xs < fuel
    → find fuel name (record { buf = items_bytes xs (0 ∷ junk); offset = 0 }) ≡ ok (lookup name xs)
find-lookup xs name junk zero v h = absurd (omega arith)
find-lookup xs name junk (suc fuel) v h =
    find-checked fuel name (record { buf = items_bytes xs (0 ∷ junk); offset = 0 })
    ∙ checked_lem xs name junk (record { buf = items_bytes xs (0 ∷ junk); offset = 0 }) (suc fuel)
        fuel v (omega arith, refl) h (omega arith)
