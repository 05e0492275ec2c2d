-- ===== src/Paging/Table.antt =====
-- Page tables in memory: `PageTable` of x86_64/src/paging/mod.rs. Memory is read and written in
-- words of eight bytes, which is how the code accesses tables; a table at `base` has its entry `i`
-- at `base + 8 * i`.
use miniature_os.Base.{ℕ, ◌+◌, ◌*◌, ◌%◌, ◌<◌, ◌≡◌, arith, ◌&&◌, Run, ok, ◌>>◌}
use miniature_os.Base.{◌==◌, ltb, leb, if◌then◌else◌, assert, panic}

abbrev pub Memory : Type 0
Memory = ℕ → ℕ

abbrev pub store : Memory → ℕ → ℕ → Memory
store m a v x = if x == a then v else m x

-- `Index` and `IndexMut`: an index from 512 on panics.
unfoldable pub slot : ℕ → ℕ → Run ℕ
slot base i = if ltb i 512 then ok (base + 8 * i) else panic

-- `PageTable::SIZE`, 512 entries of 8 bytes.
abbrev pub table_size : ℕ
table_size = 4096

-- `PageTable::initialize_empty_at_address`.
unfoldable pub initialize_empty_at_address : ℕ → Memory → Run Memory
initialize_empty_at_address base m = do
  assert (base % table_size == 0)
  ok (λ x. if leb base x && ltb x (base + table_size) then 0 else m x)

-- An initialised table has only unused entries, and nothing outside the table changes.
pub initialize_empty_lem :
    (base : ℕ) (m : Memory)
    → base % table_size ≡ 0
    → (m' : Memory) × (initialize_empty_at_address base m ≡ ok m')
      × ((i : ℕ) → i < 512 → m' (base + 8 * i) ≡ 0)
      × ((x : ℕ) → x < base → m' x ≡ m x)
      × ((k : ℕ) → m' (base + table_size + k) ≡ m (base + table_size + k))
unfolding initialize_empty_at_address
initialize_empty_lem base m h = (
  λ x. if leb base x && ltb x (base + table_size) then 0 else m x,
  ground arith,
  λ i lt. ground arith,
  λ x lt. ground arith,
  λ k. ground arith,
)
