-- ===== src/Base/Word.antt =====
-- Machine words. A value is a number below `2 ^ w`; the crates are built with overflow checks
-- (the profiles of Cargo.toml), so that `+`, `-` and `*` panic instead of wrapping.
use Prim.Native.Nat.{ℕ, ◌+◌, ◌-◌, ◌*◌, ◌/◌, ◌^◌}
use miniature_os.Base.Tests.{ltb, leb, if◌then◌else◌}
use miniature_os.Base.Outcome.{Run, ok, panic}

abbrev pub u8_mod : ℕ
u8_mod = 2 ^ 8

abbrev pub u16_mod : ℕ
u16_mod = 2 ^ 16

abbrev pub u32_mod : ℕ
u32_mod = 2 ^ 32

abbrev pub u64_mod : ℕ
u64_mod = 2 ^ 64

-- `a + b` and `a * b` on a word of modulus `m`.
abbrev pub add : ℕ → ℕ → ℕ → Run ℕ
add m a b = if ltb (a + b) m then ok (a + b) else panic

abbrev pub mul : ℕ → ℕ → ℕ → Run ℕ
mul m a b = if ltb (a * b) m then ok (a * b) else panic

-- `a - b`, unsigned, on a word of any width.
abbrev pub sub : ℕ → ℕ → Run ℕ
sub a b = if leb b a then ok (a - b) else panic

abbrev pub add64 : ℕ → ℕ → Run ℕ
add64 = add u64_mod

abbrev pub mul64 : ℕ → ℕ → Run ℕ
mul64 = mul u64_mod

abbrev pub add32 : ℕ → ℕ → Run ℕ
add32 = add u32_mod

abbrev pub mul32 : ℕ → ℕ → Run ℕ
mul32 = mul u32_mod

-- `!a` on 64 bits.
abbrev pub not64 : ℕ → ℕ
not64 a = u64_mod - 1 - a

infixl 75 ◌<<<◌ ◌>>>◌
abbrev pub ◌<<<◌ : ℕ → ℕ → ℕ
x <<< k = x * 2 ^ k

abbrev pub ◌>>>◌ : ℕ → ℕ → ℕ
x >>> k = x / 2 ^ k
