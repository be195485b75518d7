-- ===== src/Base/Words.antt =====
-- Go's fixed-width unsigned integers as native numbers, with their wrap-around written out.
use Prim.Native.Nat.{ℕ, ◌%◌, ◌^◌}

abbrev pub u64_mod : ℕ
u64_mod = 2 ^ 64

abbrev pub u32_mod : ℕ
u32_mod = 2 ^ 32

abbrev pub u64 : ℕ → ℕ
u64 n = n % u64_mod

abbrev pub u32 : ℕ → ℕ
u32 n = n % u32_mod
