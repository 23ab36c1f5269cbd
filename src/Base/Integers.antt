-- ===== src/Base/Integers.antt =====
-- `int64_t` values that the program only passes on, and their difference as a `size_t`.
use Prim.Native.Nat.{ℕ, suc, ◌+◌, ◌-◌, ◌%◌, ◌^◌}

-- `negsuc n` is -(n + 1).
pub data ℤ : Type 0 where
  pos : ℕ → ℤ
  negsuc : ℕ → ℤ

-- The value modulo 2 ^ 64.
abbrev pub to_u64 : ℤ → ℕ
to_u64 (pos n) = n % 2 ^ 64
to_u64 (negsuc n) = 2 ^ 64 - suc n % 2 ^ 64

-- `a - b` of two `int64_t`, converted to `size_t`.
abbrev pub sub_u64 : ℤ → ℤ → ℕ
sub_u64 a b = (to_u64 a + 2 ^ 64 - to_u64 b % 2 ^ 64) % 2 ^ 64
