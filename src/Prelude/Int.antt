-- ===== src/Prelude/Int.antt =====
-- Go's int64: signed integers under the library's names, over the native numbers, with the
-- range and the wrap-around of 64 bits.
use Prim.Native.Nat.{ℕ, ◌+◌, ◌-◌, ◌%◌, ◌≤◌, ◌^◌}
use native.Mathlib.Omega.{arith}
use link_raft.Prelude.Tests.{ltb, if◌then◌else◌}

-- `negsuc n` is -(n + 1).
pub data ℤ : Type 0 where
  pos : ℕ → ℤ
  negsuc : ℕ → ℤ

abbrev pub max_int64 : ℕ
max_int64 = 2 ^ 63 - 1

abbrev pub IsInt64 : ℤ → Type 0
IsInt64 (pos n) = n ≤ max_int64
IsInt64 (negsuc n) = n ≤ max_int64

-- n + 1 on int64: the largest value wraps to the smallest.
unfoldable pub inc_int64 : ℤ → ℤ
inc_int64 (pos n) = if ltb n max_int64 then pos (n + 1) else negsuc max_int64
inc_int64 (negsuc n) = if ltb 0 n then negsuc (n - 1) else pos 0

-- The 64 bits of a number, and the number of 64 bits.
abbrev pub bits : ℤ → ℕ
bits (pos n) = n % 2 ^ 64
bits (negsuc n) = 2 ^ 64 - 1 - n % 2 ^ 64

abbrev pub of_bits : ℕ → ℤ
of_bits n = if ltb n (2 ^ 63) then pos n else negsuc (2 ^ 64 - 1 - n)

-- a + b on int64
unfoldable pub add_int64 : ℤ → ℤ → ℤ
add_int64 a b = of_bits ((bits a + bits b) % 2 ^ 64)

pub inc_int64-IsInt64 : (n : ℤ) → IsInt64 n → IsInt64 (inc_int64 n)
unfolding inc_int64
inc_int64-IsInt64 (pos n) h = ground arith
inc_int64-IsInt64 (negsuc n) h = ground arith
