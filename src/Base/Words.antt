-- ===== src/Base/Words.antt =====
-- Unsigned 64-bit and 32-bit arithmetic with its wrap-around, and the sign of an `int`.
use Prim.Native.Nat.{ℕ, ◌+◌, ◌*◌, ◌^◌, ◌%◌}
use mathlib.Core.Bool.{Bool, ◌&&◌}
use hetero_accel.Base.Tests.{ltb}

abbrev pub u64_mod : ℕ
u64_mod = 2 ^ 64

abbrev pub u32_mod : ℕ
u32_mod = 2 ^ 32

-- The sign test of an `int` that is kept as its 32 bits.
abbrev pub is_positive : ℕ → Bool
is_positive n = ltb 0 n && ltb n (2 ^ 31)

-- `uint64_t` and 64-bit `size_t` addition and multiplication.
abbrev pub add64 : ℕ → ℕ → ℕ
add64 a b = (a + b) % u64_mod

abbrev pub mul64 : ℕ → ℕ → ℕ
mul64 a b = (a * b) % u64_mod
