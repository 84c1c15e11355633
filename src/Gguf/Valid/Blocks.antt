-- ===== src/Gguf/Valid/Blocks.antt =====
-- src/hydroxl/GGUFLoader.cpp, HydroXLTypes.h: the size of a tensor on disk, in whole blocks.
use hetero_accel.Base.{
  ℕ, ◌+◌, ◌*◌, ◌/◌, ◌^◌, ◌≤◌, ◌<◌, ◌≡◌, refl, subst, false, Option, none, some, arith, ltb,
}
use hetero_accel.Gguf.Types.{
  GgmlType, f32, f16, q4_0, q4_1, q5_0, q5_1, q8_0, q8_1, q2_k, q3_k, q4_k, q5_k, q6_k, q8_k,
  unknown_type,
}
use hetero_accel.Gguf.Tensors.{u64_max, block_bytes, tensor_bytes}

-- The elements and the bytes of a block, from the format's description.
abbrev pub block_of : GgmlType → Option (ℕ × ℕ)
block_of f32 = some (1, 4)
block_of f16 = some (1, 2)
block_of q4_0 = some (32, 2 + 16)
block_of q4_1 = some (32, 2 + 2 + 16)
block_of q5_0 = some (32, 2 + 4 + 16)
block_of q5_1 = some (32, 2 + 2 + 4 + 16)
block_of q8_0 = some (32, 2 + 32)
block_of q8_1 = some (32, 2 + 2 + 32)
block_of q2_k = some (256, 84)
block_of q3_k = some (256, 32 + 64 + 12 + 2)
block_of q4_k = some (256, 2 + 2 + 12 + 128)
block_of q5_k = some (256, 176)
block_of q6_k = some (256, 128 + 64 + 16 + 2)
block_of q8_k = some (256, 292)
block_of (unknown_type n) = none

-- The fewest whole blocks that hold `n` elements take this many bytes.
abbrev pub HoldsIn : ℕ → ℕ × ℕ → ℕ → Type 0
HoldsIn n (size, bytes) m =
    (blocks : ℕ) × (m ≡ blocks * bytes) × (n ≤ blocks * size) × (blocks * size < n + size)

-- Take any type that the loader knows and any number of elements below 2^62. The size on disk that
-- the parser computes does not overflow, and is that of the fewest whole blocks that hold the elements,
-- with the block sizes of the formats.
pub tensor_bytes-blocks :
    (type : GgmlType) (n : ℕ) (block : ℕ × ℕ)
    → n < 2 ^ 62
    → block_of type ≡ some block
    → (m : ℕ) × (tensor_bytes type n ≡ some m) × HoldsIn n block m
unfolding tensor_bytes
tensor_bytes-blocks type n block small e = go type e
  where
    known :
        {a : ℕ × ℕ} {o : Option ℕ} (m : ℕ)
        → some a ≡ some block
        → o ≡ some m
        → HoldsIn n a m
        → (m : ℕ) × (o ≡ some m) × HoldsIn n block m
    known {a} m e f h = let k : a ≡ block = cc in (m, f, subst (λ b. HoldsIn n b m) k h)

    by_32 : HoldsIn n (32, 1) ((n + 31) / 32)
    by_32 = ((n + 31) / 32, omega arith, omega arith, omega arith)

    by_256 : HoldsIn n (256, 1) ((n + 255) / 256)
    by_256 = ((n + 255) / 256, omega arith, omega arith, omega arith)

    go :
        (type : GgmlType)
        → block_of type ≡ some block
        → (m : ℕ) × (tensor_bytes type n ≡ some m) × HoldsIn n block m
    go f32 e =
        let fits : ltb (u64_max / 4) n ≡ false = ground (arith, small) in
        known (n * 4) e (rw fits refl) (n, refl, omega arith, omega arith)
    go f16 e =
        let fits : ltb (u64_max / 2) n ≡ false = ground (arith, small) in
        known (n * 2) e (rw fits refl) (n, refl, omega arith, omega arith)
    go q4_0 e =
        known (block_bytes 32 18 n) e refl ((n + 31) / 32, omega (arith, small), by_32.2, by_32.3)
    go q4_1 e =
        known (block_bytes 32 20 n) e refl ((n + 31) / 32, omega (arith, small), by_32.2, by_32.3)
    go q5_0 e =
        known (block_bytes 32 22 n) e refl ((n + 31) / 32, omega (arith, small), by_32.2, by_32.3)
    go q5_1 e =
        known (block_bytes 32 24 n) e refl ((n + 31) / 32, omega (arith, small), by_32.2, by_32.3)
    go q8_0 e =
        known (block_bytes 32 34 n) e refl ((n + 31) / 32, omega (arith, small), by_32.2, by_32.3)
    go q8_1 e =
        known (block_bytes 32 36 n) e refl ((n + 31) / 32, omega (arith, small), by_32.2, by_32.3)
    go q2_k e =
        known (block_bytes 256 84 n) e refl
          ((n + 255) / 256, omega (arith, small), by_256.2, by_256.3)
    go q3_k e =
        known (block_bytes 256 110 n) e refl
          ((n + 255) / 256, omega (arith, small), by_256.2, by_256.3)
    go q4_k e =
        known (block_bytes 256 144 n) e refl
          ((n + 255) / 256, omega (arith, small), by_256.2, by_256.3)
    go q5_k e =
        known (block_bytes 256 176 n) e refl
          ((n + 255) / 256, omega (arith, small), by_256.2, by_256.3)
    go q6_k e =
        known (block_bytes 256 210 n) e refl
          ((n + 255) / 256, omega (arith, small), by_256.2, by_256.3)
    go q8_k e =
        known (block_bytes 256 292 n) e refl
          ((n + 255) / 256, omega (arith, small), by_256.2, by_256.3)
    go (unknown_type k) e = cc
