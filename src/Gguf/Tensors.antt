-- ===== src/Gguf/Tensors.antt =====
-- src/hydroxl/GGUFLoader.cpp: the tensor descriptors.
use hetero_accel.Base.{
  ℕ, zero, suc, ◌+◌, ◌-◌, ◌*◌, ◌/◌, ◌^◌, Option, none, some, List, [], ◌∷◌, ltb, ◌==◌,
  if◌then◌else◌, u64_mod, add64, mul64,
}
use hetero_accel.Gguf.Types.{
  Bytes, GgmlType, f32, f16, q4_0, q4_1, q5_0, q5_1, q8_0, q8_1, q2_k, q3_k, q4_k, q5_k, q6_k, q8_k,
  unknown_type, ggml_type, TensorDesc, LoadError,
}
use hetero_accel.Gguf.Stream.{Read, fail, got, and_then, read_raw, read_string}

abbrev pub u64_max : ℕ
u64_max = u64_mod - 1

-- `((n_elems + size - 1) / size) * bytes`.
abbrev pub block_bytes : ℕ → ℕ → ℕ → ℕ
block_bytes size bytes n = mul64 (add64 n (size - 1) / size) bytes

-- The size on disk: none is an overflow, and a type that is not known has size 0.
unfoldable pub tensor_bytes : GgmlType → ℕ → Option ℕ
tensor_bytes type n = elim type [
  | f32 ↦ if ltb (u64_max / 4) n then none else some (n * 4)
  | f16 ↦ if ltb (u64_max / 2) n then none else some (n * 2)
  | q4_0 ↦ some (block_bytes 32 18 n)
  | q4_1 ↦ some (block_bytes 32 20 n)
  | q4_k ↦ some (block_bytes 256 144 n)
  | q3_k ↦ some (block_bytes 256 110 n)
  | q5_0 ↦ some (block_bytes 32 22 n)
  | q5_1 ↦ some (block_bytes 32 24 n)
  | q6_k ↦ some (block_bytes 256 210 n)
  | q8_0 ↦ some (block_bytes 32 34 n)
  | q8_1 ↦ some (block_bytes 32 36 n)
  | q2_k ↦ some (block_bytes 256 84 n)
  | q5_k ↦ some (block_bytes 256 176 n)
  | q8_k ↦ some (block_bytes 256 292 n)
  | unknown_type code ↦ some 0
]

-- The loop over the dimensions, from the index `d`, with the number of elements so far. It returns
-- the dimensions and the number of elements.
unfoldable pub read_dims : Bytes → Bytes → ℕ → ℕ → ℕ → ℕ → Read (List ℕ × ℕ)
unfolding read_raw
read_dims file name zero d n_elems pos = got ([], n_elems) pos
read_dims file name (suc n) d n_elems pos = and_then (read_raw file 8 pos) (λ dim p.
    if dim == 0
    then fail (LoadError.zero_dimension name d)
    else if ltb (2 ^ 32) dim
    then fail (LoadError.large_dimension name d dim)
    else if ltb (u64_max / dim) n_elems
    then fail (LoadError.element_overflow name)
    else and_then (read_dims file name n (d + 1) (n_elems * dim) p) (λ r q. got (dim ∷ r.0, r.1) q))

-- The descriptor, unless its size overflows.
abbrev pub described : Bytes → List ℕ → GgmlType → ℕ → Option ℕ → ℕ → Read TensorDesc
described name shape type offset none pos = fail (LoadError.byte_overflow name)
described name shape type offset (some n) pos =
    got (record { name = name; type = type; shape = shape; offset = offset; n_bytes = n }) pos

unfoldable pub read_tensor : Bytes → ℕ → Read TensorDesc
unfolding read_string read_raw read_dims tensor_bytes ggml_type
read_tensor file pos = and_then (read_string file pos) (λ name p.
    and_then (read_raw file 4 p) (λ n_dims q.
      if n_dims == 0
      then fail (LoadError.no_dimensions name)
      else if ltb 4 n_dims
      then fail (LoadError.too_many_dimensions name n_dims)
      else and_then (read_dims file name n_dims 0 1 q) (λ r s.
        and_then (read_raw file 4 s) (λ code t. and_then (read_raw file 8 t) (λ offset u.
          described name r.0 (ggml_type code) offset (tensor_bytes (ggml_type code) r.1) u)))))

-- `parseTensors`.
unfoldable pub parse_tensors : Bytes → ℕ → ℕ → Read (List TensorDesc)
unfolding read_tensor
parse_tensors file zero pos = got [] pos
parse_tensors file (suc n) pos =
    and_then (read_tensor file pos)
      (λ d p. and_then (parse_tensors file n p) (λ ds q. got (d ∷ ds) q))
