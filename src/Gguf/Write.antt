-- ===== src/Gguf/Write.antt =====
-- src/hydroxl/GGUFLoader.cpp: a file format writer, to state what the parser reads back.
pub mod Places
pub mod Back
use hetero_accel.Base.{
  ℕ, zero, suc, ◌+◌, ◌-◌, ◌*◌, ◌/◌, ◌%◌, ◌^◌, ◌≤◌, ◌<◌, min, max, ◌≡◌, refl, sym, ap, ◌∙◌, subst,
  ◌≢◌, ◌⊎◌, inl, inr, Bool, true, false, not, ◌&&◌, ◌||◌, Option, none, some, List, [], ◌∷◌, ◌++◌,
  map, arith, ltb, leb, ◌==◌, if◌then◌else◌, is_some, one_if, ==→≡, ==_self, ltb-false, or-false,
  Bool-cases, Option-cases, length, All, length-append, take, take-take, drop, length-take,
  drop-append, take-append, append_assoc, length-drop, u64_mod, u32_mod, add64, mul64,
}
use hetero_accel.Base.Map.{
  Map, lookup, put, erase, Distinct, Each, total, lookup-put, lookup-erase, put-Distinct,
  erase-Distinct, total-put_old, total-put_new, total-erase, length-erase, total-get,
  total-le-length, Each-map, Each-lookup, Each-put, Each-erase,
}
use hetero_accel.Gguf.Types.{
  Bytes, GgmlType, f32, f16, q4_0, q4_1, q5_0, q5_1, q8_0, q8_1, q2_k, q3_k, q4_k, q5_k, q6_k, q8_k,
  unknown_type, TensorDesc,
}

-- A number in `n` bytes, the lowest first.
abbrev pub bytes_of : ℕ → ℕ → Bytes
bytes_of zero v = []
bytes_of (suc n) v = v % 256 ∷ bytes_of n (v / 256)

abbrev pub write_string : Bytes → Bytes
write_string s = bytes_of 8 (length s) ++ s

abbrev pub write_dims : List ℕ → Bytes
write_dims [] = []
write_dims (d ∷ ds) = bytes_of 8 d ++ write_dims ds

abbrev pub type_code : GgmlType → ℕ
type_code f32 = 0
type_code f16 = 1
type_code q4_0 = 2
type_code q4_1 = 3
type_code q5_0 = 6
type_code q5_1 = 7
type_code q8_0 = 8
type_code q8_1 = 9
type_code q2_k = 10
type_code q3_k = 11
type_code q4_k = 12
type_code q5_k = 13
type_code q6_k = 14
type_code q8_k = 15
type_code (unknown_type n) = n

abbrev pub write_tensor : TensorDesc → Bytes
write_tensor d =
    write_string d.name
    ++ (bytes_of 4 (length d.shape)
        ++ (write_dims d.shape ++ (bytes_of 4 (type_code d.type) ++ bytes_of 8 d.offset)))

abbrev pub write_tensors : List TensorDesc → Bytes
write_tensors [] = []
write_tensors (d ∷ ds) = write_tensor d ++ write_tensors ds
