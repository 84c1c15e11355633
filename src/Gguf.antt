-- ===== src/Gguf.antt =====
-- src/hydroxl/GGUFLoader.cpp: the parser of GGUF files.
pub mod Types
pub mod Stream
pub mod Values
pub mod Tensors
pub mod Ends
pub mod Valid
pub mod Write
mod Tests
use hetero_accel.Base.{
  ℕ, zero, suc, ◌+◌, ◌-◌, ◌*◌, ◌/◌, ◌%◌, ◌^◌, ◌≤◌, ◌<◌, min, max, ◌≡◌, refl, sym, ap, ◌∙◌, subst,
  ◌≢◌, ◌⊎◌, inl, inr, Bool, true, false, not, ◌&&◌, ◌||◌, Option, none, some, List, [], ◌∷◌, ◌++◌,
  map, arith, ltb, leb, ◌==◌, if◌then◌else◌, is_some, one_if, ==→≡, ==_self, Bool-cases,
  Option-cases, length, All, length-append, take, take-take, drop, length-take, drop-append,
  take-append, append_assoc, length-drop, u64_mod, u32_mod, add64, mul64,
}
use hetero_accel.Base.Map.{
  Map, lookup, put, erase, Distinct, Each, total, lookup-put, lookup-erase, put-Distinct,
  erase-Distinct, total-put_old, total-put_new, total-erase, length-erase, total-get,
  total-le-length, Each-map, Each-lookup, Each-put, Each-erase,
}
use hetero_accel.Gguf.Types.{Bytes, Value, TensorDesc, LoadError}
use hetero_accel.Gguf.Stream.{Read, stuck, fail, got, and_then, read_at, read_raw}
use hetero_accel.Gguf.Values.{Pairs, same_bytes, find_pair, parse_kv}
use hetero_accel.Gguf.Tensors.{u64_max, parse_tensors}

-- A loader after `open`: the file, and what was parsed from it. `is_open` is false until then.
pub record Loader : Type 0 where
  pub file : Bytes
  pub is_open : Bool
  pub version : ℕ
  pub n_tensors : ℕ
  pub n_kv : ℕ
  pub data_offset : ℕ
  pub file_size : ℕ
  pub kv : Pairs
  pub tensors : List TensorDesc

pub record Header : Type 0 where
  pub version : ℕ
  pub n_tensors : ℕ
  pub n_kv : ℕ

pub parse_header : Bytes → ℕ → Read Header
unfolding read_raw
parse_header file pos = and_then (read_raw file 4 pos) (λ magic p.
    if not (magic == 1179993927)
    then fail LoadError.bad_magic
    else and_then (read_raw file 4 p) (λ version q.
      if ltb version 2 || ltb 3 version
      then fail (LoadError.bad_version version)
      else and_then (read_raw file 8 q) (λ n_tensors s. and_then (read_raw file 8 s) (λ n_kv t.
        if ltb 65536 n_tensors
        then fail LoadError.too_many_tensors
        else if ltb 65536 n_kv
        then fail LoadError.too_many_pairs
        else got (record { version = version; n_tensors = n_tensors; n_kv = n_kv }) t))))

-- The accessors of the metadata. The result is a `uint32_t`.
pub kv_uint32 : Pairs → Bytes → ℕ → ℕ
unfolding find_pair
kv_uint32 kv key default = elim (find_pair key kv) [
  | none ↦ default
  | some (Value.of_uint32 n) ↦ n % u32_mod
  | some (Value.of_int32 n) ↦ n % u32_mod
  | some (Value.of_uint64 n) ↦ n % u32_mod
  | some v ↦ default
]

pub kv_uint64 : Pairs → Bytes → ℕ → ℕ
unfolding find_pair
kv_uint64 kv key default = elim (find_pair key kv) [
  | none ↦ default
  | some (Value.of_uint64 n) ↦ n
  | some (Value.of_uint32 n) ↦ n
  | some v ↦ default
]

pub kv_int32 : Pairs → Bytes → ℕ → ℕ
unfolding find_pair
kv_int32 kv key default = elim (find_pair key kv) [
  | none ↦ default
  | some (Value.of_int32 n) ↦ n
  | some (Value.of_uint32 n) ↦ n
  | some v ↦ default
]

-- The conversion of `double` to `float` is an argument.
pub kv_float : (ℕ → ℕ) → Pairs → Bytes → ℕ → ℕ
unfolding find_pair
kv_float narrow kv key default = elim (find_pair key kv) [
  | none ↦ default
  | some (Value.of_float n) ↦ n
  | some (Value.of_double n) ↦ narrow n
  | some v ↦ default
]

pub kv_string : Pairs → Bytes → Bytes → Bytes
unfolding find_pair
kv_string kv key default = elim (find_pair key kv) [
  | none ↦ default
  | some (Value.of_string s) ↦ s
  | some v ↦ default
]

pub kv_string_array : Pairs → Bytes → List Bytes
unfolding find_pair
kv_string_array kv key = elim (find_pair key kv) [
  | none ↦ []
  | some (Value.of_strings ss) ↦ ss
  | some v ↦ []
]

pub find_tensor : List TensorDesc → Bytes → Option TensorDesc
find_tensor [] name = none
find_tensor (t ∷ ts) name = if same_bytes t.name name then some t else find_tensor ts name

-- "general.alignment".
abbrev pub alignment_key : Bytes
alignment_key =
    103 ∷ 101 ∷ 110 ∷ 101 ∷ 114 ∷ 97 ∷ 108 ∷ 46 ∷ 97 ∷ 108 ∷ 105 ∷ 103 ∷ 110 ∷ 109 ∷ 101 ∷ 110 ∷ 116
    ∷ []

abbrev pub alignment : Pairs → ℕ
alignment kv = let a = kv_uint32 kv alignment_key 32 in if a == 0 then 32 else a

-- The bytes up to the next multiple of the alignment.
abbrev pub padding : Pairs → ℕ → ℕ
padding kv pos = let align = alignment kv in (align - pos % align) % align

-- The loader of a file that was parsed up to a position.
abbrev pub loader_at : Bytes → Header → Pairs → List TensorDesc → ℕ → Loader
loader_at file h kv tensors pos = record {
  file = file;
  is_open = true;
  version = h.version;
  n_tensors = h.n_tensors;
  n_kv = h.n_kv;
  data_offset = add64 pos (padding kv pos);
  file_size = length file;
  kv = kv;
  tensors = tensors;
}

-- The part of `open` after the parsing, from the position that it ended at.
pub place_data : Bytes → Header → Pairs → List TensorDesc → ℕ → Read Loader
unfolding kv_uint32
place_data file h kv tensors pos =
    let l = loader_at file h kv tensors pos in
    if ltb (u64_max - padding kv pos) pos
    then fail LoadError.offset_overflow
    else if ltb 0 h.n_tensors && leb (length file) l.data_offset
    then fail (LoadError.data_unreachable l.data_offset)
    else got l pos

-- `open`, of a file that can be opened, whose size is less than 2^63.
pub open_file : Bytes → Read Loader
unfolding parse_header parse_kv parse_tensors place_data
open_file file =
    if ltb (length file) 12
    then fail LoadError.too_small
    else and_then (parse_header file 0) (λ h p. and_then (parse_kv file h.n_kv [] p) (λ kv q.
      and_then (parse_tensors file h.n_tensors q) (λ tensors s. place_data file h kv tensors s)))

-- `readTensorData`, into a buffer that is not null: the bytes that are read, or none.
pub read_tensor_data : Loader → TensorDesc → ℕ → Option Bytes
read_tensor_data l desc max_bytes =
    if not l.is_open
    then none
    else if desc.n_bytes == 0
    then none
    else if ltb max_bytes desc.n_bytes
    then none
    else if ltb l.file_size desc.offset || ltb (l.file_size - desc.offset) desc.n_bytes
    then none
    else if ltb (u64_max - l.data_offset) desc.offset
    then none
    else let at = add64 l.data_offset desc.offset in
      if ltb l.file_size at || ltb (l.file_size - at) desc.n_bytes
      then none
      else read_at l.file at desc.n_bytes
