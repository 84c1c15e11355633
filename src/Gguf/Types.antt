-- ===== src/Gguf/Types.antt =====
-- src/hydroxl/HydroXLTypes.h, GGUFLoader.h: the types of a GGUF file. A string is the list of its
-- bytes, and a floating-point number is its bit pattern, as is a signed integer.
use hetero_accel.Base.{ℕ, Bool, List, ◌==◌, if◌then◌else◌}

abbrev pub Bytes : Type 0
Bytes = List ℕ

-- The codes of the file, with the ones that name no type.
pub data ValueType : Type 0 where
  uint8 int8 uint16 int16 uint32 int32 float32 bool string array uint64 int64 float64 : ValueType
  unknown_value : ℕ → ValueType

unfoldable pub value_type : ℕ → ValueType
value_type n =
    if n == 0
    then uint8
    else if n == 1
    then int8
    else if n == 2
    then uint16
    else if n == 3
    then int16
    else if n == 4
    then uint32
    else if n == 5
    then int32
    else if n == 6
    then float32
    else if n == 7
    then bool
    else if n == 8
    then string
    else if n == 9
    then array
    else if n == 10
    then uint64
    else if n == 11
    then int64
    else if n == 12
    then float64
    else unknown_value n

pub data GgmlType : Type 0 where
  f32 f16 q4_0 q4_1 q5_0 q5_1 q8_0 q8_1 q2_k q3_k q4_k q5_k q6_k q8_k : GgmlType
  unknown_type : ℕ → GgmlType

unfoldable pub ggml_type : ℕ → GgmlType
ggml_type n =
    if n == 0
    then f32
    else if n == 1
    then f16
    else if n == 2
    then q4_0
    else if n == 3
    then q4_1
    else if n == 6
    then q5_0
    else if n == 7
    then q5_1
    else if n == 8
    then q8_0
    else if n == 9
    then q8_1
    else if n == 10
    then q2_k
    else if n == 11
    then q3_k
    else if n == 12
    then q4_k
    else if n == 13
    then q5_k
    else if n == 14
    then q6_k
    else if n == 15
    then q8_k
    else unknown_type n

pub data Value : Type 0 where
  of_uint32 of_uint64 of_int32 of_int64 of_float of_double : ℕ → Value
  of_bool : Bool → Value
  of_string : Bytes → Value
  of_uint32s of_int32s of_floats : List ℕ → Value
  of_strings : List Bytes → Value

pub record TensorDesc : Type 0 where
  pub name : Bytes
  pub type : GgmlType
  pub shape : List ℕ
  pub offset : ℕ
  pub n_bytes : ℕ

-- `last_error_`: one constructor for each message, with the numbers and names in it.
pub data LoadError : Type 0 where
  cannot_open too_small bad_magic too_many_tensors too_many_pairs offset_overflow : LoadError
  unexpected_eof bad_version string_too_long eof_in_string array_too_long : ℕ → LoadError
  eof_in_array eof_skipping unknown_element unknown_value_type : ℕ → LoadError
  no_dimensions element_overflow byte_overflow : Bytes → LoadError
  too_many_dimensions zero_dimension : Bytes → ℕ → LoadError
  large_dimension : Bytes → ℕ → ℕ → LoadError
  data_unreachable : ℕ → LoadError
