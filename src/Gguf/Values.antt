-- ===== src/Gguf/Values.antt =====
-- src/hydroxl/GGUFLoader.cpp: the values of the metadata.
use hetero_accel.Base.{
  ℕ, zero, suc, ◌+◌, ◌-◌, ◌*◌, ◌^◌, Bool, true, false, not, ◌&&◌, Option, none, some, List, [], ◌∷◌,
  ltb, ◌==◌, if◌then◌else◌, length, take, drop, u32_mod, add64, mul64,
}
use hetero_accel.Gguf.Types.{
  Bytes, ValueType, uint8, int8, uint16, int16, uint32, int32, float32, bool, string, array, uint64,
  int64, float64, unknown_value, value_type, Value, LoadError,
}
use hetero_accel.Gguf.Stream.{Read, stuck, fail, got, and_then, read_at, le, read_raw, read_string}

-- An array of `n` numbers of 4 bytes.
abbrev pub words : ℕ → Bytes → List ℕ
words zero bs = []
words (suc n) bs = le (take 4 bs) ∷ words n (drop 4 bs)

unfoldable pub read_words : Bytes → ℕ → ℕ → ℕ → Read (List ℕ)
read_words file raw count pos = elim (read_at file pos (count * 4)) [
  | none ↦ fail (LoadError.eof_in_array raw)
  | some bs ↦ got (words count bs) (pos + count * 4)
]

unfoldable pub read_strings : Bytes → ℕ → ℕ → Read (List Bytes)
unfolding read_string
read_strings file zero pos = got [] pos
read_strings file (suc n) pos =
    and_then (read_string file pos)
      (λ s p. and_then (read_strings file n p) (λ ss q. got (s ∷ ss) q))

-- The text that stands for an array that is not retained.
abbrev pub skipped : Value
skipped = Value.of_string (
    60 ∷ 97 ∷ 114 ∷ 114 ∷ 97 ∷ 121 ∷ 95 ∷ 116 ∷ 121 ∷ 112 ∷ 101 ∷ 95 ∷ 115 ∷ 107 ∷ 105 ∷ 112 ∷ 112
    ∷ 101 ∷ 100 ∷ 62 ∷ [])

-- The loop over the elements of an array of arrays.
unfoldable pub read_nested : (ℕ → Read Value) → ℕ → ℕ → Read Value
read_nested visit zero pos = got skipped pos
read_nested visit (suc n) pos = and_then (visit pos) (λ v p. read_nested visit n p)

-- `file_.seekg`: a position past the end of the file is taken, a negative offset is not.
unfoldable pub skip_elements : ℕ → ℕ → ℕ → ℕ → Read Value
skip_elements raw size count pos =
    let target = add64 pos (mul64 count size) in
    if count == 0
    then got skipped pos
    else if ltb target (2 ^ 63)
    then got skipped target
    else fail (LoadError.eof_skipping raw)

-- The switches on the element type.
unfoldable pub read_elements : (ℕ → Read Value) → Bytes → ℕ → ℕ → ℕ → Read Value
unfolding read_words read_strings read_nested skip_elements value_type
read_elements visit file raw count pos = elim (value_type raw) [
  | uint32 ↦ and_then (read_words file raw count pos) (λ v p. got (Value.of_uint32s v) p)
  | int32 ↦ and_then (read_words file raw count pos) (λ v p. got (Value.of_int32s v) p)
  | float32 ↦ and_then (read_words file raw count pos) (λ v p. got (Value.of_floats v) p)
  | string ↦ and_then (read_strings file count pos) (λ v p. got (Value.of_strings v) p)
  | uint8 ↦ skip_elements raw 1 count pos
  | int8 ↦ skip_elements raw 1 count pos
  | bool ↦ skip_elements raw 1 count pos
  | uint16 ↦ skip_elements raw 2 count pos
  | int16 ↦ skip_elements raw 2 count pos
  | uint64 ↦ skip_elements raw 8 count pos
  | int64 ↦ skip_elements raw 8 count pos
  | float64 ↦ skip_elements raw 8 count pos
  | array ↦ read_nested visit count pos
  | unknown_value n ↦ fail (LoadError.unknown_element n)
]

-- The recursion goes down once for each level of nesting, on fuel.
unfoldable pub read_array : ℕ → Bytes → ℕ → Read Value
unfolding read_raw read_elements
read_array zero file pos = stuck
read_array (suc k) file pos = and_then (read_raw file 4 pos) (λ raw p.
    and_then (read_raw file 8 p) (λ count q.
      if ltb (2 ^ 24) count
      then fail (LoadError.array_too_long count)
      else read_elements (read_array k file) file raw count q))

-- The conversions of `int8_t` and `int16_t` to `int32_t`, on bit patterns.
abbrev pub sign_extend : ℕ → ℕ → ℕ
sign_extend half v = if ltb v half then v else v + (u32_mod - 2 * half)

-- Fuel for the arrays: each level of nesting takes bytes of the file.
unfoldable pub read_value : Bytes → ValueType → ℕ → Read Value
unfolding read_raw read_string read_array
read_value file type pos = elim type [
  | uint8 ↦ and_then (read_raw file 1 pos) (λ v p. got (Value.of_uint32 v) p)
  | int8 ↦ and_then (read_raw file 1 pos) (λ v p. got (Value.of_int32 (sign_extend 128 v)) p)
  | uint16 ↦ and_then (read_raw file 2 pos) (λ v p. got (Value.of_uint32 v) p)
  | int16 ↦ and_then (read_raw file 2 pos) (λ v p. got (Value.of_int32 (sign_extend (2 ^ 15) v)) p)
  | uint32 ↦ and_then (read_raw file 4 pos) (λ v p. got (Value.of_uint32 v) p)
  | int32 ↦ and_then (read_raw file 4 pos) (λ v p. got (Value.of_int32 v) p)
  | float32 ↦ and_then (read_raw file 4 pos) (λ v p. got (Value.of_float v) p)
  | bool ↦ and_then (read_raw file 1 pos) (λ v p. got (Value.of_bool (not (v == 0))) p)
  | string ↦ and_then (read_string file pos) (λ s p. got (Value.of_string s) p)
  | array ↦ read_array (suc (length file)) file pos
  | uint64 ↦ and_then (read_raw file 8 pos) (λ v p. got (Value.of_uint64 v) p)
  | int64 ↦ and_then (read_raw file 8 pos) (λ v p. got (Value.of_int64 v) p)
  | float64 ↦ and_then (read_raw file 8 pos) (λ v p. got (Value.of_double v) p)
  | unknown_value n ↦ fail (LoadError.unknown_value_type n)
]

-- `kv_`, an `unordered_map<std::string, GGUFValue>`, as an association list.
abbrev pub Pairs : Type 0
Pairs = List (Bytes × Value)

abbrev pub same_bytes : Bytes → Bytes → Bool
same_bytes [] [] = true
same_bytes (a ∷ rest) (b ∷ bs) = (a == b) && same_bytes rest bs
same_bytes _ _ = false

unfoldable pub find_pair : Bytes → Pairs → Option Value
find_pair key [] = none
find_pair key ((k, v) ∷ m) = if same_bytes k key then some v else find_pair key m

unfoldable pub set_pair : Bytes → Value → Pairs → Pairs
set_pair key v [] = (key, v) ∷ []
set_pair key v ((k, w) ∷ m) = if same_bytes k key then (k, v) ∷ m else (k, w) ∷ set_pair key v m

-- `parseKV`, with the pairs that are there.
unfoldable pub parse_kv : Bytes → ℕ → Pairs → ℕ → Read Pairs
unfolding read_string read_raw read_value set_pair
parse_kv file zero kv pos = got kv pos
parse_kv file (suc n) kv pos = and_then (read_string file pos) (λ key p.
    and_then (read_raw file 4 p) (λ raw q.
      and_then (read_value file (value_type raw) q) (λ v s. parse_kv file n (set_pair key v kv) s)))
