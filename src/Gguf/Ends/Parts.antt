-- ===== src/Gguf/Ends/Parts.antt =====
-- src/hydroxl/GGUFLoader.cpp: parsing the metadata, the tensor descriptors and a whole file ends.
use hetero_accel.Base.{
  ℕ, zero, suc, ◌+◌, ◌-◌, ◌*◌, ◌/◌, ◌^◌, ◌<◌, subst, ◌≢◌, Bool, true, false, not, ◌&&◌, ◌||◌,
  Option, none, some, List, [], ◌∷◌, arith, ltb, leb, ◌==◌, if◌then◌else◌, length,
}
use hetero_accel.Gguf.{Header, Loader, parse_header, place_data, open_file, padding, loader_at}
use hetero_accel.Gguf.Types.{
  Bytes, ValueType, uint8, int8, uint16, int16, uint32, int32, float32, bool, string, array, uint64,
  int64, float64, unknown_value, value_type, GgmlType, ggml_type, Value, TensorDesc, LoadError,
}
use hetero_accel.Gguf.Stream.{stuck, fail, got, and_then, read_raw, read_string}
use hetero_accel.Gguf.Values.{read_value, parse_kv, Pairs, set_pair, sign_extend}
use hetero_accel.Gguf.Tensors.{
  u64_max, tensor_bytes, described, read_dims, read_tensor, parse_tensors,
}
use hetero_accel.Gguf.Ends.{
  After, and_then-After, if-After, map-After, read_raw-After, read_string-After, read_array-After,
}

read_value-After :
    (file : Bytes) (type : ValueType) (pos : ℕ)
    → length file < 2 ^ 63
    → After pos (read_value file type pos)
unfolding read_value
read_value-After file type pos small = go type
  where
    raw-After :
        (size : ℕ) (f : ℕ → Value)
        → After pos (and_then (read_raw file size pos) (λ v p. got (f v) p))
    raw-After size f = map-After pos (read_raw file size pos) f (read_raw-After file size pos)

    go : (type : ValueType) → After pos (read_value file type pos)
    go uint8 = raw-After 1 Value.of_uint32
    go int8 = raw-After 1 (λ v. Value.of_int32 (sign_extend 128 v))
    go uint16 = raw-After 2 Value.of_uint32
    go int16 = raw-After 2 (λ v. Value.of_int32 (sign_extend (2 ^ 15) v))
    go uint32 = raw-After 4 Value.of_uint32
    go int32 = raw-After 4 Value.of_int32
    go float32 = raw-After 4 Value.of_float
    go bool = raw-After 1 (λ v. Value.of_bool (not (v == 0)))
    go string = map-After pos (read_string file pos) Value.of_string (read_string-After file pos)
    go array = read_array-After (suc (length file)) file pos small (omega arith) (omega arith)
    go uint64 = raw-After 8 Value.of_uint64
    go int64 = raw-After 8 Value.of_int64
    go float64 = raw-After 8 Value.of_double
    go (unknown_value n) = tt

parse_kv-After :
    (file : Bytes) (n : ℕ) (kv : Pairs) (pos : ℕ)
    → length file < 2 ^ 63
    → After pos (parse_kv file n kv pos)
unfolding parse_kv
parse_kv-After file zero kv pos small = omega arith
parse_kv-After file (suc n) kv pos small =
    and_then-After pos (read_string file pos) _ (read_string-After file pos) (λ key p e le.
      and_then-After p (read_raw file 4 p) _ (read_raw-After file 4 p) (λ raw q e' le'.
        and_then-After q (read_value file (value_type raw) q) _
          (read_value-After file (value_type raw) q small)
          (λ v s e'' le''. parse_kv-After file n (set_pair key v kv) s small)))

read_dims-After :
    (file name : Bytes) (n d elems pos : ℕ) → After pos (read_dims file name n d elems pos)
unfolding read_dims
read_dims-After file name zero d elems pos = omega arith
read_dims-After file name (suc n) d elems pos =
    and_then-After pos (read_raw file 8 pos) _ (read_raw-After file 8 pos) (λ dim p e le.
      let rest = read_dims file name n (d + 1) (elems * dim) p in
      let whole = and_then rest (λ r q. got (dim ∷ r.0, r.1) q) in
      let no_overflow =
        if ltb (u64_max / dim) elems then fail (LoadError.element_overflow name) else whole in
      let not_large =
        if ltb (2 ^ 32) dim then fail (LoadError.large_dimension name d dim) else no_overflow in
      if-After p (dim == 0) (fail (LoadError.zero_dimension name d)) not_large (λ _. tt)
        (λ _.
          if-After p (ltb (2 ^ 32) dim) (fail (LoadError.large_dimension name d dim)) no_overflow
            (λ _. tt)
            (λ _.
              if-After p (ltb (u64_max / dim) elems) (fail (LoadError.element_overflow name)) whole
                (λ _. tt)
                (λ _.
                  and_then-After p rest _ (read_dims-After file name n (d + 1) (elems * dim) p)
                    (λ r q e' le'. omega arith)))))

described-After :
    (name : Bytes) (shape : List ℕ) (type : GgmlType) (offset : ℕ) (n : Option ℕ) (pos : ℕ)
    → After pos (described name shape type offset n pos)
described-After name shape type offset none pos = tt
described-After name shape type offset (some n) pos = omega arith

read_tensor-After : (file : Bytes) (pos : ℕ) → After pos (read_tensor file pos)
unfolding read_tensor
read_tensor-After file pos =
    and_then-After pos (read_string file pos) _ (read_string-After file pos) (λ name p e le.
      and_then-After p (read_raw file 4 p) _ (read_raw-After file 4 p) (λ n q e' le'.
        if-After q (n == 0) (fail (LoadError.no_dimensions name)) _ (λ _. tt)
          (λ _.
            if-After q (ltb 4 n) (fail (LoadError.too_many_dimensions name n)) _ (λ _. tt)
              (λ _.
                and_then-After q (read_dims file name n 0 1 q) _ (read_dims-After file name n 0 1 q)
                  (λ r s e'' le''.
                    and_then-After s (read_raw file 4 s) _ (read_raw-After file 4 s)
                      (λ code t f fle.
                        and_then-After t (read_raw file 8 t) _ (read_raw-After file 8 t)
                          (λ offset u f' fle'.
                            described-After name r.0 (ggml_type code) offset
                              (tensor_bytes (ggml_type code) r.1) u)))))))

parse_tensors-After : (file : Bytes) (n pos : ℕ) → After pos (parse_tensors file n pos)
unfolding parse_tensors
parse_tensors-After file zero pos = omega arith
parse_tensors-After file (suc n) pos =
    and_then-After pos (read_tensor file pos) _ (read_tensor-After file pos) (λ d p e le.
      and_then-After p (parse_tensors file n p) _ (parse_tensors-After file n p)
        (λ ds q e' le'. omega arith))

parse_header-After : (file : Bytes) (pos : ℕ) → After pos (parse_header file pos)
unfolding parse_header
parse_header-After file pos =
    and_then-After pos (read_raw file 4 pos) _ (read_raw-After file 4 pos) (λ magic p e le.
      if-After p (not (magic == 1179993927)) (fail LoadError.bad_magic) _ (λ _. tt)
        (λ _. and_then-After p (read_raw file 4 p) _ (read_raw-After file 4 p) (λ version q e' le'.
          if-After q (ltb version 2 || ltb 3 version) (fail (LoadError.bad_version version)) _
            (λ _. tt)
            (λ _.
              and_then-After q (read_raw file 8 q) _ (read_raw-After file 8 q) (λ tensors s f fle.
                and_then-After s (read_raw file 8 s) _ (read_raw-After file 8 s)
                  (λ pairs t f' fle'. ground arith))))))

two_checks-After :
    (pos : ℕ) (b c : Bool) (e e' : LoadError) (l : Loader)
    → After pos (if b then fail e else if c then fail e' else got l pos)
two_checks-After pos true c e e' l = tt
two_checks-After pos false true e e' l = tt
two_checks-After pos false false e e' l = omega arith

place_data-After :
    (file : Bytes) (h : Header) (kv : Pairs) (tensors : List TensorDesc) (pos : ℕ)
    → After pos (place_data file h kv tensors pos)
unfolding place_data
place_data-After file h kv tensors pos =
    let l = loader_at file h kv tensors pos in
    two_checks-After pos (ltb (u64_max - padding kv pos) pos)
      (ltb 0 h.n_tensors && leb (length file) l.data_offset) LoadError.offset_overflow
      (LoadError.data_unreachable l.data_offset) l

open_file-After : (file : Bytes) → length file < 2 ^ 63 → After 0 (open_file file)
unfolding open_file
open_file-After file small =
    if-After 0 (ltb (length file) 12) (fail LoadError.too_small) _ (λ _. tt)
      (λ _. and_then-After 0 (parse_header file 0) _ (parse_header-After file 0) (λ h p e le.
        and_then-After p (parse_kv file h.n_kv [] p) _ (parse_kv-After file h.n_kv [] p small)
          (λ kv q e' le'.
            and_then-After q (parse_tensors file h.n_tensors q) _
              (parse_tensors-After file h.n_tensors q)
              (λ tensors s e'' le''. place_data-After file h kv tensors s))))

-- Parsing a file of less than 2^63 bytes always ends, with a loader or an error, whatever the bytes
-- are: the nesting of its arrays cannot use up the fuel, which is one more than the bytes of the file.
pub open_file-ends : (file : Bytes) → length file < 2 ^ 63 → open_file file ≢ stuck
open_file-ends file small e = subst (After 0) e (open_file-After file small)
