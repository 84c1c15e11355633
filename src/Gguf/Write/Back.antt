-- ===== src/Gguf/Write/Back.antt =====
-- src/hydroxl/GGUFLoader.cpp: the tensor descriptors that were written are read back.
use hetero_accel.Base.{
  ℕ, ◌+◌, ◌*◌, ◌/◌, ◌^◌, ◌≤◌, ◌<◌, ◌≡◌, refl, ap, ◌∙◌, Bool, false, some, List, [], ◌∷◌, ◌++◌,
  arith, ltb, ◌==◌, if◌then◌else◌, length, All, length-append, u64_mod, u32_mod,
}
use native.Mathlib.Nat.{mul_assoc, mul-pos, le-mul_of_pos_right, le-div_iff_mul-le}
use hetero_accel.Gguf.Types.{Bytes, ggml_type, TensorDesc, LoadError}
use hetero_accel.Gguf.Stream.{Read, fail, got, and_then, read_raw, read_string}
use hetero_accel.Gguf.Tensors.{
  u64_max, tensor_bytes, described, read_dims, read_tensor, parse_tensors,
}
use hetero_accel.Gguf.Valid.{product, ValidTensor}
use hetero_accel.Gguf.Write.{
  bytes_of, write_string, write_dims, type_code, write_tensor, write_tensors,
}
use hetero_accel.Gguf.Write.Places.{Has, Has-first, Has-rest, read_raw-Has, read_string-Has}

-- A descriptor that can be written: a valid one whose name is at most 1 MiB, whose offset fits 64
-- bits, and whose type is the one of its code.
pub record Writable (d : TensorDesc) : Type 0 where
  pub valid : ValidTensor d
  pub name : length d.name ≤ 2 ^ 20
  pub offset : d.offset < u64_mod
  pub code : type_code d.type < u32_mod
  pub type : ggml_type (type_code d.type) ≡ d.type

and_then-done {ℓ κ} :
    {A : Type ℓ} {B : Type κ} (r : Read A) (f : A → ℕ → Read B) (a : A) (p : ℕ)
    → r ≡ got a p
    → and_then r f ≡ f a p
and_then-done r f a p e = ap (λ (r : Read _). and_then r f) e

check-passed {ℓ} :
    {A : Type ℓ} (b : Bool) (x : LoadError) (r : Read A) → b ≡ false → (if b then fail x else r) ≡ r
check-passed b x r e = rw e refl

-- A product that fits leaves room for each factor.
product-pos : (xs : List ℕ) → All (λ n. (0 < n) × (n ≤ 2 ^ 32)) xs → 0 < product xs
product-pos [] h = omega arith
product-pos (x ∷ xs) (h, hs) = mul-pos h.0 (product-pos xs hs)

read_dims-Has :
    (file name : Bytes) (ds : List ℕ) (d elems pos : ℕ)
    → All (λ n. (0 < n) × (n ≤ 2 ^ 32)) ds
    → elems * product ds < u64_mod
    → Has file pos (write_dims ds)
    → read_dims file name (length ds) d elems pos
      ≡ got (ds, elems * product ds) (pos + length (write_dims ds))
unfolding read_dims
read_dims-Has file name [] d elems pos sizes small h =
    let same_place : pos ≡ pos + 0 = omega arith in
    let same_count : elems ≡ elems * 1 = omega arith in
    ap (λ (p : ℕ). got ([], elems) p) same_place ∙ ap (λ (n : ℕ). got ([], n) (pos + 0)) same_count
read_dims-Has file name (x ∷ xs) d elems pos (size, sizes) small h =
    let part : elems * x * product xs < u64_mod =
      omega (arith, small, mul_assoc elems x (product xs)) in
    let grow = le-mul_of_pos_right (elems * x) (product-pos xs sizes) in
    let fits : elems ≤ u64_max / x =
      (le-div_iff_mul-le {x = elems} size.0).1 (omega (arith, grow, part)) in
    let e =
      read_raw-Has file 8 pos x (omega (arith, size.1))
        (Has-first (bytes_of 8 x) (write_dims xs) h) in
    let ih =
      read_dims-Has file name xs (d + 1) (elems * x) (pos + 8) sizes part
        (Has-rest (bytes_of 8 x) (write_dims xs) h) in
    let moved : pos + 8 + length (write_dims xs) ≡ pos + length (write_dims (x ∷ xs)) =
      omega arith in
    let c1 : (x == 0) ≡ false = ground (arith, size.0) in
    let c2 : ltb (2 ^ 32) x ≡ false = ground (arith, size.1) in
    let c3 : ltb (u64_max / x) elems ≡ false = ground (arith, fits) in
    let behind : read_dims file name (length xs) (d + 1) (elems * x) (pos + 8)
        ≡ got (xs, elems * x * product xs) (pos + 8 + length (write_dims xs)) =
      ih in
    let rest =
      and_then-done (read_dims file name (length xs) (d + 1) (elems * x) (pos + 8))
        (λ (r : List ℕ × ℕ) q. got (x ∷ r.0, r.1) q) (xs, elems * x * product xs)
        (pos + 8 + length (write_dims xs)) behind in
    and_then-done (read_raw file 8 pos) _ x (pos + 8) e
    ∙ check-passed (x == 0) _ _ c1
    ∙ check-passed (ltb (2 ^ 32) x) _ _ c2
    ∙ check-passed (ltb (u64_max / x) elems) _ _ c3
    ∙ rest
    ∙ ap (λ (n : ℕ). got (x ∷ xs, n) (pos + 8 + length (write_dims xs)))
        (mul_assoc elems x (product xs))
    ∙ ap (λ (n : ℕ). got (x ∷ xs, elems * (x * product xs)) n) moved

length-tensor :
    (t : TensorDesc)
    → length (write_tensor t)
      ≡ length (write_string t.name) + 4 + length (write_dims t.shape) + 4 + 8
length-tensor t =
    let c = bytes_of 4 (type_code t.type) in
    let o = bytes_of 8 t.offset in
    let n = bytes_of 4 (length t.shape) in
    let ds = write_dims t.shape in
    omega (
      arith,
      length-append (write_string t.name) (n ++ (ds ++ (c ++ o))),
      length-append n (ds ++ (c ++ o)),
      length-append ds (c ++ o),
      length-append c o,
    )

read_tensor-Has :
    (file : Bytes) (pos : ℕ) (t : TensorDesc)
    → Writable t
    → Has file pos (write_tensor t)
    → read_tensor file pos ≡ got t (pos + length (write_tensor t))
unfolding read_tensor
read_tensor-Has file pos t w h =
    let c = bytes_of 4 (type_code t.type) in
    let o = bytes_of 8 t.offset in
    let n = bytes_of 4 (length t.shape) in
    let ds = write_dims t.shape in
    let s = write_string t.name in
    let h1 = Has-first s (n ++ (ds ++ (c ++ o))) h in
    let h2 = Has-rest s (n ++ (ds ++ (c ++ o))) h in
    let h3 = Has-rest n (ds ++ (c ++ o)) h2 in
    let h4 = Has-rest ds (c ++ o) h3 in
    let p1 = pos + length s in
    let p2 = p1 + 4 in
    let p3 = p2 + length ds in
    let e1 = read_string-Has file pos t.name w.name h1 in
    let e2 =
      read_raw-Has file 4 p1 (length t.shape) (omega (arith, w.valid.dimensions.1))
        (Has-first n (ds ++ (c ++ o)) h2) in
    let e3 =
      read_dims-Has file t.name t.shape 0 1 p2 w.valid.sizes (omega (arith, w.valid.elements))
        (Has-first ds (c ++ o) h3) in
    let e4 = read_raw-Has file 4 p3 (type_code t.type) w.code (Has-first c o h4) in
    let e5 = read_raw-Has file 8 (p3 + 4) t.offset w.offset (Has-rest c o h4) in
    let c1 : (length t.shape == 0) ≡ false = ground (arith, w.valid.dimensions.0) in
    let c2 : ltb 4 (length t.shape) ≡ false = ground (arith, w.valid.dimensions.1) in
    and_then-done (read_string file pos) _ t.name p1 e1
    ∙ and_then-done (read_raw file 4 p1) _ (length t.shape) p2 e2
    ∙ check-passed (length t.shape == 0) _ _ c1
    ∙ check-passed (ltb 4 (length t.shape)) _ _ c2
    ∙ and_then-done (read_dims file t.name (length t.shape) 0 1 p2) _ _ p3 e3
    ∙ and_then-done (read_raw file 4 p3) _ (type_code t.type) (p3 + 4) e4
    ∙ and_then-done (read_raw file 8 (p3 + 4)) _ t.offset (p3 + 4 + 8) e5
    ∙ last
  where
    last :
        described t.name t.shape
          (ggml_type (type_code t.type))
          t.offset
          (tensor_bytes (ggml_type (type_code t.type)) (1 * product t.shape))
          (pos + length (write_string t.name) + 4 + length (write_dims t.shape) + 4 + 8)
        ≡ got t (pos + length (write_tensor t))
    last =
        let one : 1 * product t.shape ≡ product t.shape = omega arith in
        let bytes : tensor_bytes t.type (1 * product t.shape) ≡ some t.n_bytes =
          rw one w.valid.bytes in
        rw (w.type, bytes) (ap (λ (p : ℕ). got t p) (omega (arith, length-tensor t)))

parse_tensors-Has :
    (file : Bytes) (pos : ℕ) (ts : List TensorDesc)
    → All Writable ts
    → Has file pos (write_tensors ts)
    → parse_tensors file (length ts) pos ≡ got ts (pos + length (write_tensors ts))
unfolding parse_tensors
parse_tensors-Has file pos [] w h = ap (λ (p : ℕ). got [] p) (omega arith)
parse_tensors-Has file pos (t ∷ ts) (w, ws) h =
    let e = read_tensor-Has file pos t w (Has-first (write_tensor t) (write_tensors ts) h) in
    let q = pos + length (write_tensor t) in
    let ih = parse_tensors-Has file q ts ws (Has-rest (write_tensor t) (write_tensors ts) h) in
    and_then-done (read_tensor file pos) _ t q e
    ∙ and_then-done (parse_tensors file (length ts) q) (λ ds p. got (t ∷ ds) p) ts
        (q + length (write_tensors ts)) ih
    ∙ ap (λ (p : ℕ). got (t ∷ ts) p)
        (omega (arith, length-append (write_tensor t) (write_tensors ts)))

-- Take any tensor descriptors that are valid, whose names are at most 1 MiB and whose offsets fit 64
-- bits, written one after another anywhere in a file. Parsing as many descriptors from there returns
-- exactly these, with their sizes, and the position after them.
pub parse_tensors-write :
    (before after : Bytes) (ts : List TensorDesc)
    → All Writable ts
    → parse_tensors (before ++ (write_tensors ts ++ after)) (length ts) (length before)
      ≡ got ts (length before + length (write_tensors ts))
parse_tensors-write before after ts w =
    parse_tensors-Has (before ++ (write_tensors ts ++ after)) (length before) ts w
      (record { before = before; after = after; whole = refl; place = refl })
