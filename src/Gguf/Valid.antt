-- ===== src/Gguf/Valid.antt =====
-- src/hydroxl/GGUFLoader.cpp: what `open` has checked of the loader that it returns.
use hetero_accel.Base.{
  ℕ, zero, suc, ◌+◌, ◌-◌, ◌*◌, ◌/◌, ◌%◌, ◌^◌, ◌≤◌, ◌<◌, min, max, ◌≡◌, refl, sym, ap, ◌∙◌, subst,
  ◌≢◌, ◌⊎◌, inl, inr, Bool, true, false, not, ◌&&◌, ◌||◌, Option, none, some, List, [], ◌∷◌, ◌++◌,
  map, arith, ltb, leb, ◌==◌, if◌then◌else◌, is_some, one_if, ==→≡, ==_self, Bool-cases,
  Option-cases, length, All, length-append, take, take-take, drop, length-take, drop-append,
  take-append, append_assoc, length-drop, u64_mod, u32_mod, add64, mul64,
}
use hetero_accel.Base.Map.{
  Map, lookup, put, erase, Distinct, Each, total, lookup-put, lookup-erase, put-Distinct,
  erase-Distinct, total-put_old, total-put_new, total-erase, length-erase, total-get,
  total-le-length, Each-map, Each-lookup, Each-put, Each-erase,
}
pub mod Opens
pub mod Slices
pub mod Blocks
use native.Mathlib.Nat.{mul_assoc, div-mul-le_self, mul-le-mul_right, mod-add-div'}
use hetero_accel.Gguf.{
  Header, Loader, parse_header, place_data, open_file, padding, alignment, loader_at,
}
use hetero_accel.Gguf.Types.{Bytes, GgmlType, ggml_type, Value, TensorDesc, LoadError}
use hetero_accel.Gguf.Stream.{Read, stuck, fail, got, and_then, read_at, read_raw, read_string}
use hetero_accel.Gguf.Values.{parse_kv, Pairs}
use hetero_accel.Gguf.Tensors.{u64_max, tensor_bytes, read_dims, read_tensor, parse_tensors}

abbrev pub product : List ℕ → ℕ
product [] = 1
product (x ∷ xs) = x * product xs

-- A descriptor that the loader accepts: one to four dimensions from 1 to 2^32, a number of elements
-- that fits 64 bits, and the size on disk that the type gives.
pub record ValidTensor (d : TensorDesc) : Type 0 where
  pub dimensions : (0 < length d.shape) × (length d.shape ≤ 4)
  pub sizes : All (λ n. (0 < n) × (n ≤ 2 ^ 32)) d.shape
  pub elements : product d.shape < u64_mod
  pub bytes : tensor_bytes d.type (product d.shape) ≡ some d.n_bytes

-- A loader after a successful `open` of a file.
pub record Opened (file : Bytes) (l : Loader) : Type 0 where
  pub contents : l.file ≡ file
  pub open_now : l.is_open ≡ true
  pub size : l.file_size ≡ length file
  pub version : (2 ≤ l.version) × (l.version ≤ 3)
  pub counts : (l.n_tensors ≤ 65536) × (l.n_kv ≤ 65536)
  pub all_tensors : length l.tensors ≡ l.n_tensors
  pub valid : All ValidTensor l.tensors
  pub small : l.data_offset < u64_mod
  pub aligned : (q : ℕ) × (l.data_offset ≡ q * alignment l.kv)
  pub reachable : 0 < l.n_tensors → l.data_offset < l.file_size

-- If two parts give a value, so did the first.
pub and_then-got {ℓ κ} :
    {A : Type ℓ} {B : Type κ} (r : Read A) (f : A → ℕ → Read B) (b : B) (q : ℕ)
    → and_then r f ≡ got b q
    → (a : A) × (p : ℕ) × (r ≡ got a p) × (f a p ≡ got b q)
and_then-got stuck f b q e = cc
and_then-got (fail x) f b q e = cc
and_then-got (got a p) f b q e = (a, p, refl, e)

-- If a check and what follows it give a value, the check was passed.
pub check-got {ℓ} :
    {A : Type ℓ} (b : Bool) (x : LoadError) (r : Read A) (a : A) (q : ℕ)
    → (if b then fail x else r) ≡ got a q
    → (b ≡ false) × (r ≡ got a q)
check-got true x r a q e = cc
check-got false x r a q e = (refl, e)

pub got-value {ℓ} : {A : Type ℓ} {a b : A} {p q : ℕ} → got a p ≡ got b q → a ≡ b
got-value e = cc

-- The dimensions that the loop accepts, after the elements so far.
record ValidDims (n elems : ℕ) (shape : List ℕ) (count : ℕ) : Type 0 where
  dimensions : length shape ≡ n
  sizes : All (λ n. (0 < n) × (n ≤ 2 ^ 32)) shape
  product_of : count ≡ elems * product shape
  fits : count < u64_mod

room : (elems dim : ℕ) → elems ≤ u64_max / dim → elems * dim < u64_mod
room elems dim h =
    let a = mul-le-mul_right dim h in let b = div-mul-le_self u64_max dim in omega (arith, a, b)

read_dims-Valid :
    (file name : Bytes) (n d elems pos : ℕ) (r : List ℕ × ℕ) (p : ℕ)
    → elems < u64_mod
    → read_dims file name n d elems pos ≡ got r p
    → ValidDims n elems r.0 r.1
unfolding read_dims
read_dims-Valid file name zero d elems pos r p small e =
    let k = got-value e in
    subst (λ (r : List ℕ × ℕ). ValidDims 0 elems r.0 r.1) k
      (record { dimensions = refl; sizes = tt; product_of = omega arith; fits = small })
read_dims-Valid file name (suc n) d elems pos r p small e =
    let (dim, q, e1, f1) = and_then-got (read_raw file 8 pos) _ r p e in
    let (c1, f2) = check-got (dim == 0) _ _ r p f1 in
    let (c2, f3) = check-got (ltb (2 ^ 32) dim) _ _ r p f2 in
    let (c3, f4) = check-got (ltb (u64_max / dim) elems) _ _ r p f3 in
    let (rest, s, e2, f5) = and_then-got (read_dims file name n (d + 1) (elems * dim) q) _ r p f4 in
    let below = room elems dim (ground (arith, c3)) in
    let v = read_dims-Valid file name n (d + 1) (elems * dim) q rest s below e2 in
    subst (λ (r : List ℕ × ℕ). ValidDims (suc n) elems r.0 r.1) (got-value f5)
      (record {
        dimensions = ap suc v.dimensions;
        sizes = ((ground (arith, c1), ground (arith, c2)), v.sizes);
        product_of = v.product_of ∙ mul_assoc elems dim (product rest.0);
        fits = v.fits;
      })

read_tensor-Valid :
    (file : Bytes) (pos : ℕ) (t : TensorDesc) (p : ℕ)
    → read_tensor file pos ≡ got t p
    → ValidTensor t
unfolding read_tensor
read_tensor-Valid file pos t p e =
    let (name, p1, e1, f1) = and_then-got (read_string file pos) _ t p e in
    let (n, p2, e2, f2) = and_then-got (read_raw file 4 p1) _ t p f1 in
    let (c1, f3) = check-got (n == 0) _ _ t p f2 in
    let (c2, f4) = check-got (ltb 4 n) _ _ t p f3 in
    let (r, p3, e3, f5) = and_then-got (read_dims file name n 0 1 p2) _ t p f4 in
    let (code, p4, e4, f6) = and_then-got (read_raw file 4 p3) _ t p f5 in
    let (offset, p5, e5, f7) = and_then-got (read_raw file 8 p4) _ t p f6 in
    let v = read_dims-Valid file name n 0 1 p2 r p3 (omega arith) e3 in
    let one : product r.0 ≡ r.1 = omega (arith, v.product_of) in
    elim (Option-cases (tensor_bytes (ggml_type code) r.1)) [
      | inl nothing ↦ ground (arith, f7, nothing)
      | inr (bytes, there) ↦
          let k : record {
            name = name;
            type = ggml_type code;
            shape = r.0;
            offset = offset;
            n_bytes = bytes;
          }
              ≡ t =
            ground (arith, f7, there) in
          subst ValidTensor k (record {
            dimensions = (ground (arith, c1, v.dimensions), ground (arith, c2, v.dimensions));
            sizes = v.sizes;
            elements = omega (arith, one, v.fits);
            bytes = rw one there;
          })
    ]

parse_tensors-Valid :
    (file : Bytes) (n pos : ℕ) (ts : List TensorDesc) (p : ℕ)
    → parse_tensors file n pos ≡ got ts p
    → (length ts ≡ n) × All ValidTensor ts
unfolding parse_tensors
parse_tensors-Valid file zero pos ts p e =
    subst (λ (ts : List TensorDesc). (length ts ≡ 0) × All ValidTensor ts) (got-value e) (refl, tt)
parse_tensors-Valid file (suc n) pos ts p e =
    let (t, q, e1, f1) = and_then-got (read_tensor file pos) _ ts p e in
    let (rest, s, e2, f2) = and_then-got (parse_tensors file n q) _ ts p f1 in
    let (l, v) = parse_tensors-Valid file n q rest s e2 in
    subst (λ (ts : List TensorDesc). (length ts ≡ suc n) × All ValidTensor ts) (got-value f2)
      (ap suc l, (read_tensor-Valid file pos t q e1, v))
