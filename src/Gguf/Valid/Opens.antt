-- ===== src/Gguf/Valid/Opens.antt =====
-- src/hydroxl/GGUFLoader.cpp: `open` returns a loader that it has checked.
use hetero_accel.Base.{
  ℕ, ◌+◌, ◌-◌, ◌*◌, ◌/◌, ◌%◌, ◌≤◌, ◌<◌, ◌≡◌, refl, ap, ◌∙◌, subst, inl, inr, false, not, ◌&&◌, ◌||◌,
  List, [], arith, ltb, leb, ◌==◌, ==→≡, ltb-false, or-false, Bool-cases, length, All, u64_mod,
  u32_mod, add64,
}
use native.Mathlib.Nat.{mod-add-div', mod-lt, mod_self, mod-eq_of_lt, add-mul}
use hetero_accel.Gguf.{
  Header, Loader, parse_header, place_data, open_file, padding, alignment, loader_at, kv_uint32,
}
use hetero_accel.Gguf.Types.{Bytes, TensorDesc}
use hetero_accel.Gguf.Stream.{got, read_raw}
use hetero_accel.Gguf.Values.{parse_kv, Pairs}
use hetero_accel.Gguf.Tensors.{u64_max, parse_tensors}
use hetero_accel.Gguf.Valid.{
  ValidTensor, Opened, and_then-got, check-got, got-value, parse_tensors-Valid,
}

-- Rounding up: a position and its padding make a multiple.
rounded : (a pos : ℕ) → 0 < a → (q : ℕ) × (pos + (a - pos % a) % a ≡ q * a)
rounded a pos some_a =
    let split = mod-add-div' pos a in
    let below = mod-lt pos some_a in
    elim (Bool-cases (pos % a == 0)) [
      | inl none_left ↦
          let e = ==→≡ (pos % a) 0 none_left in
          let whole : a - pos % a ≡ a = omega (arith, e) in
          let none_added : (a - pos % a) % a ≡ 0 = ap (λ (r : ℕ). r % a) whole ∙ mod_self a in
          (pos / a, omega (arith, split, e, none_added))
      | inr some_left ↦
          let less : a - pos % a < a = ground (arith, some_left, below, some_a) in
          let added = mod-eq_of_lt less in
          (pos / a + 1, omega (arith, split, below, added, add-mul (pos / a) 1 a))
    ]

add64_exact : (a b : ℕ) → b < u64_mod → ltb (u64_max - b) a ≡ false → add64 a b ≡ a + b
add64_exact a b small h = let le = ltb-false (u64_max - b) a h in omega (arith, le, small)

alignment-lt : (kv : Pairs) → alignment kv < u32_mod
unfolding kv_uint32
alignment-lt kv = ground arith

alignment-pos : (kv : Pairs) → 0 < alignment kv
alignment-pos kv = ground arith

parse_header-checked :
    (file : Bytes) (pos : ℕ) (h : Header) (p : ℕ)
    → parse_header file pos ≡ got h p
    → (2 ≤ h.version) × (h.version ≤ 3) × (h.n_tensors ≤ 65536) × (h.n_kv ≤ 65536)
unfolding parse_header
parse_header-checked file pos h p e =
    let (magic, p1, e1, f1) = and_then-got (read_raw file 4 pos) _ h p e in
    let (c1, f2) = check-got (not (magic == 1179993927)) _ _ h p f1 in
    let (version, p2, e2, f3) = and_then-got (read_raw file 4 p1) _ h p f2 in
    let (c2, f4) = check-got (ltb version 2 || ltb 3 version) _ _ h p f3 in
    let (n, p3, e3, f5) = and_then-got (read_raw file 8 p2) _ h p f4 in
    let (m, p4, e4, f6) = and_then-got (read_raw file 8 p3) _ h p f5 in
    let (c3, f7) = check-got (ltb 65536 n) _ _ h p f6 in
    let (c4, f8) = check-got (ltb 65536 m) _ _ h p f7 in
    let (low, high) = or-false (ltb version 2) (ltb 3 version) c2 in
    subst
      (λ (h : Header). (2 ≤ h.version) × (h.version ≤ 3) × (h.n_tensors ≤ 65536) × (h.n_kv ≤ 65536))
      (got-value f8)
      (
        ltb-false version 2 low,
        ltb-false 3 version high,
        ltb-false 65536 n c3,
        ltb-false 65536 m c4,
      )

place_data-Opened :
    (file : Bytes) (h : Header) (kv : Pairs) (ts : List TensorDesc) (pos : ℕ) (l : Loader) (p : ℕ)
    → (2 ≤ h.version) × (h.version ≤ 3) × (h.n_tensors ≤ 65536) × (h.n_kv ≤ 65536)
    → (length ts ≡ h.n_tensors) × All ValidTensor ts
    → place_data file h kv ts pos ≡ got l p
    → Opened file l
unfolding place_data
place_data-Opened file h kv ts pos l p (v2, v3, c, c') (len, valid) e =
    let m = loader_at file h kv ts pos in
    let (c1, f1) = check-got (ltb (u64_max - padding kv pos) pos) _ _ l p e in
    let (c2, f2) = check-got (ltb 0 h.n_tensors && leb (length file) m.data_offset) _ _ l p f1 in
    let a = alignment kv in
    let some_a = alignment-pos kv in
    let (q, multiple) = rounded a pos some_a in
    let pad_small = mod-lt (a - pos % a) some_a in
    let exact : add64 pos (padding kv pos) ≡ pos + padding kv pos =
      add64_exact pos (padding kv pos) (omega (arith, pad_small, alignment-lt kv)) c1 in
    subst (Opened file) (got-value f2) (record {
      contents = refl;
      open_now = refl;
      size = refl;
      version = (v2, v3);
      counts = (c, c');
      all_tensors = len;
      valid = valid;
      small = omega arith;
      aligned = (q, exact ∙ multiple);
      reachable = λ some. ground (arith, some, c2);
    })

-- If open accepts a file, the loader that it returns holds that file, its version is 2 or 3, and it
-- declares at most 65536 tensors and as many pairs. It has a descriptor for each declared tensor,
-- each with one to four dimensions from 1 to 2^32, fewer than 2^64 elements and the size on disk that
-- its type gives. The data section starts at a multiple of the alignment, below 2^64, and if there
-- are tensors it starts inside the file.
pub open_file-Opened :
    (file : Bytes) (l : Loader) (p : ℕ) → open_file file ≡ got l p → Opened file l
unfolding open_file
open_file-Opened file l p e =
    let (c1, f1) = check-got (ltb (length file) 12) _ _ l p e in
    let (h, p1, e1, f2) = and_then-got (parse_header file 0) _ l p f1 in
    let (kv, p2, e2, f3) = and_then-got (parse_kv file h.n_kv [] p1) _ l p f2 in
    let (ts, p3, e3, f4) = and_then-got (parse_tensors file h.n_tensors p2) _ l p f3 in
    place_data-Opened file h kv ts p3 l p (parse_header-checked file 0 h p1 e1)
      (parse_tensors-Valid file h.n_tensors p2 ts p3 e3) f4
