-- ===== src/Gguf/Ends.antt =====
-- src/hydroxl/GGUFLoader.cpp: parsing ends on every file.
pub mod Parts
use hetero_accel.Base.{
  ℕ, zero, suc, ◌+◌, ◌-◌, ◌*◌, ◌/◌, ◌%◌, ◌^◌, ◌≤◌, ◌<◌, min, max, ◌≡◌, refl, sym, ap, ◌∙◌, subst,
  ◌≢◌, ◌⊎◌, inl, inr, Bool, true, false, not, ◌&&◌, ◌||◌, Option, none, some, List, [], ◌∷◌, ◌++◌,
  map, arith, ltb, leb, ◌==◌, if◌then◌else◌, is_some, one_if, ==→≡, ==_self, Bool-cases,
  Option-cases, length, All, length-append, take, take-take, drop, length-take, drop-append,
  take-append, append_assoc, length-drop, u64_mod, u32_mod, add64, mul64,
}
use hetero_accel.Base.Map.{
  Map, lookup, put, erase, Distinct, Each, total, lookup-put, lookup-erase, put-Distinct,
  erase-Distinct, total-put_old, total-put_new, total-erase, length-erase, total-get,
  total-le-length, Each-map, Each-lookup, Each-put, Each-erase,
}
use hetero_accel.Gguf.Types.{
  Bytes, ValueType, uint8, int8, uint16, int16, uint32, int32, float32, bool, string, array, uint64,
  int64, float64, unknown_value, value_type, Value, LoadError,
}
use hetero_accel.Gguf.Stream.{Read, stuck, fail, got, and_then, read_at, le, read_raw, read_string}
use hetero_accel.Gguf.Values.{
  read_words, read_strings, read_nested, skip_elements, skipped, read_elements, read_array,
}

-- A part of the parser that is not stuck, and does not go back.
abbrev pub After {ℓ} : {A : Type ℓ} → ℕ → Read A → Type 0
After pos stuck = ⊥
After pos (fail e) = Unit
After pos (got v p) = pos ≤ p

pub and_then-After {ℓ κ} :
    {A : Type ℓ} {B : Type κ} (pos : ℕ) (r : Read A) (f : A → ℕ → Read B)
    → After pos r
    → ((v : A) (p : ℕ) → r ≡ got v p → pos ≤ p → After p (f v p))
    → After pos (and_then r f)
and_then-After pos stuck f h k = elim h [ ]
and_then-After pos (fail e) f h k = tt
and_then-After {B} pos (got v p) f h k = later (f v p) (k v p refl h)
  where
    later : (r : Read B) → After p r → After pos r
    later stuck a = elim a [ ]
    later (fail e) a = tt
    later (got w q) a = omega (arith, a, h)

pub read_raw-After : (file : Bytes) (size pos : ℕ) → After pos (read_raw file size pos)
unfolding read_raw
read_raw-After file size pos = elim (Option-cases (read_at file pos size)) [
  | inl nothing ↦
      let e : read_raw file size pos ≡ fail (LoadError.unexpected_eof size) =
        ground (arith, nothing) in
      rw e tt
  | inr (bs, there) ↦
      let e : read_raw file size pos ≡ got (le bs) (pos + size) = ground (arith, there) in
      rw e (omega arith)
]

-- What was read lies in the file.
pub read_raw-inside :
    (file : Bytes) (size pos v p : ℕ)
    → 0 < size
    → read_raw file size pos ≡ got v p
    → (p ≡ pos + size) × (p ≤ length file)
unfolding read_raw
read_raw-inside file size pos v p h e = ground (arith, h, e)

pub read_string-After : (file : Bytes) (pos : ℕ) → After pos (read_string file pos)
unfolding read_string
read_string-After file pos =
    and_then-After pos (read_raw file 8 pos) _ (read_raw-After file 8 pos)
      (λ len p e le. ground arith)

read_words-After : (file : Bytes) (raw count pos : ℕ) → After pos (read_words file raw count pos)
unfolding read_words
read_words-After file raw count pos = ground (arith)

read_strings-After : (file : Bytes) (count pos : ℕ) → After pos (read_strings file count pos)
unfolding read_strings
read_strings-After file zero pos = omega arith
read_strings-After file (suc n) pos =
    and_then-After pos (read_string file pos) _ (read_string-After file pos) (λ s p e le.
      and_then-After p (read_strings file n p) _ (read_strings-After file n p)
        (λ ss q e' le'. omega arith))

read_nested-After :
    (visit : ℕ → Read Value) (bound count pos : ℕ)
    → ((p : ℕ) → bound ≤ p → After p (visit p))
    → bound ≤ pos
    → After pos (read_nested visit count pos)
unfolding read_nested
read_nested-After visit bound zero pos h le = omega arith
read_nested-After visit bound (suc n) pos h le =
    and_then-After pos (visit pos) _ (h pos le)
      (λ v p e le'. read_nested-After visit bound n p h (omega (arith, le, le')))

pub if-After :
    {A : Type 0} (pos : ℕ) (b : Bool) (r s : Read A)
    → (b ≡ true → After pos r)
    → (b ≡ false → After pos s)
    → After pos (if b then r else s)
if-After pos true r s h k = h refl
if-After pos false r s h k = k refl

skip_elements-After :
    (raw size count pos : ℕ)
    → count * size ≤ 2 ^ 27
    → pos < 2 ^ 63
    → After pos (skip_elements raw size count pos)
unfolding skip_elements
skip_elements-After raw size count pos c p =
    let target = add64 pos (mul64 count size) in
    if-After pos (count == 0) (got skipped pos)
      (if ltb target (2 ^ 63) then got skipped target else fail (LoadError.eof_skipping raw))
      (λ _. omega arith)
      (λ _.
        if-After pos (ltb target (2 ^ 63)) (got skipped target) (fail (LoadError.eof_skipping raw))
          (λ _. omega (arith, c, p)) (λ _. tt))

pub map-After :
    {A B : Type 0} (pos : ℕ) (r : Read A) (f : A → B)
    → After pos r
    → After pos (and_then r (λ v p. got (f v) p))
map-After pos r f h = and_then-After pos r _ h (λ v p e le. omega arith)

read_elements-After :
    (visit : ℕ → Read Value) (file : Bytes) (raw count pos : ℕ)
    → count ≤ 2 ^ 24
    → pos < 2 ^ 63
    → ((p : ℕ) → pos ≤ p → After p (visit p))
    → After pos (read_elements visit file raw count pos)
unfolding read_elements
read_elements-After visit file raw count pos c small h = go (value_type raw)
  where
    words-After :
        (f : List ℕ → Value)
        → After pos (and_then (read_words file raw count pos) (λ v p. got (f v) p))
    words-After f =
        map-After pos (read_words file raw count pos) f (read_words-After file raw count pos)

    go :
        (t : ValueType)
        → After pos (elim t as (λ x. Read Value) [
          | uint32 ↦ and_then (read_words file raw count pos) (λ v p. got (Value.of_uint32s v) p)
          | int32 ↦ and_then (read_words file raw count pos) (λ v p. got (Value.of_int32s v) p)
          | float32 ↦ and_then (read_words file raw count pos) (λ v p. got (Value.of_floats v) p)
          | string ↦ and_then (read_strings file count pos) (λ v p. got (Value.of_strings v) p)
          | uint8 ↦ skip_elements raw 1 count pos
          | int8 ↦ skip_elements raw 1 count pos
          | bool ↦ skip_elements raw 1 count pos
          | uint16 ↦ skip_elements raw 2 count pos
          | int16 ↦ skip_elements raw 2 count pos
          | uint64 ↦ skip_elements raw 8 count pos
          | int64 ↦ skip_elements raw 8 count pos
          | float64 ↦ skip_elements raw 8 count pos
          | array ↦ read_nested visit count pos
          | unknown_value n ↦ fail (LoadError.unknown_element n)
        ])
    go uint32 = words-After Value.of_uint32s
    go int32 = words-After Value.of_int32s
    go float32 = words-After Value.of_floats
    go string =
        map-After pos (read_strings file count pos) Value.of_strings
          (read_strings-After file count pos)
    go uint8 = skip_elements-After raw 1 count pos (omega (arith, c)) small
    go int8 = skip_elements-After raw 1 count pos (omega (arith, c)) small
    go bool = skip_elements-After raw 1 count pos (omega (arith, c)) small
    go uint16 = skip_elements-After raw 2 count pos (omega (arith, c)) small
    go int16 = skip_elements-After raw 2 count pos (omega (arith, c)) small
    go uint64 = skip_elements-After raw 8 count pos (omega (arith, c)) small
    go int64 = skip_elements-After raw 8 count pos (omega (arith, c)) small
    go float64 = skip_elements-After raw 8 count pos (omega (arith, c)) small
    go array = read_nested-After visit pos count pos h (omega arith)
    go (unknown_value n) = tt

-- The fuel is enough if it is more than the bytes that are left.
pub read_array-After :
    (k : ℕ) (file : Bytes) (pos : ℕ)
    → length file < 2 ^ 63
    → 0 < k
    → length file < pos + k
    → After pos (read_array k file pos)
unfolding read_array
read_array-After zero file pos small some_fuel fuel = elim some_fuel [ ]
read_array-After (suc k) file pos small some_fuel fuel =
    and_then-After pos (read_raw file 4 pos) _ (read_raw-After file 4 pos) (λ raw p e le.
      and_then-After p (read_raw file 8 p) _ (read_raw-After file 8 p) (λ count q e' le'.
        let (at, inside) = read_raw-inside file 4 pos raw p (omega arith) e in
        let (at', inside') = read_raw-inside file 8 p count q (omega arith) e' in
        if-After q (ltb (2 ^ 24) count) (fail (LoadError.array_too_long count))
          (read_elements (read_array k file) file raw count q) (λ _. tt)
          (λ few.
            read_elements-After (read_array k file) file raw count q (ground (arith, few))
              (omega (arith, inside', small))
              (λ s le''.
                read_array-After k file s small (omega (arith, fuel, at, at', inside'))
                  (omega (arith, fuel, at, at', le''))))))
