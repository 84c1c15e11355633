-- ===== src/KvCache/Rows.antt =====
-- src/hydroxl/HydroXLKVCache.cpp: a layer as rows, one for each position.
use hetero_accel.Base.{
  ℕ, zero, suc, ◌+◌, ◌-◌, ◌*◌, ◌≤◌, ◌<◌, ◌≡◌, refl, sym, ap, ◌∙◌, subst, false, List, [], ◌∷◌, ◌++◌,
  arith, ◌==◌, if◌then◌else◌, length, take, drop, length-take, drop-append, take-append,
  append_assoc, length-drop,
}
use native.Mathlib.Nat.{suc-mul, zero-mul}
use Prim.Native.Nat.add
use hetero_accel.KvCache.{splice}

-- The vector at a position of a layer, of rows of `w` floats.
abbrev pub row : ℕ → ℕ → List ℕ → List ℕ
row w p xs = take w (drop (p * w) xs)

abbrev empty : List ℕ
empty = []

drop-nil : (n : ℕ) → drop n [] ≡ empty
drop-nil zero = refl
drop-nil (suc n) = refl

take-nil : (n : ℕ) → take n [] ≡ empty
take-nil zero = refl
take-nil (suc n) = refl

drop-add : (n m : ℕ) (xs : List ℕ) → drop (n + m) xs ≡ drop m (drop n xs)
drop-add zero m xs = ap (λ (k : ℕ). drop k xs) (omega arith)
drop-add (suc n) m [] = ap (λ (k : ℕ). drop k []) (add.suc n m) ∙ sym (drop-nil m)
drop-add (suc n) m (x ∷ xs) = ap (λ (k : ℕ). drop k (x ∷ xs)) (add.suc n m) ∙ drop-add n m xs

take-add : (n m : ℕ) (xs : List ℕ) → take (n + m) xs ≡ take n xs ++ take m (drop n xs)
take-add zero m xs = ap (λ (k : ℕ). take k xs) (omega arith)
take-add (suc n) m [] = ap (λ (k : ℕ). take k []) (add.suc n m) ∙ sym (take-nil m)
take-add (suc n) m (x ∷ xs) =
    ap (λ (k : ℕ). take k (x ∷ xs)) (add.suc n m) ∙ ap (λ (k : List ℕ). x ∷ k) (take-add n m xs)

next_offset : (w p : ℕ) → suc p * w ≡ w + p * w
next_offset w p = omega (arith, suc-mul p w)

row-suc : (w p : ℕ) (xs : List ℕ) → row w (suc p) xs ≡ row w p (drop w xs)
row-suc w p xs =
    ap (λ (k : ℕ). take w (drop k xs)) (next_offset w p)
    ∙ ap (λ (k : List ℕ). take w k) (drop-add w (p * w) xs)

-- Writing past the first row leaves it alone.
splice-add : (w k : ℕ) (v xs : List ℕ) → splice (w + k) v xs ≡ take w xs ++ splice k v (drop w xs)
splice-add w k v xs =
    let same : w + k + length v ≡ w + (k + length v) = omega arith in
    ap (λ (m : List ℕ). m ++ (v ++ drop (w + k + length v) xs)) (take-add w k xs)
    ∙ append_assoc (take w xs) (take k (drop w xs)) (v ++ drop (w + k + length v) xs)
    ∙ ap (λ (m : ℕ). take w xs ++ (take k (drop w xs) ++ (v ++ drop m xs))) same
    ∙ ap (λ (m : List ℕ). take w xs ++ (take k (drop w xs) ++ (v ++ m)))
        (drop-add w (k + length v) xs)

take-append_exact : (w : ℕ) (xs ys : List ℕ) → length xs ≡ w → take w (xs ++ ys) ≡ xs
take-append_exact w xs ys h = subst (λ n. take n (xs ++ ys) ≡ xs) h (take-append xs ys)

drop-append_exact : (w : ℕ) (xs ys : List ℕ) → length xs ≡ w → drop w (xs ++ ys) ≡ ys
drop-append_exact w xs ys h = subst (λ n. drop n (xs ++ ys) ≡ ys) h (drop-append xs ys)

row-zero : (w : ℕ) (xs : List ℕ) → row w zero xs ≡ take w xs
row-zero w xs = ap (λ (k : ℕ). take w (drop k xs)) (zero-mul w)

splice-zero : (w : ℕ) (v xs : List ℕ) → length v ≡ w → splice (0 * w) v xs ≡ v ++ drop w xs
splice-zero w v xs h =
    ap (λ (k : ℕ). splice k v xs) (zero-mul w) ∙ ap (λ (k : ℕ). v ++ drop k xs) (omega (arith, h))

first : (w : ℕ) (v xs : List ℕ) → length v ≡ w → take w (splice (0 * w) v xs) ≡ v
first w v xs h =
    ap (λ (k : List ℕ). take w k) (splice-zero w v xs h) ∙ take-append_exact w v (drop w xs) h

after : (w : ℕ) (v xs : List ℕ) → length v ≡ w → drop w (splice (0 * w) v xs) ≡ drop w xs
after w v xs h =
    ap (λ (k : List ℕ). drop w k) (splice-zero w v xs h) ∙ drop-append_exact w v (drop w xs) h

shifted :
    (w p : ℕ) (v xs : List ℕ) → splice (suc p * w) v xs ≡ take w xs ++ splice (p * w) v (drop w xs)
shifted w p v xs = ap (λ (k : ℕ). splice k v xs) (next_offset w p) ∙ splice-add w (p * w) v xs

fewer : (w p n : ℕ) (xs : List ℕ) → length xs ≡ n * w → suc p < n → length (drop w xs) ≡ (n - 1) * w
fewer w p n xs h small =
    let one_more : suc (n - 1) ≡ n = omega (arith, small) in
    omega (arith, length-drop w xs, h, ap (λ (k : ℕ). k * w) one_more, next_offset w (n - 1))

room : (w p n : ℕ) (xs : List ℕ) → length xs ≡ n * w → suc p < n → w ≤ length xs
room w p n xs h small =
    let one_more : suc (n - 1) ≡ n = omega (arith, small) in
    omega (arith, h, ap (λ (k : ℕ). k * w) one_more, next_offset w (n - 1))

-- Writing a row changes that row and no other.
pub row-splice :
    (w p q n : ℕ) (v xs : List ℕ)
    → length v ≡ w
    → length xs ≡ n * w
    → p < n
    → row w q (splice (p * w) v xs) ≡ (if p == q then v else row w q xs)
row-splice w zero zero n v xs vw xw pn = row-zero w (splice (0 * w) v xs) ∙ first w v xs vw
row-splice w zero (suc q) n v xs vw xw pn =
    let off : (0 == suc q) ≡ false = ground arith in
    rw off (
      row-suc w q (splice (0 * w) v xs)
      ∙ ap (λ (k : List ℕ). row w q k) (after w v xs vw)
      ∙ sym (row-suc w q xs))
row-splice w (suc p) zero n v xs vw xw pn =
    let off : (suc p == 0) ≡ false = ground arith in
    rw off (
      row-zero w (splice (suc p * w) v xs)
      ∙ ap (λ (k : List ℕ). take w k) (shifted w p v xs)
      ∙ take-append_exact w (take w xs) (splice (p * w) v (drop w xs))
          (length-take w xs (room w p n xs xw pn))
      ∙ sym (row-zero w xs))
row-splice w (suc p) (suc q) n v xs vw xw pn =
    row-suc w q (splice (suc p * w) v xs)
    ∙ ap (λ (k : List ℕ). row w q (drop w k)) (shifted w p v xs)
    ∙ ap (λ (k : List ℕ). row w q k)
        (drop-append_exact w (take w xs) (splice (p * w) v (drop w xs))
          (length-take w xs (room w p n xs xw pn)))
    ∙ row-splice w p q (n - 1) v (drop w xs) vw (fewer w p n xs xw pn) (omega (arith, pn))
    ∙ same_test (row-suc w q xs)
  where
    same_test :
        {a b : List ℕ} → a ≡ b → (if p == q then v else b) ≡ (if suc p == suc q then v else a)
    same_test e = ground (arith, e)
