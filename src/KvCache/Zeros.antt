-- ===== src/KvCache/Zeros.antt =====
-- src/hydroxl/HydroXLKVCache.cpp: layers of zeros, after `allocate` and `reset`.
use hetero_accel.Base.{
  ℕ, zero, suc, ◌+◌, ◌-◌, ◌*◌, ◌≤◌, ◌<◌, ◌≡◌, refl, ap, ◌∙◌, List, [], ◌∷◌, map, arith, length, All,
  take, drop,
}
use hetero_accel.KvCache.{layer_of, zeros, replicate}
use hetero_accel.KvCache.Rows.{row}
use hetero_accel.KvCache.Store.{Layers}

map-take : (n : ℕ) (xs : List ℕ) → take n (zeros xs) ≡ zeros (take n xs)
map-take zero xs = refl
map-take (suc n) [] = refl
map-take (suc n) (x ∷ xs) = ap (λ (k : List ℕ). 0 ∷ k) (map-take n xs)

map-drop : (n : ℕ) (xs : List ℕ) → drop n (zeros xs) ≡ zeros (drop n xs)
map-drop zero xs = refl
map-drop (suc n) [] = refl
map-drop (suc n) (x ∷ xs) = map-drop n xs

pub length-map {ℓ κ} :
    {A : Type ℓ} {B : Type κ} (f : A → B) (xs : List A) → length (map f xs) ≡ length xs
length-map f [] = refl
length-map f (x ∷ xs) = ap suc (length-map f xs)

layer_of-map : (l : ℕ) (xss : List (List ℕ)) → layer_of l (map zeros xss) ≡ zeros (layer_of l xss)
layer_of-map l [] = refl
layer_of-map zero (xs ∷ xss) = refl
layer_of-map (suc l) (xs ∷ xss) = layer_of-map l xss

pub row-zeros :
    (w p l : ℕ) (xss : List (List ℕ))
    → row w p (layer_of l (map zeros xss)) ≡ zeros (row w p (layer_of l xss))
row-zeros w p l xss =
    ap (λ (xs : List ℕ). row w p xs) (layer_of-map l xss)
    ∙ ap (λ (xs : List ℕ). take w xs) (map-drop (p * w) (layer_of l xss))
    ∙ map-take w (drop (p * w) (layer_of l xss))

pub zeros-Layers :
    (n m w : ℕ) (xss : List (List ℕ)) → Layers n m w xss → Layers n m w (map zeros xss)
zeros-Layers n m w xss h = record {
  count = length-map zeros xss ∙ h.count;
  sizes = all xss h.sizes;
}
  where
    all :
        (xss : List (List ℕ))
        → All (λ xs. length xs ≡ m * w) xss
        → All (λ xs. length xs ≡ m * w) (map zeros xss)
    all [] a = tt
    all (xs ∷ xss) a = (length-map (λ (x : ℕ). 0) xs ∙ a.0, all xss a.1)

abbrev zero_row : ℕ → List ℕ
zero_row n = replicate n 0

length-replicate {ℓ} : {A : Type ℓ} (n : ℕ) (a : A) → length (replicate n a) ≡ n
length-replicate zero a = refl
length-replicate (suc n) a = ap suc (length-replicate n a)

pub replicate-Layers : (n m w : ℕ) (k : ℕ) → k ≡ m * w → Layers n m w (replicate n (zero_row k))
replicate-Layers n m w k e = record { count = length-replicate n (zero_row k); sizes = all n }
  where
    all : (n : ℕ) → All (λ xs. length xs ≡ m * w) (replicate n (zero_row k))
    all zero = tt
    all (suc n) = (length-replicate k 0 ∙ e, all n)

take-replicate : (w k : ℕ) → w ≤ k → take w (zero_row k) ≡ zero_row w
take-replicate zero k h = refl
take-replicate (suc w) zero h = elim h [ ]
take-replicate (suc w) (suc k) h =
    ap (λ (xs : List ℕ). 0 ∷ xs) (take-replicate w k (omega (arith, h)))

drop-replicate : (n k : ℕ) → drop n (zero_row k) ≡ zero_row (k - n)
drop-replicate zero k = let e : k ≡ k - 0 = omega arith in ap zero_row e
drop-replicate (suc n) zero = let e : 0 ≡ 0 - suc n = omega arith in ap zero_row e
drop-replicate (suc n) (suc k) =
    let e : k - n ≡ suc k - suc n = omega arith in drop-replicate n k ∙ ap zero_row e

layer_of-replicate : (n l : ℕ) (xs : List ℕ) → l < n → layer_of l (replicate n xs) ≡ xs
layer_of-replicate zero l xs h = elim h [ ]
layer_of-replicate (suc n) zero xs h = refl
layer_of-replicate (suc n) (suc l) xs h = layer_of-replicate n l xs (omega (arith, h))

pub row-replicate :
    (n w p l k : ℕ)
    → l < n
    → p * w + w ≤ k
    → row w p (layer_of l (replicate n (zero_row k))) ≡ zero_row w
row-replicate n w p l k h inside =
    ap (λ (xs : List ℕ). row w p xs) (layer_of-replicate n l (zero_row k) h)
    ∙ ap (λ (xs : List ℕ). take w xs) (drop-replicate (p * w) k)
    ∙ take-replicate w (k - p * w) (omega (arith, inside))
