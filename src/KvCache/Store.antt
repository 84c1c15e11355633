-- ===== src/KvCache/Store.antt =====
-- src/hydroxl/HydroXLKVCache.cpp: writing one row of one layer.
use hetero_accel.Base.{
  ℕ, zero, suc, ◌+◌, ◌*◌, ◌≤◌, ◌<◌, ◌≡◌, refl, ap, ◌∙◌, subst, inl, inr, false, ◌&&◌, List, [], ◌∷◌,
  ◌++◌, arith, ◌==◌, if◌then◌else◌, ==→≡, Bool-cases, length, All, length-append, take, drop,
  length-take, length-drop,
}
use hetero_accel.KvCache.{splice, set_nth, layer_of}
use hetero_accel.KvCache.Rows.{row, row-splice}

layer_of-set_nth :
    (layer l : ℕ) (a : List ℕ) (xss : List (List ℕ))
    → layer < length xss
    → layer_of l (set_nth layer a xss) ≡ (if layer == l then a else layer_of l xss)
layer_of-set_nth layer l a [] h = elim h [ ]
layer_of-set_nth zero zero a (xs ∷ xss) h = refl
layer_of-set_nth zero (suc l) a (xs ∷ xss) h =
    let off : (0 == suc l) ≡ false = ground arith in rw off refl
layer_of-set_nth (suc layer) zero a (xs ∷ xss) h =
    let off : (suc layer == 0) ≡ false = ground arith in rw off refl
layer_of-set_nth (suc layer) (suc l) a (xs ∷ xss) h =
    let ih = layer_of-set_nth layer l a xss (omega (arith, h)) in ground (arith, ih)

pub All-layer_of :
    (P : List ℕ → Type 0) (l : ℕ) (xss : List (List ℕ))
    → l < length xss
    → All P xss
    → P (layer_of l xss)
All-layer_of P l [] h a = elim h [ ]
All-layer_of P zero (xs ∷ xss) h a = a.0
All-layer_of P (suc l) (xs ∷ xss) h a = All-layer_of P l xss (omega (arith, h)) a.1

All-set_nth :
    (P : List ℕ → Type 0) (l : ℕ) (a : List ℕ) (xss : List (List ℕ))
    → P a
    → All P xss
    → All P (set_nth l a xss)
All-set_nth P l a [] p h = tt
All-set_nth P zero a (xs ∷ xss) p h = (p, h.1)
All-set_nth P (suc l) a (xs ∷ xss) p h = (h.0, All-set_nth P l a xss p h.1)

length-set_nth : (l : ℕ) (a : List ℕ) (xss : List (List ℕ)) → length (set_nth l a xss) ≡ length xss
length-set_nth l a [] = refl
length-set_nth zero a (xs ∷ xss) = refl
length-set_nth (suc l) a (xs ∷ xss) = ap suc (length-set_nth l a xss)

length-splice :
    (at : ℕ) (v xs : List ℕ) → at + length v ≤ length xs → length (splice at v xs) ≡ length xs
length-splice at v xs h = omega (
  arith,
  h,
  length-append (take at xs) (v ++ drop (at + length v) xs),
  length-append v (drop (at + length v) xs),
  length-drop (at + length v) xs,
  length-take at xs (omega (arith, h)),
)

-- Layers of `m` rows of `w` floats.
pub record Layers (n m w : ℕ) (xss : List (List ℕ)) : Type 0 where
  pub count : length xss ≡ n
  pub sizes : All (λ xs. length xs ≡ m * w) xss

module _ (n m w layer pos : ℕ) (v : List ℕ) (xss : List (List ℕ)) (h : Layers n m w xss)
    (on : layer < n) (below : pos < m) (wide : length v ≡ w) (inside : pos * w + w ≤ m * w) where
  this : length (layer_of layer xss) ≡ m * w
  this = All-layer_of (λ xs. length xs ≡ m * w) layer xss (omega (arith, h.count, on)) h.sizes

  pub store-Layers : Layers n m w (set_nth layer (splice (pos * w) v (layer_of layer xss)) xss)
  store-Layers = record {
    count = length-set_nth layer (splice (pos * w) v (layer_of layer xss)) xss ∙ h.count;
    sizes =
        All-set_nth (λ xs. length xs ≡ m * w) layer (splice (pos * w) v (layer_of layer xss)) xss
          (length-splice (pos * w) v (layer_of layer xss) (omega (arith, this, wide, inside))
            ∙ this)
          h.sizes;
  }

  pub store-row :
      (l p : ℕ)
      → row w p (layer_of l (set_nth layer (splice (pos * w) v (layer_of layer xss)) xss))
        ≡ (if (layer == l) && (pos == p) then v else row w p (layer_of l xss))
  store-row l p =
      let e =
        layer_of-set_nth layer l (splice (pos * w) v (layer_of layer xss)) xss
          (omega (arith, h.count, on)) in
      let f = row-splice w pos p m v (layer_of layer xss) wide this below in
      elim (Bool-cases (layer == l)) [
        | inr other ↦ ap (λ (xs : List ℕ). row w p xs) e ∙ rw other refl
        | inl same ↦
            let k : layer ≡ l = ==→≡ layer l same in
            ap (λ (xs : List ℕ). row w p xs) e
            ∙ rw same (
                f
                ∙ subst
                    (λ i.
                      (if pos == p then v else row w p (layer_of layer xss))
                      ≡ (if pos == p then v else row w p (layer_of i xss)))
                    k refl)
      ]
