-- ===== src/Base/Map.antt =====
-- `std::unordered_map<uint64_t, V>` and `std::map<uint64_t, V>` as association lists in the
-- order of iteration. `put` overwrites in place and appends a new key at the end.
use mathlib.Core.List.{List, [], ◌∷◌}
use mathlib.Core.Option.{Option, none, some}
use mathlib.Core.Path.{◌≡◌, refl}
use Prim.Native.Nat.{ℕ, suc, ◌+◌, ◌≤◌}
use native.Mathlib.Omega.{arith}
use hetero_accel.Base.Tests.{if◌then◌else◌, ◌==◌, ==→≡}
use hetero_accel.Base.Lists.{length}

abbrev pub Map {ℓ} : Type ℓ → Type ℓ
Map V = List (ℕ × V)

module _ {ℓ} {V : Type ℓ} where
  unfoldable pub lookup : ℕ → Map V → Option V
  lookup k [] = none
  lookup k ((j, v) ∷ m) = if j == k then some v else lookup k m

  unfoldable pub put : ℕ → V → Map V → Map V
  put k v [] = (k, v) ∷ []
  put k v ((j, w) ∷ m) = if j == k then (j, v) ∷ m else (j, w) ∷ put k v m

  unfoldable pub erase : ℕ → Map V → Map V
  erase k [] = []
  erase k ((j, w) ∷ m) = if j == k then m else (j, w) ∷ erase k m

  -- No key stands twice.
  abbrev pub Distinct : Map V → Type ℓ
  Distinct [] = Unit
  Distinct ((k, v) ∷ m) = (lookup k m ≡ none) × Distinct m

  -- Every entry satisfies a predicate on its key and its value.
  abbrev pub Each {κ} : (ℕ → V → Type κ) → Map V → Type κ
  Each P [] = Unit
  Each P ((k, v) ∷ m) = P k v × Each P m

  -- The sum of a measure over the values.
  unfoldable pub total : (V → ℕ) → Map V → ℕ
  total f [] = 0
  total f ((k, v) ∷ m) = f v + total f m

  pub lookup-put :
      (k j : ℕ) (v : V) (m : Map V) → lookup j (put k v m) ≡ (if k == j then some v else lookup j m)
  unfolding lookup put
  lookup-put k j v [] = ground arith
  lookup-put k j v ((i, w) ∷ m) = ground (arith, lookup-put k j v m)

  pub lookup-erase :
      (k j : ℕ) (m : Map V)
      → Distinct m
      → lookup j (erase k m) ≡ (if k == j then none else lookup j m)
  unfolding lookup erase
  lookup-erase k j [] d = ground arith
  lookup-erase k j ((i, w) ∷ m) d = ground (arith, lookup-erase k j m d.1)

  pub put-Distinct : (k : ℕ) (v : V) (m : Map V) → Distinct m → Distinct (put k v m)
  unfolding put lookup
  put-Distinct k v [] d = (refl, tt)
  put-Distinct k v ((i, w) ∷ m) d = ground (arith, put-Distinct k v m d.1, lookup-put k i v m)

  pub erase-Distinct : (k : ℕ) (m : Map V) → Distinct m → Distinct (erase k m)
  unfolding erase
  erase-Distinct k [] d = tt
  erase-Distinct k ((i, w) ∷ m) d = ground (arith, erase-Distinct k m d.1, lookup-erase k i m d.1)

  pub total-put_old :
      (f : V → ℕ) (k : ℕ) (v w : V) (m : Map V)
      → lookup k m ≡ some w
      → total f (put k v m) + f w ≡ total f m + f v
  unfolding lookup put total
  total-put_old f k v w [] h = ground arith
  total-put_old f k v w ((i, x) ∷ m) h = ground (arith, total-put_old f k v w m)

  pub total-put_new :
      (f : V → ℕ) (k : ℕ) (v : V) (m : Map V)
      → lookup k m ≡ none
      → total f (put k v m) ≡ total f m + f v
  unfolding lookup put total
  total-put_new f k v [] h = omega arith
  total-put_new f k v ((i, x) ∷ m) h = ground (arith, total-put_new f k v m)

  pub total-erase :
      (f : V → ℕ) (k : ℕ) (w : V) (m : Map V)
      → lookup k m ≡ some w
      → total f (erase k m) + f w ≡ total f m
  unfolding lookup erase total
  total-erase f k w [] h = ground arith
  total-erase f k w ((i, x) ∷ m) h = ground (arith, total-erase f k w m)

  pub length-erase :
      (k : ℕ) (w : V) (m : Map V) → lookup k m ≡ some w → suc (length (erase k m)) ≡ length m
  unfolding lookup erase
  length-erase k w [] h = ground arith
  length-erase k w ((i, x) ∷ m) h = ground (arith, length-erase k w m)

  pub total-get : (f : V → ℕ) (k : ℕ) (w : V) (m : Map V) → lookup k m ≡ some w → f w ≤ total f m
  unfolding lookup total
  total-get f k w [] h = ground arith
  total-get f k w ((i, x) ∷ m) h = ground (arith, total-get f k w m)

  module _ {κ} (P : ℕ → V → Type κ) where
    pub Each-lookup : (k : ℕ) (v : V) (m : Map V) → Each P m → lookup k m ≡ some v → P k v
    unfolding lookup
    Each-lookup k v [] e h = ground arith
    Each-lookup k v ((i, w) ∷ m) e h = ground (arith, Each-lookup k v m e.1, ==→≡ i k)

    pub Each-put : (k : ℕ) (v : V) (m : Map V) → Each P m → P k v → Each P (put k v m)
    unfolding put
    Each-put k v [] e p = (p, tt)
    Each-put k v ((i, w) ∷ m) e p = ground (arith, Each-put k v m e.1, ==→≡ i k)

    pub Each-erase : (k : ℕ) (m : Map V) → Each P m → Each P (erase k m)
    unfolding erase
    Each-erase k [] e = tt
    Each-erase k ((i, w) ∷ m) e = ground (arith, Each-erase k m e.1)

  pub Each-map {κ μ} :
      (P : ℕ → V → Type κ) (Q : ℕ → V → Type μ)
      → ((k : ℕ) (v : V) → P k v → Q k v)
      → (m : Map V) → Each P m
      → Each Q m
  Each-map P Q f [] e = tt
  Each-map P Q f ((k, v) ∷ m) e = (f k v e.0, Each-map P Q f m e.1)

  pub total-le-length : (f : V → ℕ) → ((v : V) → f v ≤ 1) → (m : Map V) → total f m ≤ length m
  unfolding total
  total-le-length f small [] = omega arith
  total-le-length f small ((k, v) ∷ m) = omega (arith, small v, total-le-length f small m)
