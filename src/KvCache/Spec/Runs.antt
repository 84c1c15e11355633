-- ===== src/KvCache/Spec/Runs.antt =====
-- src/hydroxl/HydroXLKVCache.cpp: a new cache and any calls on it.
use hetero_accel.Base.{
  ℕ, ◌*◌, ◌^◌, ◌<◌, ◌≡◌, refl, sym, ap, ◌∙◌, subst, inl, inr, Bool, true, false, ◌||◌, List, [],
  ◌∷◌, arith, ltb, ◌==◌, Bool-cases, All, u64_mod, mul64,
}
use hetero_accel.KvCache.{KvCache, empty_cache, vec_len, floats_per_layer, allocate, replicate}
use hetero_accel.KvCache.Sizes.{Sized, vec_len-exact, floats_per_layer-exact, row-inside}
use hetero_accel.KvCache.Zeros.{replicate-Layers, row-replicate}
use hetero_accel.KvCache.Spec.{
  Table, Call, write, advance, restart, apply, apply_to_table, Sound, run, run_on_table,
}
use hetero_accel.KvCache.Spec.Refine.{Refines, Agree, advance-Agree, restart-Refines, write-Agree}

-- A table of zero vectors.
abbrev pub fresh_table : ℕ → ℕ → ℕ → Table
fresh_table n m w = record {
  layers = n;
  positions = m;
  width = w;
  filled = 0;
  keys = λ l p. replicate w 0;
  values = λ l p. replicate w 0;
}

allocate-Refines :
    (n a m h : ℕ) (c : KvCache)
    → a * m * h < u64_mod
    → (allocate n a m h true c).0 ≡ true
    → Refines (allocate n a m h true c).1 (fresh_table n m (a * h))
unfolding allocate
allocate-Refines n a m h c fits ok =
    let zero_size = (n == 0) || (a == 0) || (m == 0) || (h == 0) in
    let large = ltb (4 * 2 ^ 30) (mul64 (mul64 (mul64 n 2) (floats_per_layer a m h)) 4) in
    elim (Bool-cases zero_size) [
      | inl bad ↦ let k : (allocate n a m h true c).0 ≡ false = rw bad refl in ground (arith, k, ok)
      | inr good ↦ elim (Bool-cases large) [
        | inl bad ↦
            let k : (allocate n a m h true c).0 ≡ false = rw (good, bad) refl in
            ground (arith, k, ok)
        | inr small ↦ rw (good, small) (made (ground (arith, good)) (ground (arith, good)))
      ]
    ]
  where
    made :
        0 < m
        → 0 < h
        → Refines
            (record {
              n_layers = n;
              n_kv_heads = a;
              max_seq_len = m;
              head_dim = h;
              seq_len = 0;
              allocated = true;
              k_data = replicate n (replicate (floats_per_layer a m h) 0);
              v_data = replicate n (replicate (floats_per_layer a m h) 0);
            })
            (fresh_table n m (a * h))
    made some_m some_h =
        let c' : KvCache = record {
          n_layers = n;
          n_kv_heads = a;
          max_seq_len = m;
          head_dim = h;
          seq_len = 0;
          allocated = true;
          k_data = replicate n (replicate (floats_per_layer a m h) 0);
          v_data = replicate n (replicate (floats_per_layer a m h) 0);
        } in
        let s : Sized c' = record { fits = fits; some_positions = some_m; some_floats = some_h } in
        let w = vec_len-exact c' s in
        let per = floats_per_layer-exact c' s in
        let layers = replicate-Layers n m (vec_len c') (floats_per_layer a m h) per in
        let rows = λ (l p : ℕ) (hl : l < n) (hp : p < m).
          let inside = row-inside c' s p hp in
          row-replicate n (vec_len c') p l (floats_per_layer a m h) hl (omega (arith, inside, per))
          ∙ ap (λ (k : ℕ). replicate k 0) w in
        record {
          sized = s;
          allocated = refl;
          layers = refl;
          positions = refl;
          width = w;
          filled = refl;
          k_layers = layers;
          v_layers = layers;
          keys = rows;
          values = rows;
        }

apply-Agree :
    (x : Call) (c : KvCache) (t : Table)
    → Sound t.width x
    → Refines c t
    → Agree (apply x c) (apply_to_table x t)
apply-Agree (write layer pos k v) c t sound r = write-Agree layer pos k v c t sound.0 sound.1 r
apply-Agree advance c t sound r = advance-Agree c t r
apply-Agree restart c t sound r = (refl, restart-Refines c t r)

-- The width does not change.
width-apply : (x : Call) (t : Table) → (apply_to_table x t).1.width ≡ t.width
width-apply (write layer pos k v) t = ground arith
width-apply advance t = ground arith
width-apply restart t = refl

runs-Agree :
    (w : ℕ) (xs : List Call) (c : KvCache) (t : Table)
    → t.width ≡ w
    → All (Sound w) xs
    → Refines c t
    → ((run xs c).0 ≡ (run_on_table xs t).0) × Refines (run xs c).1 (run_on_table xs t).1
runs-Agree w [] c t same sound r = (refl, r)
runs-Agree w (x ∷ xs) c t same sound r =
    let (b, r') = apply-Agree x c t (subst (λ w. Sound w x) (sym same) sound.0) r in
    let (bs, r'') =
      runs-Agree w xs (apply x c).1 (apply_to_table x t).1 (width-apply x t ∙ same) sound.1 r' in
    (
      ap (λ (a : Bool). a ∷ (run xs (apply x c).1).0) b
          ∙ ap (λ (rest : List Bool). (apply_to_table x t).0 ∷ rest) bs,
      r'',
    )

-- Take a cache that allocate has made of a size whose layers fit 64 bits, and any calls of writeKV,
-- advanceSeq and reset on it, the vectors of the expected width, layers and positions arbitrary. The
-- answers are those of a plain table with one key vector and one value vector for each layer and
-- position, and afterwards the cache holds that table: a write changes the vectors of its own layer
-- and position and no others, and outside the bounds it changes nothing and answers false.
pub run-Refines :
    (n_layers n_kv_heads max_seq_len head_dim : ℕ) (calls : List Call)
    → n_kv_heads * max_seq_len * head_dim < u64_mod
    → (allocate n_layers n_kv_heads max_seq_len head_dim true empty_cache).0 ≡ true
    → All (Sound (n_kv_heads * head_dim)) calls
    → (let c = (allocate n_layers n_kv_heads max_seq_len head_dim true empty_cache).1 in
        let t = fresh_table n_layers max_seq_len (n_kv_heads * head_dim) in
        ((run calls c).0 ≡ (run_on_table calls t).0)
        × Refines (run calls c).1 (run_on_table calls t).1)
run-Refines n a m h calls fits ok sound =
    runs-Agree (a * h) calls (allocate n a m h true empty_cache).1 (fresh_table n m (a * h)) refl
      sound (allocate-Refines n a m h empty_cache fits ok)
