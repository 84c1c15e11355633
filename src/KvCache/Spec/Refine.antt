-- ===== src/KvCache/Spec/Refine.antt =====
-- src/hydroxl/HydroXLKVCache.cpp: the cache does what the table does.
use hetero_accel.Base.{
  ℕ, zero, suc, ◌+◌, ◌*◌, ◌≤◌, ◌<◌, ◌≡◌, refl, sym, ap, ◌∙◌, subst, inl, inr, Bool, true, false,
  ◌&&◌, some, List, [], ◌∷◌, arith, ltb, leb, ◌==◌, if◌then◌else◌, Bool-cases, length, take, add64,
}
use hetero_accel.KvCache.{
  KvCache, vec_len, offset_of, reset, write_kv, advance_seq, splice, set_nth, layer_of, zeros,
}
use hetero_accel.KvCache.Rows.{row}
use hetero_accel.KvCache.Sizes.{Sized, row-inside, layer-fits, offset_of-exact}
use hetero_accel.KvCache.Store.{Layers, store-Layers, store-row, All-layer_of}
use hetero_accel.KvCache.Zeros.{row-zeros, zeros-Layers}
use hetero_accel.KvCache.Spec.{Table, updated, write, advance, restart, apply_to_table}

-- The cache holds the table.
pub record Refines (c : KvCache) (t : Table) : Type 0 where
  pub sized : Sized c
  pub allocated : c.allocated ≡ true
  pub layers : c.n_layers ≡ t.layers
  pub positions : c.max_seq_len ≡ t.positions
  pub width : vec_len c ≡ t.width
  pub filled : c.seq_len ≡ t.filled
  pub k_layers : Layers c.n_layers c.max_seq_len (vec_len c) c.k_data
  pub v_layers : Layers c.n_layers c.max_seq_len (vec_len c) c.v_data
  pub keys :
      (l p : ℕ)
      → l < t.layers
      → p < t.positions
      → row (vec_len c) p (layer_of l c.k_data) ≡ t.keys l p
  pub values :
      (l p : ℕ)
      → l < t.layers
      → p < t.positions
      → row (vec_len c) p (layer_of l c.v_data) ≡ t.values l p

-- A call gives the same answer, and leaves a cache that holds the table that is left.
abbrev pub Agree : Bool × KvCache → Bool × Table → Type 0
Agree (b, c) (b', t) = (b ≡ b') × Refines c t

take-all : (w : ℕ) (v : List ℕ) → length v ≡ w → take w v ≡ v
take-all zero [] h = refl
take-all zero (x ∷ v) h = cc
take-all (suc w) [] h = refl
take-all (suc w) (x ∷ v) h = ap (λ (k : List ℕ). x ∷ k) (take-all w v (omega (arith, h)))

Agree-of : (x x' : Bool × KvCache) (y y' : Bool × Table) → x ≡ x' → y ≡ y' → Agree x' y' → Agree x y
Agree-of x x' y y' e f a = subst (λ x. Agree x y) (sym e) (subst (λ y. Agree x' y) (sym f) a)

pub advance-Agree :
    (c : KvCache) (t : Table) → Refines c t → Agree (advance_seq c) (apply_to_table advance t)
unfolding advance_seq
advance-Agree c t r = elim (Bool-cases (leb c.max_seq_len c.seq_len)) [
  | inl full ↦
      let e : advance_seq c ≡ (false, c) = ground (arith, full) in
      let f : apply_to_table advance t ≡ (false, t) = ground (arith, full, r.filled, r.positions) in
      Agree-of (advance_seq c) (false, c) (apply_to_table advance t) (false, t) e f (refl, r)
  | inr below ↦
      let c' = record c { seq_len = c.seq_len + 1 } in
      let t' = record t { filled = t.filled + 1 } in
      let e : advance_seq c ≡ (true, c') = ground (arith, below, r.allocated) in
      let f : apply_to_table advance t ≡ (true, t') =
        ground (arith, below, r.filled, r.positions) in
      Agree-of (advance_seq c) (true, c') (apply_to_table advance t) (true, t') e f
        (
          refl,
          record {
            sized = record {
              fits = r.sized.fits;
              some_positions = r.sized.some_positions;
              some_floats = r.sized.some_floats;
            };
            allocated = r.allocated;
            layers = r.layers;
            positions = r.positions;
            width = r.width;
            filled = ap (λ (n : ℕ). n + 1) r.filled;
            k_layers = r.k_layers;
            v_layers = r.v_layers;
            keys = r.keys;
            values = r.values;
          },
        )
]

pub restart-Refines :
    (c : KvCache) (t : Table) → Refines c t → Refines (reset c) (apply_to_table restart t).1
unfolding reset
restart-Refines c t r = record {
  sized = record {
    fits = r.sized.fits;
    some_positions = r.sized.some_positions;
    some_floats = r.sized.some_floats;
  };
  allocated = r.allocated;
  layers = r.layers;
  positions = r.positions;
  width = r.width;
  filled = refl;
  k_layers = zeros-Layers c.n_layers c.max_seq_len (vec_len c) c.k_data r.k_layers;
  v_layers = zeros-Layers c.n_layers c.max_seq_len (vec_len c) c.v_data r.v_layers;
  keys = λ l p h k. row-zeros (vec_len c) p l c.k_data ∙ ap zeros (r.keys l p h k);
  values = λ l p h k. row-zeros (vec_len c) p l c.v_data ∙ ap zeros (r.values l p h k);
}

-- The bytes that a write stores, and where.
abbrev stored : KvCache → ℕ → ℕ → List ℕ → List (List ℕ) → List (List ℕ)
stored c layer at v xss = set_nth layer (splice at (take (vec_len c) v) (layer_of layer xss)) xss

stored_row :
    (c : KvCache) (layer pos : ℕ) (v : List ℕ) (xss : List (List ℕ))
    → Sized c
    → pos < c.max_seq_len
    → length v ≡ vec_len c
    → stored c layer (offset_of c pos) v xss
      ≡ set_nth layer (splice (pos * vec_len c) v (layer_of layer xss)) xss
stored_row c layer pos v xss s below wide =
    ap (λ (at : ℕ). stored c layer at v xss) (offset_of-exact c s pos below)
    ∙ ap (λ (v : List ℕ). set_nth layer (splice (pos * vec_len c) v (layer_of layer xss)) xss)
        (take-all (vec_len c) v wide)

write_kv-inside :
    (layer pos : ℕ) (k v : List ℕ) (c : KvCache)
    → c.allocated ≡ true
    → Sized c
    → Layers c.n_layers c.max_seq_len (vec_len c) c.k_data
    → layer < c.n_layers
    → pos < c.max_seq_len
    → write_kv layer pos (some k) (some v) c ≡ (
      true,
      record c {
        k_data = stored c layer (offset_of c pos) k c.k_data;
        v_data = stored c layer (offset_of c pos) v c.v_data;
      },
    )
unfolding write_kv
write_kv-inside layer pos k v c on s h layer_on pos_on =
    let g1 : leb c.n_layers layer ≡ false = ground (arith, layer_on) in
    let g2 : leb c.max_seq_len pos ≡ false = ground (arith, pos_on) in
    let this : length (layer_of layer c.k_data) ≡ c.max_seq_len * vec_len c =
      All-layer_of (λ xs. length xs ≡ c.max_seq_len * vec_len c) layer c.k_data
        (omega (arith, h.count, layer_on)) h.sizes in
    let end : add64 (offset_of c pos) (vec_len c) ≤ length (layer_of layer c.k_data) =
      omega
        (arith, this, row-inside c s pos pos_on, layer-fits c s, offset_of-exact c s pos pos_on) in
    let g3 : ltb (length (layer_of layer c.k_data)) (add64 (offset_of c pos) (vec_len c)) ≡ false =
      le-ltb (add64 (offset_of c pos) (vec_len c)) (length (layer_of layer c.k_data)) end in
    rw (on, g1, g2, g3) refl
  where
    le-ltb : (a b : ℕ) → a ≤ b → ltb b a ≡ false
    le-ltb a b h = ground arith

write-Agree_inside :
    (layer pos : ℕ) (k v : List ℕ) (c : KvCache) (t : Table)
    → length k ≡ t.width
    → length v ≡ t.width
    → Refines c t
    → layer < c.n_layers
    → pos < c.max_seq_len
    → Agree (write_kv layer pos (some k) (some v) c) (apply_to_table (write layer pos k v) t)
write-Agree_inside layer pos k v c t wk wv r layer_on pos_on =
    let s = r.sized in
    let wk' = wk ∙ sym r.width in
    let wv' = wv ∙ sym r.width in
    let row_in = row-inside c s pos pos_on in
    let ks = set_nth layer (splice (pos * vec_len c) k (layer_of layer c.k_data)) c.k_data in
    let vs = set_nth layer (splice (pos * vec_len c) v (layer_of layer c.v_data)) c.v_data in
    let c' = record c { k_data = ks; v_data = vs } in
    let t' = record t {
      keys = updated layer pos k t.keys;
      values = updated layer pos v t.values;
    } in
    let e : write_kv layer pos (some k) (some v) c ≡ (true, c') =
      write_kv-inside layer pos k v c r.allocated s r.k_layers layer_on pos_on
      ∙ ap
          (λ (xss : List (List ℕ)).
            (true, record c { k_data = xss; v_data = stored c layer (offset_of c pos) v c.v_data }))
          (stored_row c layer pos k c.k_data s pos_on wk')
      ∙ ap (λ (xss : List (List ℕ)). (true, record c { k_data = ks; v_data = xss }))
          (stored_row c layer pos v c.v_data s pos_on wv') in
    let f : apply_to_table (write layer pos k v) t ≡ (true, t') =
      ground (arith, layer_on, pos_on, r.layers, r.positions) in
    Agree-of (write_kv layer pos (some k) (some v) c) (true, c')
      (apply_to_table (write layer pos k v) t) (true, t') e f
      (
        refl,
        record {
          sized = record {
            fits = s.fits;
            some_positions = s.some_positions;
            some_floats = s.some_floats;
          };
          allocated = r.allocated;
          layers = r.layers;
          positions = r.positions;
          width = r.width;
          filled = r.filled;
          k_layers =
              store-Layers c.n_layers c.max_seq_len (vec_len c) layer pos k c.k_data r.k_layers
                layer_on pos_on wk' row_in;
          v_layers =
              store-Layers c.n_layers c.max_seq_len (vec_len c) layer pos v c.v_data r.v_layers
                layer_on pos_on wv' row_in;
          keys = λ l p h h'.
              store-row c.n_layers c.max_seq_len (vec_len c) layer pos k c.k_data r.k_layers
                layer_on pos_on wk' row_in l p
              ∙ ap (λ (x : List ℕ). if (layer == l) && (pos == p) then k else x) (r.keys l p h h');
          values = λ l p h h'.
              store-row c.n_layers c.max_seq_len (vec_len c) layer pos v c.v_data r.v_layers
                layer_on pos_on wv' row_in l p
              ∙ ap (λ (x : List ℕ). if (layer == l) && (pos == p) then v else x)
                  (r.values l p h h');
        },
      )

pub write-Agree :
    (layer pos : ℕ) (k v : List ℕ) (c : KvCache) (t : Table)
    → length k ≡ t.width
    → length v ≡ t.width
    → Refines c t
    → Agree (write_kv layer pos (some k) (some v) c) (apply_to_table (write layer pos k v) t)
unfolding write_kv
write-Agree layer pos k v c t wk wv r =
    elim (Bool-cases (ltb layer c.n_layers && ltb pos c.max_seq_len)) [
      | inr outside ↦
          let e : write_kv layer pos (some k) (some v) c ≡ (false, c) =
            ground (arith, outside, r.allocated) in
          let f : apply_to_table (write layer pos k v) t ≡ (false, t) =
            ground (arith, outside, r.layers, r.positions) in
          Agree-of (write_kv layer pos (some k) (some v) c) (false, c)
            (apply_to_table (write layer pos k v) t) (false, t) e f (refl, r)
      | inl inside ↦
          write-Agree_inside layer pos k v c t wk wv r (ground (arith, inside))
            (ground (arith, inside))
    ]
