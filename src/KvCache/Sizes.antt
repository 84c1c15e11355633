-- ===== src/KvCache/Sizes.antt =====
-- src/hydroxl/HydroXLKVCache.cpp: the sizes and offsets do not wrap if those of a layer do not.
use hetero_accel.Base.{ℕ, ◌+◌, ◌*◌, ◌≤◌, ◌<◌, ◌≡◌, sym, ap, ◌∙◌, arith, u64_mod, mul64}
use native.Mathlib.Nat.{
  mul_assoc, mul_comm, mul_right_comm, le-mul_of_pos_right, mul-le-mul_right, suc-mul,
}
use hetero_accel.KvCache.{KvCache, vec_len, offset_of, floats_per_layer}

-- The sizes of a cache whose layers fit 64 bits.
pub record Sized (c : KvCache) : Type 0 where
  pub fits : c.n_kv_heads * c.max_seq_len * c.head_dim < u64_mod
  pub some_positions : 0 < c.max_seq_len
  pub some_floats : 0 < c.head_dim

exact : (a b : ℕ) → a * b < u64_mod → mul64 a b ≡ a * b
exact a b h = omega (arith, h)

module _ (c : KvCache) (s : Sized c) where
  -- A layer has a row for each position.
  rows : c.max_seq_len * (c.n_kv_heads * c.head_dim) ≡ c.n_kv_heads * c.max_seq_len * c.head_dim
  rows =
      sym (mul_assoc c.max_seq_len c.n_kv_heads c.head_dim)
      ∙ ap (λ (k : ℕ). k * c.head_dim) (mul_comm c.max_seq_len c.n_kv_heads)

  pub vec_len-exact : vec_len c ≡ c.n_kv_heads * c.head_dim
  vec_len-exact =
      let a = le-mul_of_pos_right (c.n_kv_heads * c.head_dim) s.some_positions in
      let b = mul_right_comm c.n_kv_heads c.head_dim c.max_seq_len in
      exact c.n_kv_heads c.head_dim (omega (arith, a, b, s.fits))

  pub floats_per_layer-exact :
      floats_per_layer c.n_kv_heads c.max_seq_len c.head_dim ≡ c.max_seq_len * vec_len c
  floats_per_layer-exact =
      let a = le-mul_of_pos_right (c.n_kv_heads * c.max_seq_len) s.some_floats in
      let inner = exact c.n_kv_heads c.max_seq_len (omega (arith, a, s.fits)) in
      ap (λ (k : ℕ). mul64 k c.head_dim) inner
      ∙ exact (c.n_kv_heads * c.max_seq_len) c.head_dim s.fits
      ∙ sym rows
      ∙ ap (λ (k : ℕ). c.max_seq_len * k) (sym vec_len-exact)

  -- The row at a position ends inside the layer.
  pub row-inside :
      (pos : ℕ) → pos < c.max_seq_len → pos * vec_len c + vec_len c ≤ c.max_seq_len * vec_len c
  row-inside pos h =
      let a = mul-le-mul_right (vec_len c) h in omega (arith, a, suc-mul pos (vec_len c))

  pub layer-fits : c.max_seq_len * vec_len c < u64_mod
  layer-fits =
      let e = ap (λ (k : ℕ). c.max_seq_len * k) vec_len-exact in omega (arith, e, rows, s.fits)

  pub offset_of-exact : (pos : ℕ) → pos < c.max_seq_len → offset_of c pos ≡ pos * vec_len c
  offset_of-exact pos h =
      let below = row-inside pos h in
      let fit = layer-fits in
      let product : pos * c.n_kv_heads * c.head_dim ≡ pos * vec_len c =
        mul_assoc pos c.n_kv_heads c.head_dim ∙ ap (λ (k : ℕ). pos * k) (sym vec_len-exact) in
      let whole : pos * c.n_kv_heads * c.head_dim < u64_mod = omega (arith, product, below, fit) in
      let a = le-mul_of_pos_right (pos * c.n_kv_heads) s.some_floats in
      let inner = exact pos c.n_kv_heads (omega (arith, a, whole)) in
      ap (λ (k : ℕ). mul64 k c.head_dim) inner
      ∙ exact (pos * c.n_kv_heads) c.head_dim whole
      ∙ product
