-- ===== src/KvCache.antt =====
-- src/hydroxl/HydroXLKVCache.cpp: the key-value cache of the attention layers. A float is its bit
-- pattern, and 0.0f is 0.
pub mod Rows
pub mod Sizes
pub mod Store
pub mod Zeros
pub mod Spec
mod Tests
use hetero_accel.Base.{
  ℕ, zero, suc, ◌+◌, ◌-◌, ◌*◌, ◌/◌, ◌%◌, ◌^◌, ◌≤◌, ◌<◌, min, max, ◌≡◌, refl, sym, ap, ◌∙◌, subst,
  ◌≢◌, ◌⊎◌, inl, inr, Bool, true, false, not, ◌&&◌, ◌||◌, Option, none, some, List, [], ◌∷◌, ◌++◌,
  map, arith, ltb, leb, ◌==◌, if◌then◌else◌, is_some, one_if, ==→≡, ==_self, ltb-false, or-false,
  Bool-cases, Option-cases, length, All, length-append, take, take-take, drop, length-take,
  drop-append, take-append, append_assoc, length-drop, u64_mod, u32_mod, add64, mul64,
}
use hetero_accel.Base.Map.{
  Map, lookup, put, erase, Distinct, Each, total, lookup-put, lookup-erase, put-Distinct,
  erase-Distinct, total-put_old, total-put_new, total-erase, length-erase, total-get,
  total-le-length, Each-map, Each-lookup, Each-put, Each-erase,
}

pub record KvCache : Type 0 where
  pub n_layers : ℕ
  pub n_kv_heads : ℕ
  pub max_seq_len : ℕ
  pub head_dim : ℕ
  pub seq_len : ℕ
  pub allocated : Bool
  pub k_data : List (List ℕ)
  pub v_data : List (List ℕ)

pub empty_cache : KvCache
empty_cache = record {
  n_layers = 0;
  n_kv_heads = 0;
  max_seq_len = 0;
  head_dim = 0;
  seq_len = 0;
  allocated = false;
  k_data = [];
  v_data = [];
}

abbrev pub replicate {ℓ} : {A : Type ℓ} → ℕ → A → List A
replicate zero a = []
replicate (suc n) a = a ∷ replicate n a

-- `n_kv_heads * max_seq_len * head_dim`.
abbrev pub floats_per_layer : ℕ → ℕ → ℕ → ℕ
floats_per_layer n_kv_heads max_seq_len head_dim = mul64 (mul64 n_kv_heads max_seq_len) head_dim

-- `allocate`, with whether the allocation of the vectors succeeds. If it fails, the vectors count as
-- unchanged; no method but `reset` reads them then.
pub allocate : ℕ → ℕ → ℕ → ℕ → Bool → KvCache → Bool × KvCache
allocate n_layers n_kv_heads max_seq_len head_dim got_memory c =
    if (n_layers == 0) || (n_kv_heads == 0) || (max_seq_len == 0) || (head_dim == 0)
    then (false, c)
    else let per_layer = floats_per_layer n_kv_heads max_seq_len head_dim in
      let total_bytes = mul64 (mul64 (mul64 n_layers 2) per_layer) 4 in
      if ltb (4 * 2 ^ 30) total_bytes
      then (false, c)
      else if got_memory
      then (
        true,
        record {
          n_layers = n_layers;
          n_kv_heads = n_kv_heads;
          max_seq_len = max_seq_len;
          head_dim = head_dim;
          seq_len = 0;
          allocated = true;
          k_data = replicate n_layers (replicate per_layer 0);
          v_data = replicate n_layers (replicate per_layer 0);
        },
      )
      else (
        false,
        record c {
          n_layers = n_layers;
          n_kv_heads = n_kv_heads;
          max_seq_len = max_seq_len;
          head_dim = head_dim;
          seq_len = 0;
          allocated = false;
        },
      )

-- `2 * n_layers_` is a product of 32 bits.
pub memory_bytes : KvCache → ℕ
memory_bytes c =
    if not c.allocated
    then 0
    else mul64
        (mul64 (2 * c.n_layers % u32_mod) (floats_per_layer c.n_kv_heads c.max_seq_len c.head_dim))
        4

abbrev pub zeros : List ℕ → List ℕ
zeros xs = map (λ (x : ℕ). 0) xs

pub reset : KvCache → KvCache
reset c = record c { seq_len = 0; k_data = map zeros c.k_data; v_data = map zeros c.v_data }

-- `memcpy` of a whole vector to an offset.
abbrev pub splice : ℕ → List ℕ → List ℕ → List ℕ
splice offset v xs = take offset xs ++ (v ++ drop (offset + length v) xs)

abbrev pub nth {ℓ} : {A : Type ℓ} → ℕ → List A → Option A
nth n [] = none
nth zero (x ∷ xs) = some x
nth (suc n) (x ∷ xs) = nth n xs

abbrev pub set_nth {ℓ} : {A : Type ℓ} → ℕ → A → List A → List A
set_nth n a [] = []
set_nth zero a (x ∷ xs) = a ∷ xs
set_nth (suc n) a (x ∷ xs) = x ∷ set_nth n a xs

abbrev pub layer_of : ℕ → List (List ℕ) → List ℕ
layer_of layer xss = elim (nth layer xss) [ none ↦ [] | some xs ↦ xs ]

abbrev pub vec_len : KvCache → ℕ
vec_len c = mul64 c.n_kv_heads c.head_dim

abbrev pub offset_of : KvCache → ℕ → ℕ
offset_of c pos = mul64 (mul64 pos c.n_kv_heads) c.head_dim

-- `writeKV`. A null pointer is none, and a vector has the floats that its pointer gives.
pub write_kv : ℕ → ℕ → Option (List ℕ) → Option (List ℕ) → KvCache → Bool × KvCache
write_kv layer pos k v c =
    if not c.allocated
    then (false, c)
    else if leb c.n_layers layer
    then (false, c)
    else if leb c.max_seq_len pos
    then (false, c)
    else elim k [
      | none ↦ (false, c)
      | some ks ↦ elim v [
        | none ↦ (false, c)
        | some vs ↦
            let at = offset_of c pos in
            if ltb (length (layer_of layer c.k_data)) (add64 at (vec_len c)) then (false, c) else (
              true,
              record c {
                k_data =
                    set_nth layer (splice at (take (vec_len c) ks) (layer_of layer c.k_data))
                      c.k_data;
                v_data =
                    set_nth layer (splice at (take (vec_len c) vs) (layer_of layer c.v_data))
                      c.v_data;
              },
            )
      ]
    ]

pub advance_seq : KvCache → Bool × KvCache
advance_seq c =
    if not c.allocated || leb c.max_seq_len c.seq_len
    then (false, c)
    else (true, record c { seq_len = c.seq_len + 1 })

pub k_layer : ℕ → KvCache → Option (List ℕ)
k_layer layer c =
    if not c.allocated || leb c.n_layers layer then none else some (layer_of layer c.k_data)

pub v_layer : ℕ → KvCache → Option (List ℕ)
v_layer layer c =
    if not c.allocated || leb c.n_layers layer then none else some (layer_of layer c.v_data)
