-- ===== src/KvCache/Spec.antt =====
-- src/hydroxl/HydroXLKVCache.h: what the cache promises, as a table of pairs of vectors.
pub mod Refine
pub mod Runs
use hetero_accel.Base.{
  ℕ, zero, suc, ◌+◌, ◌-◌, ◌*◌, ◌/◌, ◌%◌, ◌^◌, ◌≤◌, ◌<◌, min, max, ◌≡◌, refl, sym, ap, ◌∙◌, subst,
  ◌≢◌, ◌⊎◌, inl, inr, Bool, true, false, not, ◌&&◌, ◌||◌, Option, none, some, List, [], ◌∷◌, ◌++◌,
  map, arith, ltb, leb, ◌==◌, if◌then◌else◌, is_some, one_if, ==→≡, ==_self, ltb-false, or-false,
  Bool-cases, Option-cases, length, All, length-append, take, take-take, drop, length-take,
  drop-append, take-append, append_assoc, length-drop, u64_mod, u32_mod, add64, mul64,
}
use hetero_accel.Base.Map.{
  Map, lookup, put, erase, Distinct, Each, total, lookup-put, lookup-erase, put-Distinct,
  erase-Distinct, total-put_old, total-put_new, total-erase, length-erase, total-get,
  total-le-length, Each-map, Each-lookup, Each-put, Each-erase,
}
use hetero_accel.KvCache.{KvCache, write_kv, advance_seq, reset}

-- The table: for each layer and position a key vector and a value vector.
pub record Table : Type 0 where
  pub layers : ℕ
  pub positions : ℕ
  pub width : ℕ
  pub filled : ℕ
  pub keys : ℕ → ℕ → List ℕ
  pub values : ℕ → ℕ → List ℕ

abbrev pub updated : ℕ → ℕ → List ℕ → (ℕ → ℕ → List ℕ) → ℕ → ℕ → List ℕ
updated layer pos v f l p = if (layer == l) && (pos == p) then v else f l p

-- A call of a method that changes the cache.
pub data Call : Type 0 where
  write : ℕ → ℕ → List ℕ → List ℕ → Call
  advance restart : Call

abbrev pub apply : Call → KvCache → Bool × KvCache
apply (write layer pos k v) c = write_kv layer pos (some k) (some v) c
apply advance c = advance_seq c
apply restart c = (true, reset c)

-- The same call on the table, of vectors of its width.
abbrev pub apply_to_table : Call → Table → Bool × Table
apply_to_table (write layer pos k v) t =
    if ltb layer t.layers && ltb pos t.positions
    then (
      true,
      record t { keys = updated layer pos k t.keys; values = updated layer pos v t.values },
    )
    else (false, t)
apply_to_table advance t =
    if ltb t.filled t.positions then (true, record t { filled = t.filled + 1 }) else (false, t)
apply_to_table restart t = (
  true,
  record t {
    filled = 0;
    keys = λ l p. map (λ (x : ℕ). 0) (t.keys l p);
    values = λ l p. map (λ (x : ℕ). 0) (t.values l p);
  },
)

-- A call whose vectors have the width that the cache expects.
abbrev pub Sound : ℕ → Call → Type 0
Sound width (write layer pos k v) = (length k ≡ width) × (length v ≡ width)
Sound width advance = Unit
Sound width restart = Unit

abbrev pub run : List Call → KvCache → List Bool × KvCache
run [] c = ([], c)
run (x ∷ xs) c = let (b, c') = apply x c in let (bs, c'') = run xs c' in (b ∷ bs, c'')

abbrev pub run_on_table : List Call → Table → List Bool × Table
run_on_table [] t = ([], t)
run_on_table (x ∷ xs) t =
    let (b, t') = apply_to_table x t in let (bs, t'') = run_on_table xs t' in (b ∷ bs, t'')
