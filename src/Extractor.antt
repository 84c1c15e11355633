-- ===== src/Extractor.antt =====
-- src/model/GGUFRegionExtractor.cpp: the regions of a model file. The file's size and what
-- llama.cpp reads from its metadata are arguments: what the library returns is not modelled.
mod Tests
use hetero_accel.Base.{
  ℕ, zero, suc, ◌+◌, ◌-◌, ◌*◌, ◌/◌, ◌%◌, ◌^◌, ◌≤◌, ◌<◌, min, max, ◌≡◌, refl, sym, ap, ◌∙◌, subst,
  ◌≢◌, ◌⊎◌, inl, inr, Bool, true, false, not, ◌&&◌, ◌||◌, Option, none, some, List, [], ◌∷◌, ◌++◌,
  map, arith, ltb, leb, ◌==◌, if◌then◌else◌, is_some, ==→≡, ==_self, Bool-cases, Option-cases,
  length, All, length-append, take, take-take, u64_mod, u32_mod, add64, mul64,
}
use hetero_accel.Base.Map.{
  Map, lookup, put, erase, Distinct, Each, total, lookup-put, lookup-erase, put-Distinct,
  erase-Distinct, total-put_old, total-put_new, total-erase, length-erase, total-get,
  total-le-length, Each-map, Each-lookup, Each-put, Each-erase,
}
use Prim.Native.String.{String}
use hetero_accel.Residency.Types.{Region, generic, tensor}

-- What llama.cpp reports for one tensor: a null name is none.
pub record TensorInfo : Type 0 where
  pub name : Option String
  pub offset : ℕ
  pub size : ℕ

-- The size is none if the file cannot be read, and the model is none if it cannot be loaded. Its
-- tensors are none if the library was built without the metadata functions.
pub record FileView : Type 0 where
  pub size : Option ℕ
  pub model : Option (Option (List TensorInfo))

pub data ExtractError : Type 0 where
  no_error : ExtractError
  cannot_stat not_found load_failed : String → ExtractError

abbrev pub whole : String → ℕ → ℕ → Region
whole path id size = record {
  id = id;
  offset = 0;
  size = size;
  identifier = path;
  kind = generic;
  layer = 0;
  tensor = 0;
}

unfoldable pub whole_file_region : String → ℕ → FileView → Region
whole_file_region path id file = elim file.size [
  | none ↦ whole path id 0
  | some n ↦ whole path id n
]

pub tensor_region : ℕ → ℕ → String → TensorInfo → Region
tensor_region id_base i name t = record {
  id = add64 id_base i;
  offset = t.offset;
  size = t.size;
  identifier = name;
  kind = tensor;
  layer = 0;
  tensor = i % u32_mod;
}

-- The loop over the tensors, from the index `i`.
pub tensor_regions : ℕ → ℕ → ℕ → List TensorInfo → List Region
unfolding tensor_region
tensor_regions id_base file_size i [] = []
tensor_regions id_base file_size i (t ∷ ts) =
    let rest = tensor_regions id_base file_size (i + 1) ts in
    elim t.name [
      | none ↦ rest
      | some name ↦
          if t.size == 0 || ltb file_size (add64 t.offset t.size)
          then rest
          else tensor_region id_base i name t ∷ rest
    ]

abbrev pub or_whole : Region → List Region → List Region
or_whole w [] = w ∷ []
or_whole w (r ∷ rs) = r ∷ rs

-- Once the size of the file is known.
unfoldable pub extract_model :
    String → ℕ → ℕ → Option (Option (List TensorInfo)) → List Region × ExtractError
unfolding tensor_regions
extract_model path id_base file_size none = ([], ExtractError.load_failed path)
extract_model path id_base file_size (some none) =
    (whole path id_base file_size ∷ [], ExtractError.no_error)
extract_model path id_base file_size (some (some ts)) = (
  or_whole (whole path id_base file_size) (tensor_regions id_base file_size 0 ts),
  ExtractError.no_error,
)

unfoldable pub extract : String → ℕ → FileView → List Region × ExtractError
unfolding extract_model
extract path id_base file = elim file.size [
  | none ↦ ([], ExtractError.not_found path)
  | some file_size ↦ extract_model path id_base file_size file.model
]

-- Ids that go up from `n`.
abbrev pub Fresh : ℕ → List Region → Type 0
Fresh n [] = Unit
Fresh n (r ∷ rs) = (n ≤ r.id) × Fresh (r.id + 1) rs

-- The region lies in the file.
abbrev pub Inside : ℕ → Region → Type 0
Inside file_size r = r.offset + r.size ≤ file_size

-- Offsets and sizes whose sum does not wrap.
abbrev pub Sane : TensorInfo → Type 0
Sane t = t.offset + t.size < u64_mod

tensor_regions-Inside :
    (id_base file_size i : ℕ) (ts : List TensorInfo)
    → All Sane ts
    → All (Inside file_size) (tensor_regions id_base file_size i ts)
unfolding tensor_regions tensor_region
tensor_regions-Inside id_base file_size i [] h = tt
tensor_regions-Inside id_base file_size i (t ∷ ts) (s, h) =
    let ih = tensor_regions-Inside id_base file_size (i + 1) ts h in
    elim (Option-cases t.name) [
      | inl unnamed ↦ rw unnamed ih
      | inr (name, named) ↦
          rw named (elim (Bool-cases (t.size == 0 || ltb file_size (add64 t.offset t.size))) [
            | inl skip ↦ rw skip ih
            | inr keep ↦ rw keep (ground (arith, s, keep), ih)
          ])
    ]

-- The ids count up from the base, as long as the base and the number of tensors do not wrap.

Fresh-lower : (n : ℕ) (rs : List Region) → Fresh (n + 1) rs → Fresh n rs
Fresh-lower n [] h = tt
Fresh-lower n (r ∷ rs) (a, h) = (omega (arith, a), h)

tensor_regions-Fresh :
    (id_base file_size i : ℕ) (ts : List TensorInfo)
    → id_base + i + length ts < u64_mod
    → Fresh (id_base + i) (tensor_regions id_base file_size i ts)
unfolding tensor_regions tensor_region
tensor_regions-Fresh id_base file_size i [] h = tt
tensor_regions-Fresh id_base file_size i (t ∷ ts) h =
    let rest = tensor_regions id_base file_size (i + 1) ts in
    let ih = tensor_regions-Fresh id_base file_size (i + 1) ts (omega (arith, h)) in
    let ih' : Fresh (id_base + i + 1) rest = subst (λ n. Fresh n rest) (omega arith) ih in
    let e : add64 id_base i ≡ id_base + i = ground (arith, h) in
    elim (Option-cases t.name) [
      | inl unnamed ↦ rw unnamed (Fresh-lower _ rest ih')
      | inr (name, named) ↦
          rw named (elim (Bool-cases (t.size == 0 || ltb file_size (add64 t.offset t.size))) [
            | inl skip ↦ rw skip (Fresh-lower _ rest ih')
            | inr keep ↦ rw keep (omega (arith, e), subst (λ n. Fresh (n + 1) rest) (sym e) ih')
          ])
    ]

-- The tensors of a model, if llama.cpp reports them.
abbrev pub tensors_of : Option (Option (List TensorInfo)) → List TensorInfo
tensors_of (some (some ts)) = ts
tensors_of _ = []

or_whole-Inside :
    (n : ℕ) (path : String) (id : ℕ) (rs : List Region)
    → All (Inside n) rs
    → All (Inside n) (or_whole (whole path id n) rs)
or_whole-Inside n path id [] h = (omega arith, tt)
or_whole-Inside n path id (r ∷ rs) h = h

or_whole-Fresh :
    (path : String) (id n : ℕ) (rs : List Region)
    → Fresh id rs
    → Fresh id (or_whole (whole path id n) rs)
or_whole-Fresh path id n [] h = (omega arith, tt)
or_whole-Fresh path id n (r ∷ rs) h = h

extract_model-Inside :
    (path : String) (id_base n : ℕ) (model : Option (Option (List TensorInfo)))
    → All Sane (tensors_of model)
    → id_base + length (tensors_of model) < u64_mod
    → All (Inside n) (extract_model path id_base n model).0
      × Fresh id_base (extract_model path id_base n model).0
unfolding extract_model
extract_model-Inside path id_base n none s h = (tt, tt)
extract_model-Inside path id_base n (some none) s h = ((omega arith, tt), (omega arith, tt))
extract_model-Inside path id_base n (some (some ts)) s h = (
  or_whole-Inside n path id_base _ (tensor_regions-Inside id_base n 0 ts s),
  or_whole-Fresh path id_base n _ (
      subst (λ k. Fresh k (tensor_regions id_base n 0 ts)) (omega arith)
        (tensor_regions-Fresh id_base n 0 ts (omega (arith, h)))),
)

-- If no tensor's offset and size wrap, and neither do the ids, every region that is extracted from
-- a file of `n` bytes lies inside it, and the ids go up from the base, so that no two are the same.
pub extract-Inside :
    (path : String) (id_base n : ℕ) (file : FileView)
    → file.size ≡ some n
    → All Sane (tensors_of file.model)
    → id_base + length (tensors_of file.model) < u64_mod
    → All (Inside n) (extract path id_base file).0 × Fresh id_base (extract path id_base file).0
unfolding extract
extract-Inside path id_base n file e sane small =
    rw e (extract_model-Inside path id_base n file.model sane small)
