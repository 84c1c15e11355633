-- ===== src/Planner.antt =====
-- src/planner/ExecutionPlanner.cpp: the tests on devices and engines, and the choice of a placement.
pub mod Types
pub mod Plan
pub mod Engines
use hetero_accel.Base.{
  ℕ, zero, suc, ◌+◌, ◌-◌, ◌*◌, ◌/◌, ◌%◌, ◌^◌, ◌≤◌, ◌<◌, min, max, ◌≡◌, refl, sym, ap, ◌∙◌, subst,
  ◌≢◌, ◌⊎◌, inl, inr, Bool, true, false, not, ◌&&◌, ◌||◌, Option, none, some, List, [], ◌∷◌, ◌++◌,
  map, arith, ltb, leb, ◌==◌, if◌then◌else◌, is_some, ==→≡, ==_self, Bool-cases, Option-cases,
  length, All, length-append, take, take-take, u64_mod, u32_mod, add64, mul64,
}
use hetero_accel.Base.Map.{
  Map, lookup, put, erase, Distinct, Each, total, lookup-put, lookup-erase, put-Distinct,
  erase-Distinct, total-put_old, total-put_new, total-erase, length-erase, total-get,
  total-le-length, Each-map, Each-lookup, Each-put, Each-erase,
}
use Prim.Native.String.{String}
use Prim.Native.String.{compare as compare_text}
use Prim.Native.Nat.{Ordering}
use text.Mathlib.Text.{◌==◌ as str_eq}
use hetero_accel.ModelTypes.{ExecutionStrategy}
use hetero_accel.Capability.{EngineCapability, has}
use Types.{
  ModelRequirements, EngineCompatibility, DeviceCompatibility, CapabilityReport, PlannerConfig,
  Registry, ExecutionMode, PlanReason, Explanation, Warning, Rejection, ModelExecutionPlan,
  no_rejection, factory_returned_nothing, absent_from_report, report_rejected, missing_capability,
  report_reason,
}

-- `operator<` of std::string.
pub str_lt : String → String → Bool
str_lt a b = elim (compare_text a b) [ Ordering.lt ↦ true | _ ↦ false ]

pub find_device : List DeviceCompatibility → String → Option DeviceCompatibility
find_device [] backend = none
find_device (d ∷ ds) backend =
    if str_eq d.backend_type backend then some d else find_device ds backend

-- A null device is not usable.
abbrev pub device_usable : Option DeviceCompatibility → Bool
device_usable none = false
device_usable (some d) = d.available && d.supported

-- Every required workload type is among the engine's.
pub covers_required : ℕ → ModelRequirements → Bool
covers_required caps req =
    covers EngineCapability.text_generation
    && covers EngineCapability.embeddings
    && covers EngineCapability.vision
    && covers EngineCapability.audio
    && covers EngineCapability.multimodal
  where
    covers : EngineCapability → Bool
    covers c = not (has req.required_capabilities c) || has caps c

pub has_backend : ℕ → ExecutionMode → Bool
has_backend caps ExecutionMode.cpu = has caps EngineCapability.backend_cpu
has_backend caps ExecutionMode.vulkan = has caps EngineCapability.backend_vulkan
has_backend caps ExecutionMode.cuda = has caps EngineCapability.backend_cuda
has_backend caps ExecutionMode.hybrid =
    has caps EngineCapability.backend_cpu
    && (has caps EngineCapability.backend_vulkan || has caps EngineCapability.backend_cuda)
has_backend caps ExecutionMode.unsupported = false

pub record Candidate : Type 0 where
  pub key : String
  pub caps : ℕ
  pub eligible : Bool
  pub rejection : Rejection

-- One round of the scan in `selectEngine`.
abbrev pub better : ExecutionMode → Candidate → Option Candidate → Option Candidate
better mode c best =
    if c.eligible && has_backend c.caps mode
    then elim best [ none ↦ some c | some b ↦ if str_lt c.key b.key then some c else some b ]
    else best

pub select_from : List Candidate → ExecutionMode → Option Candidate → Option Candidate
select_from [] mode best = best
select_from (c ∷ cs) mode best = select_from cs mode (better mode c best)

pub select_engine : List Candidate → ExecutionMode → Option Candidate
unfolding select_from
select_engine cs mode = select_from cs mode none

-- The clamps of `partialLayers`, on the quotient and the number of layers.
abbrev clamp_layers : ℕ → ℕ → ℕ
clamp_layers layers count =
    let l = if layers == 0 then 1 else layers in
    let l' = if leb count l then count - 1 else l in if l' == 0 then 1 else l'

pub partial_layers : ModelRequirements → ℕ → ℕ → ℕ
partial_layers req accelerator_bytes model_bytes = elim req.layer_count [
  | none ↦ 0
  | some count ↦
      if count == 0 || (model_bytes == 0)
      then 0
      else clamp_layers (mul64 count accelerator_bytes / model_bytes) count
]

-- `std::sort` of the registered keys.
insert_key : String × Option ℕ → Registry → Registry
insert_key e [] = e ∷ []
insert_key e (f ∷ fs) = if str_lt e.0 f.0 then e ∷ f ∷ fs else f ∷ insert_key e fs

pub sort_keys : Registry → Registry
unfolding insert_key
sort_keys [] = []
sort_keys (e ∷ es) = insert_key e (sort_keys es)

pub listed : String → List EngineCompatibility → Option EngineCompatibility
listed key [] = none
listed key (e ∷ es) = if str_eq e.engine_name key then some e else listed key es

abbrev pub is_empty {ℓ} : {A : Type ℓ} → List A → Bool
is_empty [] = true
is_empty (x ∷ xs) = false

-- The verdict on an engine that the factory has returned.
verdict : String → ℕ → ModelRequirements → CapabilityReport → Rejection
unfolding listed covers_required
verdict key caps req report = elim (listed key report.engines) [
  | none ↦
      if not (is_empty report.engines)
      then absent_from_report key
      else if not (covers_required caps req)
      then missing_capability key
      else no_rejection
  | some entry ↦
      if not entry.supported
      then if str_eq entry.reason "" then report_rejected key else report_reason key entry.reason
      else if not (covers_required caps req)
      then missing_capability key
      else no_rejection
]

abbrev pub accepted : Rejection → Bool
accepted no_rejection = true
accepted _ = false

pub judge : ModelRequirements → CapabilityReport → String × Option ℕ → Candidate
unfolding verdict
judge req report (key, none) = record {
  key = key;
  caps = 0;
  eligible = false;
  rejection = factory_returned_nothing key;
}
judge req report (key, some caps) = record {
  key = key;
  caps = caps;
  eligible = accepted (verdict key caps req report);
  rejection = verdict key caps req report;
}

pub judge_all : ModelRequirements → CapabilityReport → Registry → List Candidate
unfolding judge sort_keys
judge_all req report registry = map (judge req report) (sort_keys registry)
