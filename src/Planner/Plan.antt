-- ===== src/Planner/Plan.antt =====
-- src/planner/ExecutionPlanner.cpp: `ExecutionPlanner::plan`. A pointer to one of the three devices
-- of the report is its slot, which is what the code compares.
pub mod Notes
pub mod Assembly
pub mod Choices
use hetero_accel.Base.{
  ℕ, zero, suc, ◌+◌, ◌-◌, ◌*◌, ◌/◌, ◌%◌, ◌^◌, ◌≤◌, ◌<◌, min, max, ◌≡◌, refl, sym, ap, ◌∙◌, subst,
  ◌≢◌, ◌⊎◌, inl, inr, Bool, true, false, not, ◌&&◌, ◌||◌, Option, none, some, List, [], ◌∷◌, ◌++◌,
  map, arith, ltb, leb, ◌==◌, if◌then◌else◌, is_some, ==→≡, ==_self, Bool-cases, Option-cases,
  length, All, length-append, take, take-take, u64_mod, u32_mod, add64, mul64,
}
use hetero_accel.Base.Map.{
  Map, lookup, put, erase, Distinct, Each, total, lookup-put, lookup-erase, put-Distinct,
  erase-Distinct, total-put_old, total-put_new, total-erase, length-erase, total-get,
  total-le-length, Each-map, Each-lookup, Each-put, Each-erase,
}
use Prim.Native.String.{String}
use hetero_accel.ModelTypes.{ExecutionStrategy}
use hetero_accel.Capability.{EngineCapability, has}
use hetero_accel.Planner.Types.{
  ModelFormat, QuantizationType, ModelRequirements, EngineCompatibility, DeviceCompatibility,
  CapabilityReport, PlannerConfig, Registry, ExecutionMode, PlanReason, Explanation, Warning,
  Rejection, ModelExecutionPlan,
}
use hetero_accel.Planner.{
  find_device, device_usable, Candidate, select_engine, partial_layers, judge_all,
}

pub data Slot : Type 0 where
  cpu vulkan cuda : Slot

-- The variables that the lambdas of `plan` share.
pub record Context : Type 0 where
  pub requirements : ModelRequirements
  pub report : CapabilityReport
  pub config : PlannerConfig
  pub candidates : List Candidate
  pub memory_known : Bool
  pub model_bytes : ℕ

-- `estimated_memory_bytes` has a value, and that is not zero.
abbrev pub known : Option ℕ → Bool
known none = false
known (some n) = ltb 0 n

abbrev pub bytes_of : Option ℕ → ℕ
bytes_of none = 0
bytes_of (some n) = n

pub device : Context → Slot → Option DeviceCompatibility
unfolding find_device
device c Slot.cpu = find_device c.report.devices "CPU"
device c Slot.vulkan = find_device c.report.devices "Vulkan"
device c Slot.cuda = find_device c.report.devices "CUDA"

abbrev pub capacity : Option DeviceCompatibility → ℕ
capacity none = 0
capacity (some d) = d.memory_capacity

pub fits : Context → Slot → Bool
fits c s = c.memory_known && device_usable (device c s) && leb c.model_bytes (capacity (device c s))

-- At least 15 per cent of the model fits, and not all of it.
pub partial : Context → Slot → Bool
partial c s =
    if not c.config.allow_partial_residency
      || not c.memory_known
      || not (device_usable (device c s))
    then false
    else if capacity (device c s) == 0 || leb c.model_bytes (capacity (device c s))
    then false
    else leb (mul64 c.model_bytes 15) (mul64 (capacity (device c s)) 100)

pub record Choice : Type 0 where
  pub mode : ExecutionMode
  pub residency : ExecutionStrategy
  pub slot : Slot
  pub executable : Bool
  pub confidence : ℕ

pub try_full : Context → ExecutionMode → Slot → Option Choice → Option Choice
unfolding fits
try_full c mode s (some choice) = some choice
try_full c mode s none =
    if not c.config.allow_accelerator || not (fits c s)
    then none
    else elim (select_engine c.candidates mode) [
      | none ↦ none
      | some engine ↦ some (record {
        mode = mode;
        residency = ExecutionStrategy.full_resident;
        slot = s;
        executable = true;
        confidence = 90;
      })
    ]

pub try_partial : Context → ExecutionMode → Slot → Option Choice → Option Choice
unfolding partial
try_partial c mode s (some choice) = some choice
try_partial c mode s none =
    if not c.config.allow_accelerator || not (partial c s)
    then none
    else elim (select_engine c.candidates mode) [
      | none ↦ none
      | some engine ↦ some (record {
        mode = ExecutionMode.hybrid;
        residency = ExecutionStrategy.partial_resident;
        slot = s;
        executable = true;
        confidence = 70;
      })
    ]

abbrev pub or_else_engine : Option Candidate → Option Candidate → Option Candidate
or_else_engine none other = other
or_else_engine (some e) other = some e

pub streaming_engine : Context → Option Candidate
streaming_engine c = or_else_engine (select_engine c.candidates ExecutionMode.hybrid) (
    or_else_engine (select_engine c.candidates ExecutionMode.vulkan) (
      or_else_engine (select_engine c.candidates ExecutionMode.cuda)
        (select_engine c.candidates ExecutionMode.cpu)))

pub streaming_slot : Context → Slot
streaming_slot c =
    if device_usable (device c Slot.vulkan)
    then Slot.vulkan
    else if device_usable (device c Slot.cuda)
    then Slot.cuda
    else Slot.cpu

pub try_streaming : Context → Option Choice → Option Choice
unfolding streaming_engine streaming_slot
try_streaming c (some choice) = some choice
try_streaming c none =
    if c.config.allow_streaming_plan
      && c.report.streaming_potentially_feasible
      && c.config.allow_accelerator
      && (device_usable (device c Slot.vulkan) || device_usable (device c Slot.cuda))
    then elim (streaming_engine c) [
      | none ↦ none
      | some engine ↦ some (record {
        mode = ExecutionMode.hybrid;
        residency = ExecutionStrategy.streaming;
        slot = streaming_slot c;
        executable = false;
        confidence = 40;
      })
    ]
    else none

pub cpu_fallback_available : Context → Bool
unfolding fits
cpu_fallback_available c =
    c.config.allow_cpu_fallback
    && fits c Slot.cpu
    && is_some (select_engine c.candidates ExecutionMode.cpu)

pub try_cpu : Context → Option Choice → Option Choice
unfolding cpu_fallback_available
try_cpu c (some choice) = some choice
try_cpu c none =
    if cpu_fallback_available c
    then some (record {
      mode = ExecutionMode.cpu;
      residency = ExecutionStrategy.cpu_fallback;
      slot = Slot.cpu;
      executable = true;
      confidence = 80;
    })
    else none

-- The placement, in the planner's order of preference.
pub choose : Context → Option Choice
unfolding try_full try_partial try_streaming try_cpu
choose c = try_cpu c (
    try_streaming c (
      try_partial c ExecutionMode.vulkan Slot.vulkan (
        try_partial c ExecutionMode.cuda Slot.cuda (
          try_full c ExecutionMode.vulkan Slot.vulkan
            (try_full c ExecutionMode.cuda Slot.cuda none)))))

abbrev pub same_slot : Slot → Slot → Bool
same_slot Slot.cpu Slot.cpu = true
same_slot Slot.vulkan Slot.vulkan = true
same_slot Slot.cuda Slot.cuda = true
same_slot _ _ = false

-- The backend that the engine must advertise for the choice.
pub engine_mode : Choice → ExecutionMode
engine_mode choice = elim choice.residency [
  | ExecutionStrategy.partial_resident ↦ by_slot
  | ExecutionStrategy.streaming ↦ by_slot
  | _ ↦ choice.mode
]
  where
    by_slot : ExecutionMode
    by_slot =
        if same_slot choice.slot Slot.cuda
        then ExecutionMode.cuda
        else if same_slot choice.slot Slot.vulkan
        then ExecutionMode.vulkan
        else ExecutionMode.cpu

abbrev pub is_hybrid : ExecutionMode → Bool
is_hybrid ExecutionMode.hybrid = true
is_hybrid _ = false

pub engine_for : Context → Choice → Option Candidate
unfolding engine_mode
engine_for c choice = elim (select_engine c.candidates (engine_mode choice)) [
  | some engine ↦ some engine
  | none ↦ if is_hybrid choice.mode then select_engine c.candidates ExecutionMode.hybrid else none
]
