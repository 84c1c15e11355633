-- ===== src/Planner/Plan/Assembly/Samples.antt =====
-- A model that fits partly in the memory of one accelerator, and the plan for it.
use hetero_accel.Base.{ℕ, ◌-◌, ◌^◌, ◌≡◌, refl, true, false, none, some, [], ◌∷◌}
use Prim.Native.String.{String}
use hetero_accel.ModelTypes.{ExecutionStrategy}
use hetero_accel.Planner.Types.{
  ModelFormat, QuantizationType, ModelRequirements, DeviceCompatibility, CapabilityReport,
  PlannerConfig, Registry,
}
use hetero_accel.Capability.{has}
use hetero_accel.Planner.{str_lt, select_engine, has_backend}
use hetero_accel.Planner.Plan.{choose, device, engine_for}
use hetero_accel.Planner.Plan.Assembly.{plan}

abbrev pub requirements : ModelRequirements
requirements = record {
  format = ModelFormat.gguf;
  estimated_memory_bytes = some 1000;
  layer_count = some 10;
  context_length = some 8192;
  quantization = QuantizationType.q4;
  required_capabilities = 0;
}

abbrev pub device_of : String → ℕ → DeviceCompatibility
device_of name capacity = record {
  backend_type = name;
  available = true;
  supported = true;
  memory_capacity = capacity;
}

abbrev pub report : CapabilityReport
report = record {
  engines = [];
  devices = device_of "CPU" 4000 ∷ device_of "Vulkan" 600 ∷ [];
  full_residency_feasible = false;
  streaming_potentially_feasible = true;
}

-- All three backends: bits of the mask.
abbrev pub registry : Registry
registry = ("llama", some (2 ^ 20 - 1)) ∷ ("none", none) ∷ []

abbrev pub config : PlannerConfig
config = record {
  allow_accelerator = true;
  allow_partial_residency = true;
  allow_streaming_plan = true;
  allow_cpu_fallback = true;
  context_ceiling = 4096;
}

pub plan-partial :
    (plan requirements report registry config).residency ≡ ExecutionStrategy.partial_resident
unfolding plan str_lt has choose device select_engine has_backend engine_for
plan-partial = refl
