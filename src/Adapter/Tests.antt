-- ===== src/Adapter/Tests.antt =====
-- src/model/PlanResidencyAdapter.cpp: plans carried out on the manager over the host device.
use hetero_accel.Base.{ℕ, refl, true, false, none, some, [], ◌∷◌, arith}
use hetero_accel.ModelTypes.{ExecutionStrategy}
use hetero_accel.Residency.Types.{Manager, World, Budget}
use hetero_accel.Residency.Device.{host, new_host_memory}
use hetero_accel.Residency.Methods.{new_manager}
use hetero_accel.Planner.Types.{ExecutionMode, Explanation, ModelExecutionPlan}
use hetero_accel.Extractor.{FileView, whole, extract, extract_model, whole_file_region}
use hetero_accel.Adapter.{Turn, regions_or_whole, apply}
use hetero_accel.Adapter.Counts.{Tallies, apply-Tallies}

abbrev budget : Budget
budget = record { ram_bytes = 100; accelerator_bytes = 100; prefetch_bytes = 0 }

abbrev manager : Manager host
manager = new_manager host budget none

abbrev turns : ℕ → Turn
turns n = record { cancelled = false; first = world; second = world }
  where
    world : World
    world = record {
      now = n;
      cancel_before_ram = false;
      cancel_before_upload = false;
      host_allocates = true;
      read = λ offset size. some (1 ∷ []);
    }

-- A file of 40 bytes that llama.cpp cannot load.
abbrev file : FileView
file = record { size = some 40; model = none }

abbrev cpu_plan : ModelExecutionPlan
cpu_plan = record {
  viable = true;
  executable = true;
  engine_key = "llama";
  mode = ExecutionMode.cpu;
  residency = ExecutionStrategy.cpu_fallback;
  fallback = ExecutionStrategy.auto;
  streaming_required = false;
  memory_budget_bytes = 40;
  estimated_model_memory_bytes = 40;
  gpu_layer_budget = none;
  context_limit = none;
  confidence = 80;
  reasons = [];
  explanation = Explanation.none_given;
  warnings = [];
  rejected_engines = [];
}

apply-Tallies_example : Tallies host (apply host cpu_plan "m.gguf" file turns manager).0
unfolding regions_or_whole extract extract_model whole_file_region
apply-Tallies_example =
    apply-Tallies host cpu_plan "m.gguf" file turns manager (whole "m.gguf" 1 40 ∷ []) refl
      (omega arith)

abbrev with_device : Manager host
with_device = new_manager host budget (some (new_host_memory 100 (some 9 ∷ [])))
