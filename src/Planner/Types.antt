-- ===== src/Planner/Types.antt =====
-- src/planner/ExecutionPlan.h, src/analysis/CapabilityReport.h and src/analysis/ModelRequirements.h.
-- The texts of a plan are constructors: one for each literal, with the parts that are put in.
use hetero_accel.Base.{ℕ, Bool, Option, List}
use Prim.Native.String.{String}
use hetero_accel.ModelTypes.{ExecutionStrategy}

pub data ModelFormat : Type 0 where
  unknown gguf safetensors onnx pytorch native_agr other : ModelFormat

pub data QuantizationType : Type 0 where
  f32 f16 bf16 q8 q6 q5 q4 q3 q2 unknown : QuantizationType

-- `required_capabilities` is a mask.
pub record ModelRequirements : Type 0 where
  pub format : ModelFormat
  pub estimated_memory_bytes : Option ℕ
  pub layer_count : Option ℕ
  pub context_length : Option ℕ
  pub quantization : QuantizationType
  pub required_capabilities : ℕ

pub record EngineCompatibility : Type 0 where
  pub engine_name : String
  pub supported : Bool
  pub reason : String

pub record DeviceCompatibility : Type 0 where
  pub backend_type : String
  pub available : Bool
  pub supported : Bool
  pub memory_capacity : ℕ

pub record CapabilityReport : Type 0 where
  pub engines : List EngineCompatibility
  pub devices : List DeviceCompatibility
  pub full_residency_feasible : Bool
  pub streaming_potentially_feasible : Bool

pub record PlannerConfig : Type 0 where
  pub allow_accelerator : Bool
  pub allow_partial_residency : Bool
  pub allow_streaming_plan : Bool
  pub allow_cpu_fallback : Bool
  pub context_ceiling : ℕ

-- The registry's keys, each with the capability mask of the engine that its factory returns, if
-- it returns one.
abbrev pub Registry : Type 0
Registry = List (String × Option ℕ)

pub data ExecutionMode : Type 0 where
  cpu vulkan cuda hybrid unsupported : ExecutionMode

pub data PlanReason : Type 0 where
  vulkan_feasible cuda_feasible accelerator_memory_sufficient : PlanReason
  accelerator_memory_insufficient engine_unavailable engine_rejected cpu_fallback : PlanReason
  streaming_required unsupported_model unknown_memory insufficient_ram : PlanReason
  no_registered_engines invalid_configuration contradictory_capability : PlanReason
  future_capability partial_residency quantization_unknown : PlanReason

pub data Explanation : Type 0 where
  none_given every_strategy_disabled format_missing no_engines_registered : Explanation
  every_engine_rejected memory_requirement_unknown no_engine_can_execute : Explanation
  backend_not_advertised : Explanation
  full_residency_selected : ExecutionMode → String → Explanation
  partial_residency_selected : String → Explanation
  streaming_needs_support : Explanation
  cpu_fallback_selected : String → Explanation

pub data Warning : Type 0 where
  format_unknown quantization_is_unknown report_contradicts_devices context_clamped : Warning
  memory_missing streaming_is_plan_only vulkan_not_usable cuda_not_usable : Warning
  cuda_advertised_but_unavailable : Warning

pub data Rejection : Type 0 where
  no_rejection : Rejection
  factory_returned_nothing absent_from_report report_rejected missing_capability :
      String → Rejection
  report_reason : String → String → Rejection

pub record ModelExecutionPlan : Type 0 where
  pub viable : Bool
  pub executable : Bool
  pub engine_key : String
  pub mode : ExecutionMode
  pub residency : ExecutionStrategy
  pub fallback : ExecutionStrategy
  pub streaming_required : Bool
  pub memory_budget_bytes : ℕ
  pub estimated_model_memory_bytes : ℕ
  pub gpu_layer_budget : Option ℕ
  pub context_limit : Option ℕ
  pub confidence : ℕ
  pub reasons : List PlanReason
  pub explanation : Explanation
  pub warnings : List Warning
  pub rejected_engines : List Rejection
