-- ===== src/Planner/Plan/Assembly.antt =====
-- src/planner/ExecutionPlanner.cpp: how `ExecutionPlanner::plan` fills in the plan.
pub mod Keeps
pub mod Decisions
pub mod Samples
mod Tests
use hetero_accel.Base.{
  ℕ, zero, suc, ◌+◌, ◌-◌, ◌*◌, ◌/◌, ◌%◌, ◌^◌, ◌≤◌, ◌<◌, min, max, ◌≡◌, refl, sym, ap, ◌∙◌, subst,
  ◌≢◌, ◌⊎◌, inl, inr, Bool, true, false, not, ◌&&◌, ◌||◌, Option, none, some, List, [], ◌∷◌, ◌++◌,
  map, arith, ltb, leb, ◌==◌, if◌then◌else◌, is_some, ==→≡, ==_self, Bool-cases, Option-cases,
  length, All, length-append, take, take-take, u64_mod, u32_mod, add64, mul64,
}
use hetero_accel.Base.Map.{
  Map, lookup, put, erase, Distinct, Each, total, lookup-put, lookup-erase, put-Distinct,
  erase-Distinct, total-put_old, total-put_new, total-erase, length-erase, total-get,
  total-le-length, Each-map, Each-lookup, Each-put, Each-erase,
}
use Prim.Native.String.{String}
use hetero_accel.ModelTypes.{ExecutionStrategy}
use hetero_accel.Capability.{EngineCapability, has}
use hetero_accel.Planner.Types.{
  ModelFormat, QuantizationType, ModelRequirements, DeviceCompatibility, CapabilityReport,
  PlannerConfig, Registry, ExecutionMode, PlanReason, Explanation, Warning, Rejection,
  ModelExecutionPlan,
}
use hetero_accel.Planner.{
  device_usable, Candidate, select_engine, partial_layers, judge_all, is_empty,
}
use hetero_accel.Planner.Plan.{
  Slot, Context, known, bytes_of, device, capacity, fits, Choice, cpu_fallback_available, choose,
  engine_for, same_slot,
}
use hetero_accel.Planner.Plan.Notes.{
  blank_plan, unsupported_plan, reason_index, has_reason, add_reason, warn, when, rejections,
  fail_with_rejections, is_unknown_quantization, noted_plan, above_ceiling, finish_context,
  note_rejections, unknown_memory_plan, only_annotated, not_chosen_plan,
}

abbrev pub with_fallback : Context → ModelExecutionPlan → ModelExecutionPlan
with_fallback c plan = record plan {
  fallback = if cpu_fallback_available c then ExecutionStrategy.cpu_fallback else plan.fallback;
}

abbrev pub is_cuda : ExecutionMode → Bool
is_cuda ExecutionMode.cuda = true
is_cuda _ = false

abbrev pub is_vulkan : ExecutionMode → Bool
is_vulkan ExecutionMode.vulkan = true
is_vulkan _ = false

pub full_plan : Context → Choice → Candidate → ModelExecutionPlan → ModelExecutionPlan
full_plan c choice engine plan =
    let p1 = when (is_cuda choice.mode) (add_reason PlanReason.cuda_feasible) plan in
    let p2 = when (is_vulkan choice.mode) (add_reason PlanReason.vulkan_feasible) p1 in
    let p3 = add_reason PlanReason.accelerator_memory_sufficient p2 in
    let p4 : ModelExecutionPlan = record p3 {
      gpu_layer_budget = elim c.requirements.layer_count [
        | none ↦ p3.gpu_layer_budget
        | some n ↦ some n
      ];
    } in
    record (with_fallback c p4) {
      explanation = Explanation.full_residency_selected choice.mode engine.key;
    }

pub partial_plan : Context → Choice → Candidate → ModelExecutionPlan → ModelExecutionPlan
partial_plan c choice engine plan =
    let p1 =
      add_reason PlanReason.partial_residency
        (add_reason PlanReason.accelerator_memory_insufficient plan) in
    let p2 = when (same_slot choice.slot Slot.cuda) (add_reason PlanReason.cuda_feasible) p1 in
    let p3 = when (same_slot choice.slot Slot.vulkan) (add_reason PlanReason.vulkan_feasible) p2 in
    let layers = partial_layers c.requirements plan.memory_budget_bytes c.model_bytes in
    let p4 : ModelExecutionPlan = record p3 {
      gpu_layer_budget = if ltb 0 layers then some layers else p3.gpu_layer_budget;
    } in
    record (with_fallback c p4) { explanation = Explanation.partial_residency_selected engine.key }

pub streaming_plan : Context → ModelExecutionPlan → ModelExecutionPlan
streaming_plan c plan =
    let p1 = add_reason PlanReason.future_capability (
      add_reason PlanReason.streaming_required
        (add_reason PlanReason.accelerator_memory_insufficient plan)) in
    warn Warning.streaming_is_plan_only (record (with_fallback c p1) {
      executable = false;
      explanation = Explanation.streaming_needs_support;
    })

pub cpu_plan : Context → Candidate → ModelExecutionPlan → ModelExecutionPlan
cpu_plan c engine plan =
    let p1 : ModelExecutionPlan = record (add_reason PlanReason.cpu_fallback plan) {
      gpu_layer_budget = some 0;
    } in
    let p2 =
      when (not (device_usable (device c Slot.vulkan))) (warn Warning.vulkan_not_usable) p1 in
    let p3 = when (not (device_usable (device c Slot.cuda))) (warn Warning.cuda_not_usable) p2 in
    record p3 { explanation = Explanation.cpu_fallback_selected engine.key }

abbrev pub is_streaming : ExecutionStrategy → Bool
is_streaming ExecutionStrategy.streaming = true
is_streaming _ = false

-- The plan for a choice and the engine that carries it.
pub chosen_plan : Context → Choice → Candidate → ModelExecutionPlan → ModelExecutionPlan
unfolding full_plan partial_plan streaming_plan cpu_plan
chosen_plan c choice engine plan =
    let placed : ModelExecutionPlan = record plan {
      viable = true;
      executable = choice.executable;
      engine_key = engine.key;
      mode = choice.mode;
      residency = choice.residency;
      confidence = choice.confidence;
      memory_budget_bytes = capacity (device c choice.slot);
      streaming_required = is_streaming choice.residency;
    } in
    let explained : ModelExecutionPlan = elim choice.residency [
      | ExecutionStrategy.full_resident ↦ full_plan c choice engine placed
      | ExecutionStrategy.partial_resident ↦ partial_plan c choice engine placed
      | ExecutionStrategy.streaming ↦ streaming_plan c placed
      | ExecutionStrategy.cpu_fallback ↦ cpu_plan c engine placed
      | _ ↦ placed
    ] in
    when (not (device_usable (device c Slot.cuda)) && has engine.caps EngineCapability.backend_cuda)
      (warn Warning.cuda_advertised_but_unavailable) explained

abbrev pub any_eligible : List Candidate → Bool
any_eligible [] = false
any_eligible (x ∷ xs) = x.eligible || any_eligible xs

-- From the point where the candidates are known.
pub plan_for : Context → ModelExecutionPlan
unfolding fail_with_rejections unknown_memory_plan noted_plan finish_context note_rejections
    not_chosen_plan chosen_plan
plan_for c =
    if not (any_eligible c.candidates)
    then fail_with_rejections c PlanReason.engine_unavailable Explanation.every_engine_rejected
    else if not c.memory_known
    then unknown_memory_plan c
    else let ready = finish_context c (note_rejections c (noted_plan c)) in
      elim (choose c) [
        | none ↦ not_chosen_plan c ready
        | some choice ↦ elim (engine_for c choice) [
          | none ↦
              fail_with_rejections c PlanReason.engine_unavailable
                Explanation.backend_not_advertised
          | some engine ↦ chosen_plan c choice engine ready
        ]
      ]

abbrev pub is_unknown_format : ModelFormat → Bool
is_unknown_format ModelFormat.unknown = true
is_unknown_format _ = false

pub make_context : ModelRequirements → CapabilityReport → Registry → PlannerConfig → Context
unfolding judge_all
make_context requirements report registry config = record {
  requirements = requirements;
  report = report;
  config = config;
  candidates = judge_all requirements report registry;
  memory_known = known requirements.estimated_memory_bytes;
  model_bytes =
      if known requirements.estimated_memory_bytes
      then bytes_of requirements.estimated_memory_bytes
      else 0;
}

-- `ExecutionPlanner::plan`.
pub plan : ModelRequirements → CapabilityReport → Registry → PlannerConfig → ModelExecutionPlan
unfolding plan_for make_context unsupported_plan
plan requirements report registry config =
    if not config.allow_accelerator
      && not config.allow_partial_residency
      && not config.allow_streaming_plan
      && not config.allow_cpu_fallback
    then unsupported_plan PlanReason.invalid_configuration Explanation.every_strategy_disabled
    else if is_unknown_format requirements.format
    then warn Warning.format_unknown
        (unsupported_plan PlanReason.unsupported_model Explanation.format_missing)
    else if is_empty registry
    then record (unsupported_plan PlanReason.no_registered_engines
        Explanation.no_engines_registered) {
          estimated_model_memory_bytes =
              (make_context requirements report registry config).model_bytes;
        }
    else plan_for (make_context requirements report registry config)
