-- ===== src/Planner/Plan/Notes.antt =====
-- src/planner/ExecutionPlanner.cpp: the notes on a plan, and the plans for what is refused.
use hetero_accel.Base.{
  ℕ, Bool, true, false, not, ◌&&◌, ◌||◌, Option, none, some, List, [], ◌∷◌, ◌++◌, ltb, ◌==◌,
  if◌then◌else◌,
}
use hetero_accel.ModelTypes.{ExecutionStrategy}
use hetero_accel.Planner.Types.{
  QuantizationType, ExecutionMode, PlanReason, Explanation, Warning, Rejection, ModelExecutionPlan,
}
use hetero_accel.Planner.{device_usable, Candidate, is_empty}
use hetero_accel.Planner.Plan.{Slot, Context, device, fits}

-- The member initialisers of `ModelExecutionPlan`.
unfoldable pub blank_plan : ModelExecutionPlan
blank_plan = record {
  viable = false;
  executable = false;
  engine_key = "";
  mode = ExecutionMode.unsupported;
  residency = ExecutionStrategy.auto;
  fallback = ExecutionStrategy.auto;
  streaming_required = false;
  memory_budget_bytes = 0;
  estimated_model_memory_bytes = 0;
  gpu_layer_budget = none;
  context_limit = none;
  confidence = 0;
  reasons = [];
  explanation = Explanation.none_given;
  warnings = [];
  rejected_engines = [];
}

unfoldable pub unsupported_plan : PlanReason → Explanation → ModelExecutionPlan
unfolding blank_plan
unsupported_plan reason explanation = record blank_plan {
  reasons = reason ∷ [];
  explanation = explanation;
}

-- The place of a reason in its enumeration.
abbrev pub reason_index : PlanReason → ℕ
reason_index PlanReason.vulkan_feasible = 0
reason_index PlanReason.cuda_feasible = 1
reason_index PlanReason.accelerator_memory_sufficient = 2
reason_index PlanReason.accelerator_memory_insufficient = 3
reason_index PlanReason.engine_unavailable = 4
reason_index PlanReason.engine_rejected = 5
reason_index PlanReason.cpu_fallback = 6
reason_index PlanReason.streaming_required = 7
reason_index PlanReason.unsupported_model = 8
reason_index PlanReason.unknown_memory = 9
reason_index PlanReason.insufficient_ram = 10
reason_index PlanReason.no_registered_engines = 11
reason_index PlanReason.invalid_configuration = 12
reason_index PlanReason.contradictory_capability = 13
reason_index PlanReason.future_capability = 14
reason_index PlanReason.partial_residency = 15
reason_index PlanReason.quantization_unknown = 16

unfoldable pub has_reason : List PlanReason → PlanReason → Bool
has_reason [] reason = false
has_reason (r ∷ rs) reason = reason_index r == reason_index reason || has_reason rs reason

abbrev pub add_reason : PlanReason → ModelExecutionPlan → ModelExecutionPlan
add_reason reason plan = record plan {
  reasons = if has_reason plan.reasons reason then plan.reasons else plan.reasons ++ reason ∷ [];
}

abbrev pub warn : Warning → ModelExecutionPlan → ModelExecutionPlan
warn w plan = record plan { warnings = plan.warnings ++ w ∷ [] }

abbrev pub when :
    Bool → (ModelExecutionPlan → ModelExecutionPlan) → ModelExecutionPlan → ModelExecutionPlan
when true f plan = f plan
when false f plan = plan

unfoldable pub rejections : List Candidate → List Rejection
rejections [] = []
rejections (c ∷ cs) = if c.eligible then rejections cs else c.rejection ∷ rejections cs

unfoldable pub fail_with_rejections : Context → PlanReason → Explanation → ModelExecutionPlan
unfolding unsupported_plan rejections
fail_with_rejections c reason explanation =
    let rejected = rejections c.candidates in
    when (not (is_empty rejected)) (add_reason PlanReason.engine_rejected)
      (record (unsupported_plan reason explanation) {
        estimated_model_memory_bytes = c.model_bytes;
        rejected_engines = rejected;
      })

abbrev pub is_unknown_quantization : QuantizationType → Bool
is_unknown_quantization QuantizationType.unknown = true
is_unknown_quantization _ = false

-- The plan as it stands before a placement is sought.
unfoldable pub noted_plan : Context → ModelExecutionPlan
unfolding blank_plan fits
noted_plan c =
    when
      (c.report.full_residency_feasible
        && not (fits c Slot.cpu || fits c Slot.vulkan || fits c Slot.cuda))
      (λ p.
        warn Warning.report_contradicts_devices (add_reason PlanReason.contradictory_capability p))
      (when (is_unknown_quantization c.requirements.quantization)
        (λ p. warn Warning.quantization_is_unknown (add_reason PlanReason.quantization_unknown p))
        (record blank_plan { estimated_model_memory_bytes = c.model_bytes }))

-- `!plan.context_limit || *plan.context_limit > config.context_ceiling`.
abbrev pub above_ceiling : ℕ → Option ℕ → Bool
above_ceiling ceiling none = true
above_ceiling ceiling (some limit) = ltb ceiling limit

unfoldable pub finish_context : Context → ModelExecutionPlan → ModelExecutionPlan
finish_context c plan =
    if ltb 0 c.config.context_ceiling
      && above_ceiling c.config.context_ceiling c.requirements.context_length
    then warn Warning.context_clamped
        (record plan { context_limit = some c.config.context_ceiling })
    else record plan {
      context_limit = elim c.requirements.context_length [
        | none ↦ plan.context_limit
        | some l ↦ some l
      ];
    }

unfoldable pub note_rejections : Context → ModelExecutionPlan → ModelExecutionPlan
unfolding rejections
note_rejections c plan = record plan {
  rejected_engines = plan.rejected_engines ++ rejections c.candidates;
}

unfoldable pub unknown_memory_plan : Context → ModelExecutionPlan
unfolding noted_plan note_rejections finish_context
unknown_memory_plan c = finish_context c (
    note_rejections c (
      warn Warning.memory_missing (record (add_reason PlanReason.unknown_memory (noted_plan c)) {
        viable = false;
        executable = false;
        mode = ExecutionMode.unsupported;
        explanation = Explanation.memory_requirement_unknown;
      })))

-- `plan.reasons.empty()`, or the first reason is one of the two that only annotate.
abbrev pub only_annotated : List PlanReason → Bool
only_annotated [] = true
only_annotated (PlanReason.quantization_unknown ∷ rs) = true
only_annotated (PlanReason.contradictory_capability ∷ rs) = true
only_annotated _ = false

unfoldable pub not_chosen_plan : Context → ModelExecutionPlan → ModelExecutionPlan
not_chosen_plan c plan =
    let p1 =
      when (not (fits c Slot.cpu) && device_usable (device c Slot.cpu))
        (add_reason PlanReason.insufficient_ram)
        (record plan { viable = false; executable = false; mode = ExecutionMode.unsupported }) in
    let p2 =
      when
        (not (device_usable (device c Slot.cpu))
          && not (device_usable (device c Slot.vulkan))
          && not (device_usable (device c Slot.cuda)))
        (add_reason PlanReason.engine_unavailable) p1 in
    let p3 = when (only_annotated p2.reasons) (add_reason PlanReason.engine_unavailable) p2 in
    record p3 { explanation = Explanation.no_engine_can_execute; confidence = 0 }
