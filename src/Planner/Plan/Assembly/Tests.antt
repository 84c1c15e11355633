-- ===== src/Planner/Plan/Assembly/Tests.antt =====
-- src/planner/ExecutionPlanner.cpp: plans for small models.
use hetero_accel.Base.{
  ◌-◌, ◌^◌, ◌≤◌, ◌<◌, ◌≡◌, refl, true, false, none, some, [], ◌∷◌, arith, is_some,
}
use hetero_accel.Planner.Types.{ExecutionMode, no_rejection}
use hetero_accel.Planner.{Candidate, select_engine, partial_layers}
use hetero_accel.Planner.Engines.{
  any_serves, serves_option, From, select_engine-Selects, partial_layers-IsPartial,
}
use hetero_accel.Planner.Plan.{Slot, Context, choose, cpu_fallback_available}
use hetero_accel.Planner.Plan.Choices.{full_possible, full_choice, choose-Prefers}
use hetero_accel.Planner.Plan.Assembly.{make_context, plan}
use hetero_accel.Planner.Plan.Assembly.Samples.{requirements, report, registry, config}
use hetero_accel.Planner.Plan.Assembly.Decisions.{Honest, plan-Honest}

plan-Honest_example :
    Honest
      (make_context requirements report registry config)
      (plan requirements report registry config)
plan-Honest_example = plan-Honest requirements report registry config

abbrev candidate : Candidate
candidate = record { key = "llama"; caps = 2 ^ 20 - 1; eligible = true; rejection = no_rejection }

select_engine-Selects_example :
    let cs = candidate ∷ [] in
    (is_some (select_engine cs ExecutionMode.cpu) ≡ any_serves ExecutionMode.cpu cs)
    × ((serves_option ExecutionMode.cpu (select_engine cs ExecutionMode.cpu) ≡ true)
        × From cs none (select_engine cs ExecutionMode.cpu))
select_engine-Selects_example = select_engine-Selects (candidate ∷ []) ExecutionMode.cpu

partial_layers-IsPartial_example :
    (1 ≤ partial_layers requirements 600 1000) × (partial_layers requirements 600 1000 < 10)
partial_layers-IsPartial_example =
    partial_layers-IsPartial requirements 10 600 1000 refl (omega arith) (omega arith)

abbrev context : Context
context = record {
  requirements = requirements;
  report = report;
  config = config;
  candidates = candidate ∷ [];
  memory_known = true;
  model_bytes = 1000;
}

choose-Prefers_example :
    (full_possible context ExecutionMode.cuda Slot.cuda ≡ true
      → choose context ≡ some (full_choice ExecutionMode.cuda Slot.cuda))
    × ((full_possible context ExecutionMode.cuda Slot.cuda ≡ false
          → full_possible context ExecutionMode.vulkan Slot.vulkan ≡ true
          → choose context ≡ some (full_choice ExecutionMode.vulkan Slot.vulkan))
        × (choose context ≡ none
            → (full_possible context ExecutionMode.cuda Slot.cuda ≡ false)
              × ((full_possible context ExecutionMode.vulkan Slot.vulkan ≡ false)
                  × (cpu_fallback_available context ≡ false))))
choose-Prefers_example = choose-Prefers context
