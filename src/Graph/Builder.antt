-- ===== src/Graph/Builder.antt =====
-- src/execution/ExecutionGraphBuilder.cpp: the graph for a plan. `next_id_` is kept from one call
-- to the next, and so is what a call has added before it fails.
pub mod Shape
pub mod Edges
use hetero_accel.Base.{
  ℕ, zero, suc, ◌+◌, ◌-◌, ◌*◌, ◌/◌, ◌%◌, ◌^◌, ◌≤◌, ◌<◌, min, max, ◌≡◌, refl, sym, ap, ◌∙◌, subst,
  ◌≢◌, ◌⊎◌, inl, inr, Bool, true, false, not, ◌&&◌, ◌||◌, Option, none, some, List, [], ◌∷◌, ◌++◌,
  map, arith, ltb, leb, ◌==◌, if◌then◌else◌, is_some, ==→≡, ==_self, Bool-cases, Option-cases,
  length, All, length-append, take, take-take, u64_mod, u32_mod, add64, mul64,
}
use hetero_accel.Base.Map.{
  Map, lookup, put, erase, Distinct, Each, total, lookup-put, lookup-erase, put-Distinct,
  erase-Distinct, total-put_old, total-put_new, total-erase, length-erase, total-get,
  total-le-length, Each-map, Each-lookup, Each-put, Each-erase,
}
use Prim.Native.String.{String}
use Prim.Native.String.{◌++◌ as append_text}
use hetero_accel.ModelTypes.{ExecutionStrategy}
use hetero_accel.Residency.Types.{Region, Target, ram, accelerator}
use hetero_accel.Planner.Types.{ExecutionMode, ModelExecutionPlan}
use hetero_accel.Graph.{
  ExecutionResource, cpu, vulkan, cuda, main_memory, no_resource, bring_region, run_engine,
  synchronize, Node, ExecutionGraph, add_node, add_dependency, validate, GraphError,
}

pub data BuildError : Type 0 where
  unsupported_plan strategy_not_modeled : BuildError
  validated : GraphError → BuildError

pub compute_resource : ExecutionMode → ExecutionResource
compute_resource ExecutionMode.vulkan = vulkan
compute_resource ExecutionMode.cuda = cuda
compute_resource _ = cpu

abbrev pub residency_resource : ExecutionResource → ExecutionResource
residency_resource cpu = main_memory
residency_resource r = r

abbrev pub residency_target : ExecutionResource → Target
residency_target cpu = ram
residency_target _ = accelerator

-- The target and the resource of the residency nodes: none if the strategy has no such nodes, and
-- none around that if the strategy is not supported.
unfoldable pub residency_of :
    ExecutionStrategy → ExecutionMode → Option (Option (Target × ExecutionResource))
unfolding compute_resource
residency_of ExecutionStrategy.full_resident mode =
    some
      (some (residency_target (compute_resource mode), residency_resource (compute_resource mode)))
residency_of ExecutionStrategy.auto mode =
    some
      (some (residency_target (compute_resource mode), residency_resource (compute_resource mode)))
residency_of ExecutionStrategy.partial_resident mode = some (some (ram, main_memory))
residency_of ExecutionStrategy.hybrid mode = some (some (ram, main_memory))
residency_of ExecutionStrategy.cpu_fallback mode = some (some (ram, main_memory))
residency_of ExecutionStrategy.streaming mode = some none
residency_of _ mode = none

-- The loop that adds the residency nodes: their ids, the next id and the graph.
pub add_residency :
    Target → ExecutionResource → List Region → ℕ → ExecutionGraph → List ℕ × ℕ × ExecutionGraph
add_residency target res [] next g = ([], next, g)
add_residency target res (r ∷ rs) next g =
    let n : Node = record {
      id = next;
      name = append_text "Residency_" r.identifier;
      work = bring_region r target;
      resource = res;
    } in
    let (ids, next', g') = add_residency target res rs (add64 next 1) (add_node g (some n)).1 in
    (next ∷ ids, next', g')

pub add_dependencies : List ℕ → ℕ → ExecutionGraph → ExecutionGraph
add_dependencies [] successor g = g
add_dependencies (id ∷ ids) successor g =
    add_dependencies ids successor (add_dependency g id successor).1

-- The barrier and the compute node behind the residency nodes.
pub add_compute : ModelExecutionPlan → String → List ℕ → ℕ → ExecutionGraph → ℕ × ExecutionGraph
unfolding add_dependencies compute_resource
add_compute plan prompt ids next g =
    let sync : Node = record {
      id = next;
      name = "Sync_Data_Ready";
      work = synchronize;
      resource = no_resource;
    } in
    let compute : Node = record {
      id = add64 next 1;
      name = "Engine_Compute";
      work = run_engine prompt;
      resource = compute_resource plan.mode;
    } in
    let g' = add_dependencies ids next (add_node g (some sync)).1 in
    (add64 next 2, (add_dependency (add_node g' (some compute)).1 next (add64 next 1)).1)

pub residency_nodes :
    Option (Target × ExecutionResource)
    → List Region
    → ℕ
    → ExecutionGraph
    → List ℕ × ℕ × ExecutionGraph
unfolding add_residency
residency_nodes none regions next g = ([], next, g)
residency_nodes (some (target, res)) regions next g = add_residency target res regions next g

abbrev pub is_unsupported : ExecutionMode → Bool
is_unsupported ExecutionMode.unsupported = true
is_unsupported _ = false

-- `ExecutionGraphBuilder::build`: the result, the next id and the graph. The fuel of the validation is
-- passed on.
pub build :
    ModelExecutionPlan
    → List Region
    → String
    → ℕ
    → ExecutionGraph
    → Option (Bool × BuildError) × ℕ × ExecutionGraph
unfolding residency_of residency_nodes add_compute
build plan regions prompt next g =
    if not plan.viable || is_unsupported plan.mode
    then (some (false, unsupported_plan), next, g)
    else elim (residency_of plan.residency plan.mode) [
      | none ↦ (some (false, strategy_not_modeled), next, g)
      | some wanted ↦
          let (ids, next', g') = residency_nodes wanted regions next g in
          let (next'', g'') = add_compute plan prompt ids next' g' in
          (validated_by (validate g''), next'', g'')
    ]
  where
    validated_by : Option (Bool × GraphError) → Option (Bool × BuildError)
    validated_by none = none
    validated_by (some (ok, e)) = some (ok, validated e)
