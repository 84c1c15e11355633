-- ===== src/Graph/Scheduler/Tests.antt =====
-- src/execution: a graph of two nodes that is built, run and failed.
use hetero_accel.Base.{
  ℕ, ◌≡◌, refl, sym, ◌∙◌, ◌⊎◌, inl, inr, true, false, none, some, List, [], ◌∷◌,
}
use hetero_accel.Base.Map.{Map, lookup, put}
use hetero_accel.ModelTypes.{ExecutionStrategy}
use hetero_accel.Planner.Types.{ExecutionMode, Explanation, ModelExecutionPlan}
use hetero_accel.Residency.Types.{Region, generic}
use hetero_accel.Graph.{
  Node, ExecutionGraph, empty_graph, cpu, synchronize, add_node, add_dependency, get_successors,
  contains,
}
use hetero_accel.Graph.Mirror.{Mirrored, empty-Mirrored, add_node-Mirrored, add_dependency-Mirrored}
use hetero_accel.Graph.Scheduler.{Tracker, start, fail_dependent_nodes}
use hetero_accel.Graph.Scheduler.Rounds.{Round, rounds}
use hetero_accel.Graph.Scheduler.Rounds.Rule.{OnSome}
use hetero_accel.Graph.Scheduler.Rounds.Predecessors.{Preceded, rounds-start-Preceded}
use hetero_accel.Graph.Scheduler.Rounds.Safety.{Exclusive, rounds-start-Exclusive}
use hetero_accel.Graph.Scheduler.Blocking.{Blocks, fail_dependent_nodes-Blocks}
use hetero_accel.Graph.Scheduler.Rounds.Known.{Mirrored-Closed}
use hetero_accel.Graph.{detect_cycle, detect_from, dfs, visit_all, unmarked, keys}
use hetero_accel.Graph.Cycles.{Cycle}
use hetero_accel.Graph.Cycles.Detect.{detect_cycle-Cycle}
use hetero_accel.Graph.Scheduler.Rounds.Settled.{Advances, rounds-start-Settled}

abbrev node : ℕ → Node
node n = record { id = n; name = "n"; work = synchronize; resource = cpu }

two_nodes : ExecutionGraph
two_nodes = (add_node (add_node empty_graph (some (node 1))).1 (some (node 2))).1

two_nodes-Mirrored : Mirrored two_nodes
unfolding two_nodes
two_nodes-Mirrored =
    add_node-Mirrored _ (some (node 2)) (add_node-Mirrored _ (some (node 1)) empty-Mirrored)

add_dependency-Mirrored_example :
    Mirrored (add_dependency two_nodes 1 2).1
    × ((add_dependency two_nodes 1 2).0 ≡ true
        → contains 2 (get_successors (add_dependency two_nodes 1 2).1 1) ≡ true)
add_dependency-Mirrored_example = add_dependency-Mirrored two_nodes 1 2 two_nodes-Mirrored

linked : ExecutionGraph
linked = (add_dependency two_nodes 1 2).1

linked-Mirrored : Mirrored linked
unfolding linked
linked-Mirrored = (add_dependency-Mirrored two_nodes 1 2 two_nodes-Mirrored).0

abbrev first_fails : List Round
first_fails =
    record { is_cancelled = false; cancelled_at = λ id. false; results = (1, some "failed") ∷ [] }
    ∷ record { is_cancelled = true; cancelled_at = λ id. true; results = [] }
    ∷ []

rounds-start-Exclusive_example :
    OnSome (Exclusive linked) (rounds linked first_fails (start linked))
rounds-start-Exclusive_example = rounds-start-Exclusive linked first_fails

rounds-start-Preceded_example : OnSome (Preceded linked) (rounds linked first_fails (start linked))
rounds-start-Preceded_example = rounds-start-Preceded linked first_fails linked-Mirrored

fail_dependent_nodes-Blocks_example :
    let m = (start linked).tracker in
    (m' : Map Tracker) × (fail_dependent_nodes linked 1 "failed" m ≡ some m')
    × Blocks linked (get_successors linked 1) m m'
fail_dependent_nodes-Blocks_example =
    fail_dependent_nodes-Blocks linked 1 "failed" (start linked).tracker
      (Mirrored-Closed linked linked-Mirrored)

abbrev cpu_plan : ModelExecutionPlan
cpu_plan = record {
  viable = true;
  executable = true;
  engine_key = "llama";
  mode = ExecutionMode.cpu;
  residency = ExecutionStrategy.cpu_fallback;
  fallback = ExecutionStrategy.auto;
  streaming_required = false;
  memory_budget_bytes = 40;
  estimated_model_memory_bytes = 40;
  gpu_layer_budget = none;
  context_limit = none;
  confidence = 80;
  reasons = [];
  explanation = Explanation.none_given;
  warnings = [];
  rejected_engines = [];
}

abbrev region : Region
region = record {
  id = 1;
  offset = 0;
  size = 40;
  identifier = "r";
  kind = generic;
  layer = 0;
  tensor = 0;
}

looped : ExecutionGraph
looped = (add_dependency linked 2 1).1

looped-Mirrored : Mirrored looped
unfolding looped
looped-Mirrored = (add_dependency-Mirrored linked 2 1 linked-Mirrored).0

detect_cycle-Cycle_example :
    ((detect_cycle looped ≡ some true) × Cycle looped)
    ⊎ ((detect_cycle looped ≡ some false) × ¬ Cycle looped)
detect_cycle-Cycle_example = detect_cycle-Cycle looped looped-Mirrored

detect_looped : detect_cycle looped ≡ some true
unfolding looped linked detect_cycle detect_from dfs visit_all unmarked keys add_dependency lookup
    put two_nodes add_node
detect_looped = refl

detect_linked : detect_cycle linked ≡ some false
unfolding looped linked detect_cycle detect_from dfs visit_all unmarked keys add_dependency lookup
    put two_nodes add_node
detect_linked = refl

linked_acyclic : ¬ Cycle linked
linked_acyclic = elim (detect_cycle-Cycle linked linked-Mirrored) [
  | inl (e, c) ↦ λ c. let e' : some false ≡ some true = sym detect_linked ∙ e in cc
  | inr (e, acyclic) ↦ acyclic
]

rounds-start-Settled_example : OnSome (Advances linked) (rounds linked first_fails (start linked))
rounds-start-Settled_example =
    rounds-start-Settled linked first_fails linked-Mirrored linked_acyclic
