-- ===== src/Graph/Scheduler/Rounds/Tests.antt =====
-- src/execution/ExecutionGraphScheduler.cpp: a graph of two nodes that both succeed.
use hetero_accel.Base.{ℕ, ◌≡◌, refl, true, false, none, some, List, [], ◌∷◌, map, All}
use hetero_accel.Base.Map.{lookup, put}
use hetero_accel.Graph.{
  Node, ExecutionGraph, empty_graph, cpu, synchronize, add_node, add_dependency, get_all_node_ids,
  get_type, completed, validate, detect_cycle, detect_from, dfs, visit_all, unmarked, keys,
  sort_ids, insert_id, get_successors, get_predecessors, get_node,
}
use hetero_accel.Graph.Mirror.{Mirrored, empty-Mirrored, add_node-Mirrored, add_dependency-Mirrored}
use hetero_accel.Graph.Scheduler.{
  NodeResult, no_reason, dispatch_all, dispatch, complete, count_down_all, count_down, start,
  start_tracker, check_resource_available,
}
use hetero_accel.Graph.Scheduler.Rounds.{
  Round, NodeTelemetry, ExecutionGraphResult, RunError, execute, rounds, round, complete_all,
  result_of, all_done, collect, any_busy,
}
use hetero_accel.Graph.Scheduler.Rounds.Success.{execute-success}

step : ℕ → Node
step n = record { id = n; name = "n"; work = synchronize; resource = cpu }

chain : ExecutionGraph
unfolding step
chain = (add_dependency (add_node (add_node empty_graph (some (step 1))).1 (some (step 2))).1 1 2).1

chain-Mirrored : Mirrored chain
unfolding chain
chain-Mirrored =
    (add_dependency-Mirrored _ 1 2
      (add_node-Mirrored _ (some (step 2)) (add_node-Mirrored _ (some (step 1)) empty-Mirrored))).0

one_round : List (ℕ × NodeResult) → Round
one_round rs = record { is_cancelled = false; cancelled_at = λ id. false; results = rs }

both_succeed : List Round
both_succeed = one_round ((1, none) ∷ []) ∷ one_round ((2, none) ∷ []) ∷ one_round [] ∷ []

entry : ℕ → NodeTelemetry
entry n = record {
  node_id = n;
  type = get_type (step n);
  resource = cpu;
  final_state = completed;
  success = true;
  failure_reason = no_reason;
}

both_completed : ExecutionGraphResult
both_completed = record {
  success = true;
  error = RunError.no_error;
  telemetry = entry 1 ∷ entry 2 ∷ [];
}

execute_both : execute chain both_succeed ≡ some both_completed
unfolding chain both_succeed both_completed one_round entry execute rounds round complete_all
    dispatch_all dispatch complete count_down_all count_down start start_tracker result_of all_done
    collect any_busy validate detect_cycle detect_from dfs visit_all unmarked keys get_all_node_ids
    sort_ids insert_id add_dependency add_node get_successors get_predecessors get_node lookup put
    step check_resource_available
execute_both = refl

execute-success_example :
    (map (λ (e : NodeTelemetry). e.node_id) both_completed.telemetry ≡ get_all_node_ids chain)
    × All (λ e. (e.final_state ≡ completed) × (e.success ≡ true)) both_completed.telemetry
unfolding both_completed
execute-success_example =
    execute-success chain both_succeed both_completed chain-Mirrored execute_both refl
