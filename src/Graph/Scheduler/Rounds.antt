-- ===== src/Graph/Scheduler/Rounds.antt =====
-- src/execution/ExecutionGraphScheduler.cpp: the rounds of the main loop of `execute`, and its result.
pub mod Rule
pub mod Safety
pub mod Known
pub mod Order
pub mod After
pub mod Predecessors
pub mod Onward
pub mod Waiting
pub mod Progress
pub mod Settled
pub mod Success
mod Tests
use hetero_accel.Base.{
  ℕ, zero, suc, ◌+◌, ◌-◌, ◌*◌, ◌/◌, ◌%◌, ◌^◌, ◌≤◌, ◌<◌, min, max, ◌≡◌, refl, sym, ap, ◌∙◌, subst,
  ◌≢◌, ◌⊎◌, inl, inr, Bool, true, false, not, ◌&&◌, ◌||◌, Option, none, some, List, [], ◌∷◌, ◌++◌,
  map, arith, ltb, leb, ◌==◌, if◌then◌else◌, is_some, ==→≡, ==_self, Bool-cases, Option-cases,
  length, All, length-append, take, take-take, u64_mod, u32_mod, add64, mul64,
}
use hetero_accel.Base.Map.{
  Map, lookup, put, erase, Distinct, Each, total, lookup-put, lookup-erase, put-Distinct,
  erase-Distinct, total-put_old, total-put_new, total-erase, length-erase, total-get,
  total-le-length, Each-map, Each-lookup, Each-put, Each-erase,
}
use Prim.Native.String.{String}
use hetero_accel.Graph.{
  ExecutionResource, cpu, vulkan, cuda, npu, main_memory, ssd, no_resource, ExecutionNodeType,
  get_type, GraphNodeState, created, ready, running, completed, failed, cancelled, blocked, skipped,
  Node, ExecutionGraph, get_predecessors, get_successors, get_node, get_all_node_ids, validate,
  GraphError, contains,
}
use hetero_accel.Graph.Scheduler.{
  FailReason, Tracker, default_tracker, tracked, resource_index, users, is_shared,
  check_resource_available, is_open, is_ready, is_created, set_state, block_loop, edges,
  fail_dependent_nodes, Run, start_tracker, start, cancel_open, cancel, resource_of, dispatch,
  dispatch_all, count_down, count_down_all, NodeResult, drop_task, finish_task, complete,
}

-- The futures that are polled as ready in a round, in the order in which they are taken.
pub complete_all : ExecutionGraph → List (ℕ × NodeResult) → Run → Option Run
unfolding complete
complete_all g [] r = some r
complete_all g ((id, result) ∷ rs) r =
    let skip = complete_all g rs r in
    let taken : Option Run = elim (complete g id result r) [
      | none ↦ none
      | some r' ↦ complete_all g rs r'
    ] in
    if contains id r.active_tasks then taken else skip

-- What a round of the main loop meets: the flag at its top and at each node, and the results.
pub record Round : Type 0 where
  pub is_cancelled : Bool
  pub cancelled_at : ℕ → Bool
  pub results : List (ℕ × NodeResult)

pub round : ExecutionGraph → Round → Run → Option Run
unfolding cancel dispatch_all complete_all
round g d r =
    complete_all g d.results
      (dispatch_all g (get_all_node_ids g) d.cancelled_at (if d.is_cancelled then cancel r else r))

pub any_busy : Map Tracker → Bool
any_busy [] = false
any_busy ((id, t) ∷ m) = elim t.state [ ready ↦ true | running ↦ true | _ ↦ any_busy m ]

-- The main loop, for the rounds that are given: it ends when nothing is ready or running. The rounds
-- in which a future was waited for go on in any case.
pub rounds : ExecutionGraph → List Round → Run → Option Run
unfolding round any_busy
rounds g [] r = some r
rounds g (d ∷ ds) r =
    let waited =
      dispatch_all g (get_all_node_ids g) d.cancelled_at (if d.is_cancelled then cancel r else r) in
    elim (round g d r) [
      | none ↦ none
      | some r' ↦
          let rest = rounds g ds r' in
          if not (length waited.active_tasks == 0) || any_busy r'.tracker then rest else some r'
    ]

pub all_done : Map Tracker → Bool
all_done [] = true
all_done ((id, t) ∷ m) = elim t.state [
  | completed ↦ all_done m
  | skipped ↦ all_done m
  | cancelled ↦ all_done m
  | _ ↦ false
]

pub data RunError : Type 0 where
  no_error execution_cancelled not_all_completed : RunError
  invalid_graph : GraphError → RunError

pub record NodeTelemetry : Type 0 where
  pub node_id : ℕ
  pub type : ExecutionNodeType
  pub resource : ExecutionResource
  pub final_state : GraphNodeState
  pub success : Bool
  pub failure_reason : FailReason

pub record ExecutionGraphResult : Type 0 where
  pub success : Bool
  pub error : RunError
  pub telemetry : List NodeTelemetry

abbrev pub is_completed : GraphNodeState → Bool
is_completed completed = true
is_completed _ = false

pub collect : ExecutionGraph → List ℕ → Map Tracker → List NodeTelemetry
collect g [] m = []
collect g (id ∷ ids) m =
    let t = tracked id m in
    record {
      node_id = id;
      type = elim (get_node g id) [ none ↦ ExecutionNodeType.custom | some n ↦ get_type n ];
      resource = resource_of g id;
      final_state = t.state;
      success = is_completed t.state;
      failure_reason = t.fail_reason;
    }
    ∷ collect g ids m

pub result_of : ExecutionGraph → Run → ExecutionGraphResult
unfolding all_done collect
result_of g r =
    let done = all_done r.tracker in
    record {
      success = r.overall_success && done;
      error =
          if r.cancelled_message
          then RunError.execution_cancelled
          else if done
          then RunError.no_error
          else RunError.not_all_completed;
      telemetry = collect g (get_all_node_ids g) r.tracker;
    }

-- `ExecutionGraphScheduler::execute`, on the rounds that are given.
pub execute : ExecutionGraph → List Round → Option ExecutionGraphResult
unfolding rounds start result_of
execute g ds = elim (validate g) [
  | none ↦ none
  | some (false, e) ↦
      some (record { success = false; error = RunError.invalid_graph e; telemetry = [] })
  | some (true, e) ↦ elim (rounds g ds (start g)) [ none ↦ none | some r ↦ some (result_of g r) ]
]
