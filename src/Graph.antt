-- ===== src/Graph.antt =====
-- src/execution/ExecutionGraph.cpp, ExecutionTypes.h and ExecutionNodes.h: the execution graph.
pub mod Ids
pub mod Mirror
pub mod Cycles
pub mod Scheduler
pub mod Builder
use hetero_accel.Base.{
  ℕ, zero, suc, ◌+◌, ◌-◌, ◌*◌, ◌/◌, ◌%◌, ◌^◌, ◌≤◌, ◌<◌, min, max, ◌≡◌, refl, sym, ap, ◌∙◌, subst,
  ◌≢◌, ◌⊎◌, inl, inr, Bool, true, false, not, ◌&&◌, ◌||◌, Option, none, some, List, [], ◌∷◌, ◌++◌,
  map, arith, ltb, leb, ◌==◌, if◌then◌else◌, is_some, ==→≡, ==_self, Bool-cases, Option-cases,
  length, All, length-append, take, take-take, u64_mod, u32_mod, add64, mul64,
}
use hetero_accel.Base.Map.{
  Map, lookup, put, erase, Distinct, Each, total, lookup-put, lookup-erase, put-Distinct,
  erase-Distinct, total-put_old, total-put_new, total-erase, length-erase, total-get,
  total-le-length, Each-map, Each-lookup, Each-put, Each-erase,
}
use Prim.Native.String.{String}
use hetero_accel.Residency.Types.{Region, Target}

pub data ExecutionNodeType : Type 0 where
  compute data_read data_write transfer residency prefetch : ExecutionNodeType
  eviction synchronization barrier custom : ExecutionNodeType

pub data ExecutionResource : Type 0 where
  cpu vulkan cuda npu main_memory ssd no_resource : ExecutionResource

pub data GraphNodeState : Type 0 where
  created ready running completed failed cancelled blocked skipped : GraphNodeState

-- What a node does when it is executed, with what its class stores for it.
pub data Work : Type 0 where
  bring_region : Region → Target → Work
  run_engine : String → Work
  synchronize : Work

-- `ResidencyNode`, `ComputeNode` and `SynchronizationNode`.
pub record Node : Type 0 where
  pub id : ℕ
  pub name : String
  pub work : Work
  pub resource : ExecutionResource

pub get_type : Node → ExecutionNodeType
get_type n = elim n.work [
  | bring_region r t ↦ ExecutionNodeType.residency
  | run_engine p ↦ ExecutionNodeType.compute
  | synchronize ↦ ExecutionNodeType.synchronization
]

pub record ExecutionGraph : Type 0 where
  pub nodes : Map Node
  pub adj : Map (List ℕ)
  pub rev_adj : Map (List ℕ)

abbrev pub empty_graph : ExecutionGraph
empty_graph = record { nodes = []; adj = []; rev_adj = [] }

abbrev pub listed_at : ℕ → Map (List ℕ) → List ℕ
listed_at id m = elim (lookup id m) [ none ↦ [] | some xs ↦ xs ]

pub get_predecessors : ExecutionGraph → ℕ → List ℕ
get_predecessors g id = listed_at id g.rev_adj

pub get_successors : ExecutionGraph → ℕ → List ℕ
get_successors g id = listed_at id g.adj

pub get_node : ExecutionGraph → ℕ → Option Node
get_node g id = lookup id g.nodes

-- An entry for the node, if there is none.
abbrev pub with_entry : ℕ → Map (List ℕ) → Map (List ℕ)
with_entry id m = if is_some (lookup id m) then m else put id [] m

-- A null node gives 0 and is not added.
pub add_node : ExecutionGraph → Option Node → ℕ × ExecutionGraph
add_node g none = (0, g)
add_node g (some n) = (
  n.id,
  record {
    nodes = put n.id n g.nodes;
    adj = with_entry n.id g.adj;
    rev_adj = with_entry n.id g.rev_adj;
  },
)

abbrev pub contains : ℕ → List ℕ → Bool
contains x [] = false
contains x (y ∷ ys) = (y == x) || contains x ys

-- `push_back`, unless it is there.
abbrev pub insert_new : ℕ → List ℕ → List ℕ
insert_new x xs = if contains x xs then xs else xs ++ x ∷ []

pub add_dependency : ExecutionGraph → ℕ → ℕ → Bool × ExecutionGraph
unfolding get_predecessors get_successors
add_dependency g predecessor successor =
    if not (is_some (lookup predecessor g.nodes)) || not (is_some (lookup successor g.nodes))
    then (false, g)
    else (
      true,
      record g {
        adj = put predecessor (insert_new successor (get_successors g predecessor)) g.adj;
        rev_adj = put successor (insert_new predecessor (get_predecessors g successor)) g.rev_adj;
      },
    )

pub insert_id : ℕ → List ℕ → List ℕ
insert_id x [] = x ∷ []
insert_id x (y ∷ ys) = if ltb x y then x ∷ y ∷ ys else y ∷ insert_id x ys

pub sort_ids : List ℕ → List ℕ
unfolding insert_id
sort_ids [] = []
sort_ids (x ∷ xs) = insert_id x (sort_ids xs)

pub keys : Map Node → List ℕ
keys [] = []
keys ((id, n) ∷ m) = id ∷ keys m

pub get_all_node_ids : ExecutionGraph → List ℕ
unfolding sort_ids keys
get_all_node_ids g = sort_ids (keys g.nodes)

-- The marks of the depth-first search, and what a search returns: whether it met a cycle. Without
-- fuel it returns none.
pub data Mark : Type 0 where
  unvisited visiting visited : Mark

abbrev pub Search : Type 0
Search = Option (Bool × Map Mark)

-- `state[next_id]`: a node that has no entry counts as unvisited.
abbrev pub mark_of : ℕ → Map Mark → Mark
mark_of id st = elim (lookup id st) [ none ↦ unvisited | some k ↦ k ]

-- The loop over the successors, with the search of one node.
pub visit_all : (ℕ → Map Mark → Search) → List ℕ → Map Mark → Search
visit_all visit [] st = some (false, st)
visit_all visit (n ∷ ns) st = elim (mark_of n st) [
  | visiting ↦ some (true, st)
  | visited ↦ visit_all visit ns st
  | unvisited ↦ elim (visit n st) [
    | none ↦ none
    | some (true, st') ↦ some (true, st')
    | some (false, st') ↦ visit_all visit ns st'
  ]
]

pub dfs : ℕ → ExecutionGraph → ℕ → Map Mark → Search
unfolding visit_all
dfs zero g id st = none
dfs (suc k) g id st = elim (visit_all (dfs k g) (get_successors g id) (put id visiting st)) [
  | none ↦ none
  | some (true, st') ↦ some (true, st')
  | some (false, st') ↦ some (false, put id visited st')
]

-- The loop of `detectCycle`, in the map's order of iteration.
pub detect_from : ExecutionGraph → List ℕ → Map Mark → Option Bool
unfolding dfs
detect_from g [] st = some false
detect_from g (n ∷ ns) st = elim (mark_of n st) [
  | unvisited ↦ elim (dfs (suc (length g.nodes)) g n st) [
    | none ↦ none
    | some (true, st') ↦ some true
    | some (false, st') ↦ detect_from g ns st'
  ]
  | _ ↦ detect_from g ns st
]

pub unmarked : List ℕ → Map Mark
unmarked [] = []
unmarked (id ∷ ids) = put id unvisited (unmarked ids)

-- Fuel: a search goes down at most once for each node.
pub detect_cycle : ExecutionGraph → Option Bool
unfolding detect_from unmarked keys
detect_cycle g = detect_from g (keys g.nodes) (unmarked (keys g.nodes))

pub data GraphError : Type 0 where
  no_error graph_is_empty cycle_detected : GraphError

pub validate : ExecutionGraph → Option (Bool × GraphError)
unfolding detect_cycle
validate g = elim g.nodes [
  | [] ↦ some (true, graph_is_empty)
  | e ∷ es ↦ elim (detect_cycle g) [
    | none ↦ none
    | some true ↦ some (false, cycle_detected)
    | some false ↦ some (true, no_error)
  ]
]
