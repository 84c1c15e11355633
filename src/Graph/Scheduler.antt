-- ===== src/Graph/Scheduler.antt =====
-- src/execution/ExecutionGraphScheduler.cpp: the scheduler. `in_degree` is an `int` that starts at the
-- number of predecessors and only goes down: it is kept as that number and the number of times that
-- it went down, and it is zero when the two are the same. Start and end times are not modelled.
pub mod Blocking
pub mod Rounds
mod Tests
use hetero_accel.Base.{
  ℕ, zero, suc, ◌+◌, ◌-◌, ◌*◌, ◌/◌, ◌%◌, ◌^◌, ◌≤◌, ◌<◌, min, max, ◌≡◌, refl, sym, ap, ◌∙◌, subst,
  ◌≢◌, ◌⊎◌, inl, inr, Bool, true, false, not, ◌&&◌, ◌||◌, Option, none, some, List, [], ◌∷◌, ◌++◌,
  map, arith, ltb, leb, ◌==◌, if◌then◌else◌, is_some, ==→≡, ==_self, Bool-cases, Option-cases,
  length, All, length-append, take, take-take, u64_mod, u32_mod, add64, mul64,
}
use hetero_accel.Base.Map.{
  Map, lookup, put, erase, Distinct, Each, total, lookup-put, lookup-erase, put-Distinct,
  erase-Distinct, total-put_old, total-put_new, total-erase, length-erase, total-get,
  total-le-length, Each-map, Each-lookup, Each-put, Each-erase,
}
use Prim.Native.String.{String}
use hetero_accel.Graph.{
  ExecutionResource, cpu, vulkan, cuda, npu, main_memory, ssd, no_resource, ExecutionNodeType,
  get_type, GraphNodeState, created, ready, running, completed, failed, cancelled, blocked, skipped,
  Node, ExecutionGraph, get_predecessors, get_successors, get_node, get_all_node_ids, validate,
  GraphError, contains,
}

-- The reason that a tracker holds: a node's own, or "Blocked by failure of predecessor: " and one.
pub data FailReason : Type 0 where
  no_reason : FailReason
  own blocked_by : String → FailReason

pub record Tracker : Type 0 where
  pub state : GraphNodeState
  pub predecessors : ℕ
  pub finished : ℕ
  pub fail_reason : FailReason

abbrev pub default_tracker : Tracker
default_tracker = record {
  state = created;
  predecessors = 0;
  finished = 0;
  fail_reason = no_reason;
}

-- `tracker[id]`.
abbrev pub tracked : ℕ → Map Tracker → Tracker
tracked id m = elim (lookup id m) [ none ↦ default_tracker | some t ↦ t ]

abbrev pub resource_index : ExecutionResource → ℕ
resource_index cpu = 0
resource_index vulkan = 1
resource_index cuda = 2
resource_index npu = 3
resource_index main_memory = 4
resource_index ssd = 5
resource_index no_resource = 6

-- `active_resources[res]`, and whether a node may use the resource now.
abbrev pub users : ExecutionResource → Map ℕ → ℕ
users res m = elim (lookup (resource_index res) m) [ none ↦ 0 | some n ↦ n ]

abbrev pub is_shared : ExecutionResource → Bool
is_shared cpu = true
is_shared no_resource = true
is_shared _ = false

pub check_resource_available : ExecutionResource → Map ℕ → Bool
check_resource_available res active = is_shared res || not (ltb 0 (users res active))

abbrev pub is_open : GraphNodeState → Bool
is_open created = true
is_open ready = true
is_open _ = false

abbrev pub is_ready : GraphNodeState → Bool
is_ready ready = true
is_ready _ = false

abbrev pub is_created : GraphNodeState → Bool
is_created created = true
is_created _ = false

abbrev pub set_state : GraphNodeState → ℕ → Map Tracker → Map Tracker
set_state s id m = put id (record (tracked id m) { state = s }) m

-- The loop of `failDependentNodes` over its queue. Without fuel it returns none.
pub block_loop : ℕ → ExecutionGraph → String → List ℕ → Map Tracker → Option (Map Tracker)
block_loop k g reason [] m = some m
block_loop zero g reason (x ∷ q) m = none
block_loop (suc k) g reason (x ∷ q) m =
    let on =
      block_loop k g reason (q ++ get_successors g x)
        (put x (record (tracked x m) { state = blocked; fail_reason = blocked_by reason }) m) in
    let off = block_loop k g reason q m in if is_open (tracked x m).state then on else off

-- The number of edges out of the nodes of a list.
pub edges : ExecutionGraph → List ℕ → ℕ
edges g [] = 0
edges g (x ∷ xs) = length (get_successors g x) + edges g xs

-- `failDependentNodes`.
pub fail_dependent_nodes : ExecutionGraph → ℕ → String → Map Tracker → Option (Map Tracker)
unfolding block_loop edges
fail_dependent_nodes g id reason m =
    block_loop (length (get_successors g id) + edges g (get_all_node_ids g)) g reason
      (get_successors g id) m

-- The variables of `execute`: `active_tasks` is the list of the ids that have a future.
pub record Run : Type 0 where
  pub tracker : Map Tracker
  pub active_resources : Map ℕ
  pub active_tasks : List ℕ
  pub overall_success : Bool
  pub cancelled_message : Bool

pub start_tracker : ExecutionGraph → List ℕ → Map Tracker
start_tracker g [] = []
start_tracker g (id ∷ ids) =
    let n = length (get_predecessors g id) in
    (
      id,
      record {
        state = if n == 0 then ready else created;
        predecessors = n;
        finished = 0;
        fail_reason = no_reason;
      },
    )
    ∷ start_tracker g ids

pub start : ExecutionGraph → Run
unfolding start_tracker
start g = record {
  tracker = start_tracker g (get_all_node_ids g);
  active_resources = [];
  active_tasks = [];
  overall_success = true;
  cancelled_message = false;
}

-- The first part of a round, if the flag is set.
pub cancel_open : Map Tracker → Map Tracker
cancel_open [] = []
cancel_open ((id, t) ∷ m) =
    (id, if is_open t.state then record t { state = cancelled } else t) ∷ cancel_open m

pub cancel : Run → Run
unfolding cancel_open
cancel r = record r {
  tracker = cancel_open r.tracker;
  overall_success = false;
  cancelled_message = true;
}

abbrev pub resource_of : ExecutionGraph → ℕ → ExecutionResource
resource_of g id = elim (get_node g id) [ none ↦ no_resource | some n ↦ n.resource ]

-- The dispatch of one node: the flag is read again for each node that is ready.
pub dispatch : ExecutionGraph → ℕ → Bool → Run → Run
unfolding check_resource_available
dispatch g id is_cancelled r =
    let res = resource_of g id in
    if is_ready (tracked id r.tracker).state
      && not is_cancelled
      && check_resource_available res r.active_resources
    then record r {
      tracker = set_state running id r.tracker;
      active_resources =
          put (resource_index res) (users res r.active_resources + 1) r.active_resources;
      active_tasks = id ∷ r.active_tasks;
    }
    else r

-- The loop over the ids, with what the flag reads at each.
pub dispatch_all : ExecutionGraph → List ℕ → (ℕ → Bool) → Run → Run
unfolding dispatch
dispatch_all g [] flag r = r
dispatch_all g (id ∷ ids) flag r = dispatch_all g ids flag (dispatch g id (flag id) r)

-- `tracker[succ].in_degree--`, and the step to READY.
pub count_down : ℕ → Map Tracker → Map Tracker
count_down id m =
    let t = tracked id m in
    put id
      (record t {
        finished = t.finished + 1;
        state = if (t.predecessors == t.finished + 1) && is_created t.state then ready else t.state;
      })
      m

pub count_down_all : List ℕ → Map Tracker → Map Tracker
unfolding count_down
count_down_all [] m = m
count_down_all (x ∷ xs) m = count_down_all xs (count_down x m)

-- The result of a node: none is success, and otherwise there is the error message.
abbrev pub NodeResult : Type 0
NodeResult = Option String

abbrev pub drop_task : ℕ → List ℕ → List ℕ
drop_task id [] = []
drop_task id (x ∷ xs) = if x == id then xs else x ∷ drop_task id xs

-- `active_resources[res]--` and the end of the future.
abbrev pub finish_task : ExecutionGraph → ℕ → Run → Run
finish_task g id r =
    let res = resource_of g id in
    record r {
      active_resources =
          put (resource_index res) (users res r.active_resources - 1) r.active_resources;
      active_tasks = drop_task id r.active_tasks;
    }

-- A future that is ready. Without fuel in the blocking loop it returns none.
pub complete : ExecutionGraph → ℕ → NodeResult → Run → Option Run
unfolding count_down_all fail_dependent_nodes
complete g id none r =
    let r' = finish_task g id r in
    some (record r' {
      tracker = count_down_all (get_successors g id) (set_state completed id r'.tracker);
    })
complete g id (some message) r =
    let r' = finish_task g id r in
    elim (fail_dependent_nodes g id message (
      put id (record (tracked id r'.tracker) { state = failed; fail_reason = own message })
        r'.tracker)) [
          | none ↦ none
          | some m ↦ some (record r' { tracker = m; overall_success = false })
        ]
