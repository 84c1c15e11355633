-- ===== src/Graph/Scheduler/Rounds/Success.antt =====
-- src/execution/ExecutionGraphScheduler.cpp: what the result of `execute` says when it is a success.
use hetero_accel.Base.{
  ℕ, ◌≡◌, refl, sym, ap, ◌∙◌, subst, inl, inr, Bool, true, false, not, ◌&&◌, none, some, List, [],
  ◌∷◌, map, arith, ◌==◌, is_some, ==_self, Bool-cases, Option-cases, All,
}
use hetero_accel.Base.Map.{Map, lookup}
use hetero_accel.Graph.{
  ExecutionGraph, GraphNodeState, running, completed, get_successors, get_all_node_ids, contains,
}
use hetero_accel.Graph.Ids.{contains-get_all_node_ids}
use hetero_accel.Graph.Mirror.{Mirrored}
use hetero_accel.Graph.Scheduler.{
  Tracker, default_tracker, tracked, Run, start, cancel, dispatch, is_ready,
  check_resource_available, resource_of, set_state, complete, NodeResult,
}
use hetero_accel.Graph.Scheduler.Rounds.{
  Round, rounds, all_done, result_of, execute, collect, NodeTelemetry, ExecutionGraphResult,
}
use hetero_accel.Graph.Scheduler.Rounds.Rule.{OnSome, Rule, rounds_ind}
use hetero_accel.Graph.Scheduler.Rounds.{is_completed}
use hetero_accel.Graph.Scheduler.Rounds.Onward.{
  is_live, Short, Onward-trans, put-Onward, count_down_all-Onward,
}
use hetero_accel.Graph.Scheduler.Rounds.Predecessors.{tracked-start}
use hetero_accel.Graph.Scheduler.Rounds.Waiting.{Waiting, Waiting-Rule}
use hetero_accel.Graph.Scheduler.Rounds.Settled.{start-Waiting}

-- While the run counts as a success, no node has failed or been stopped.
abbrev Unharmed : Run → Type 0
Unharmed r = r.overall_success ≡ true → (y : ℕ) → is_live (tracked y r.tracker).state ≡ true

complete-Unharmed :
    (g : ExecutionGraph) (id : ℕ) (result : NodeResult) (r : Run)
    → Unharmed r
    → OnSome Unharmed (complete g id result r)
unfolding complete
complete-Unharmed g id none r h = λ ok y.
    (Onward-trans
        (put-Onward id (record (tracked id r.tracker) { state = completed }) r.tracker refl refl y)
        (count_down_all-Onward (get_successors g id) y (set_state completed id r.tracker))).live
      (h ok y)
complete-Unharmed g id (some message) r h = elim (Option-cases (complete g id (some message) r)) [
  | inl nothing ↦ rw nothing tt
  | inr (r', done) ↦
      let bad : r'.overall_success ≡ false = ground (arith, done) in
      rw done (λ ok. let e : false ≡ true = sym bad ∙ ok in cc)
]

dispatch-Unharmed :
    (g : ExecutionGraph) (id : ℕ) (flag : Bool) (r : Run)
    → Unharmed r
    → Unharmed (dispatch g id flag r)
unfolding dispatch
dispatch-Unharmed g id flag r h =
    let guard =
      is_ready (tracked id r.tracker).state
      && not flag
      && check_resource_available (resource_of g id) r.active_resources in
    elim (Bool-cases guard) [
      | inr off ↦ rw off h
      | inl on ↦ rw on (λ ok y.
          (put-Onward id (record (tracked id r.tracker) { state = running }) r.tracker refl refl
              y).live
            (h ok y))
    ]

Unharmed-Rule : (g : ExecutionGraph) → Rule g Unharmed
unfolding cancel
Unharmed-Rule g = record {
  cancels = λ r h ok. cc;
  dispatches = dispatch-Unharmed g;
  completes = λ id result r there h. complete-Unharmed g id result r h;
}

all_done-completed :
    (y : ℕ) (m : Map Tracker)
    → all_done m ≡ true
    → is_some (lookup y m) ≡ true
    → is_live (tracked y m).state ≡ true
    → is_completed (tracked y m).state ≡ true
unfolding all_done lookup
all_done-completed y [] h k l = cc
all_done-completed y ((x, t) ∷ m) h k l = elim (Bool-cases (x == y)) [
  | inl same ↦ ground (arith, h, l, same)
  | inr other ↦
      let e : tracked y ((x, t) ∷ m) ≡ tracked y m = ground (arith, other) in
      rw e (
        all_done-completed y m (ground (arith, h)) (ground (arith, k, other))
          (sym (ap (λ (u : Tracker). is_live u.state) e) ∙ l))
]

-- A node without a tracker would wait for nothing.
has_tracker :
    (g : ExecutionGraph) (r : Run) (y : ℕ)
    → Waiting g r
    → is_some (lookup y g.nodes) ≡ true
    → is_some (lookup y r.tracker) ≡ true
has_tracker g r y w known = elim (Option-cases (lookup y r.tracker)) [
  | inr (t, there) ↦ ground (arith, there)
  | inl missing ↦
      let e : tracked y r.tracker ≡ default_tracker = ground (arith, missing) in
      let s : Short default_tracker = subst Short e (w.short y known) in let s' = s refl in cc
]

completed_by :
    (g : ExecutionGraph) (r : Run) (y : ℕ)
    → Waiting g r
    → Unharmed r
    → r.overall_success ≡ true
    → all_done r.tracker ≡ true
    → is_some (lookup y g.nodes) ≡ true
    → (tracked y r.tracker).state ≡ completed
completed_by g r y w u ok done known =
    is_completed-completed (tracked y r.tracker).state
      (all_done-completed y r.tracker done (has_tracker g r y w known) (u ok y))
  where
    is_completed-completed : (s : GraphNodeState) → is_completed s ≡ true → s ≡ completed
    is_completed-completed s h = ground (arith, h)

abbrev ids_of : List NodeTelemetry → List ℕ
ids_of es = map (λ (e : NodeTelemetry). e.node_id) es

collect-ids : (g : ExecutionGraph) (ids : List ℕ) (m : Map Tracker) → ids_of (collect g ids m) ≡ ids
unfolding collect
collect-ids g [] m = refl
collect-ids g (id ∷ ids) m = ap (λ (k : List ℕ). id ∷ k) (collect-ids g ids m)

abbrev Completed : NodeTelemetry → Type 0
Completed e = (e.final_state ≡ completed) × (e.success ≡ true)

collect-Completed :
    (g : ExecutionGraph) (ids : List ℕ) (m : Map Tracker)
    → ((y : ℕ) → contains y ids ≡ true → (tracked y m).state ≡ completed)
    → All Completed (collect g ids m)
unfolding collect
collect-Completed g [] m h = tt
collect-Completed g (id ∷ ids) m h =
    let now = h id (ground (arith, ==_self id)) in
    ((now, ap is_completed now), collect-Completed g ids m (λ y c. h y (ground (arith, c))))

result_of-success :
    (g : ExecutionGraph) (r : Run)
    → Waiting g r
    → Unharmed r
    → (result_of g r).success ≡ true
    → (ids_of (result_of g r).telemetry ≡ get_all_node_ids g)
      × All Completed (result_of g r).telemetry
unfolding result_of
result_of-success g r w u ok = (
  collect-ids g (get_all_node_ids g) r.tracker,
  collect-Completed g (get_all_node_ids g) r.tracker (λ y c.
      completed_by g r y w u (ground (arith, ok)) (ground (arith, ok))
        (sym (contains-get_all_node_ids g y) ∙ c)),
)

-- Take any graph whose two adjacency lists mirror each other and any outcomes of the nodes, round by
-- round, with cancellation at any point. If execute returns a result that is a success, its telemetry
-- has one entry for each node of the graph, in the order of the ids, and each entry says that the
-- node has completed.
pub execute-success :
    (g : ExecutionGraph) (ds : List Round) (res : ExecutionGraphResult)
    → Mirrored g
    → execute g ds ≡ some res
    → res.success ≡ true
    → (map (λ (e : NodeTelemetry). e.node_id) res.telemetry ≡ get_all_node_ids g)
      × All (λ e. (e.final_state ≡ completed) × (e.success ≡ true)) res.telemetry
unfolding execute
execute-success g ds res mir e ok = elim (Option-cases (rounds g ds (start g))) [
  | inl nothing ↦ ground (arith, e, ok, nothing)
  | inr (r, done) ↦
      let f : res ≡ result_of g r = ground (arith, e, ok, done) in
      rw f (
        result_of-success g r
          (subst (OnSome (Waiting g)) done
            (rounds_ind g (Waiting g) (Waiting-Rule g mir) ds (start g) (start-Waiting g)))
          (subst (OnSome Unharmed) done
            (rounds_ind g Unharmed (Unharmed-Rule g) ds (start g) (start-Unharmed g)))
          (sym (ap (λ (k : ExecutionGraphResult). k.success) f) ∙ ok))
]
  where
    start-Unharmed : (g : ExecutionGraph) → Unharmed (start g)
    start-Unharmed g ok y = ground (arith, tracked-start g y)
