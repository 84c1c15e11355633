-- ===== src/Graph/Scheduler/Rounds/Waiting.antt =====
-- src/execution/ExecutionGraphScheduler.cpp: a node that is still CREATED waits for a predecessor
-- that can still complete.
use hetero_accel.Base.{
  ℕ, ◌≡◌, refl, sym, ap, ◌∙◌, subst, inl, inr, Bool, true, false, not, ◌&&◌, none, some, arith,
  ◌==◌, if◌then◌else◌, is_some, ==→≡, Bool-cases, Option-cases,
}
use hetero_accel.Base.Map.{Map, lookup, put}
use hetero_accel.Graph.{
  ExecutionGraph, GraphNodeState, running, completed, failed, cancelled, contains, get_predecessors,
  get_successors,
}
use hetero_accel.Graph.Mirror.{Mirrored}
use hetero_accel.Graph.Scheduler.{
  Tracker, default_tracker, tracked, is_open, is_ready, is_created, set_state, count_down_all, Run,
  cancel, cancel_open, dispatch, check_resource_available, resource_of, finish_task, complete,
  NodeResult, own,
}
use hetero_accel.Graph.Scheduler.Blocking.{is_stopped, Blocks, fail_dependent_nodes-Blocks}
use hetero_accel.Graph.Scheduler.Rounds.Known.{Mirrored-Closed}
use hetero_accel.Graph.Scheduler.Rounds.Rule.{OnSome, Rule}
use hetero_accel.Graph.Scheduler.Rounds.Onward.{
  is_live, Short, Onward, Onward-trans, put-Onward, count_down_all-Onward,
}
use hetero_accel.Graph.Scheduler.Rounds.Order.{tracked-put}
use hetero_accel.Graph.Scheduler.Rounds.After.{lookup-cancel_open}

pub record Waiting (g : ExecutionGraph) (r : Run) : Type 0 where
  pub short : (y : ℕ) → is_some (lookup y g.nodes) ≡ true → Short (tracked y r.tracker)
  pub live :
      (y p : ℕ)
      → is_created (tracked y r.tracker).state ≡ true
      → contains p (get_predecessors g y) ≡ true
      → is_live (tracked p r.tracker).state ≡ true

-- A node with a predecessor is a node.
known_here :
    (g : ExecutionGraph) (y p : ℕ)
    → Mirrored g
    → contains p (get_predecessors g y) ≡ true
    → is_some (lookup y g.nodes) ≡ true
known_here g y p mir c = (mir.known p y (mir.mirror p y ∙ c)).1

-- What cancelling leaves CREATED has no tracker.
created-cancel_open :
    (y : ℕ) (m : Map Tracker)
    → is_created (tracked y (cancel_open m)).state ≡ true
    → tracked y m ≡ default_tracker
created-cancel_open y m on = elim (Option-cases (lookup y m)) [
  | inl missing ↦ ground (arith, missing)
  | inr (t, there) ↦
      let e : tracked y (cancel_open m)
          ≡ (if is_open t.state then record t { state = cancelled } else t) =
        ground (arith, there, lookup-cancel_open y m) in
      ground (arith, on, e)
]

cancel-Waiting : (g : ExecutionGraph) (r : Run) → Mirrored g → Waiting g r → Waiting g (cancel r)
unfolding cancel
cancel-Waiting g r mir h = record {
  short = λ y known on. elim (none_left y known on) [ ];
  live = λ y p on c. elim (none_left y (known_here g y p mir c) on) [ ];
}
  where
    none_left :
        (y : ℕ)
        → is_some (lookup y g.nodes) ≡ true
        → ¬ (is_created (tracked y (cancel_open r.tracker)).state ≡ true)
    none_left y known on =
        let e = created-cancel_open y r.tracker on in
        let s : Short default_tracker = subst Short e (h.short y known) in let s' = s refl in cc

Onward-Waiting :
    (g : ExecutionGraph) (r r' : Run)
    → ((y : ℕ) → Onward (tracked y r.tracker) (tracked y r'.tracker))
    → Waiting g r
    → Waiting g r'
Onward-Waiting g r r' on h = record {
  short = λ y known. (on y).short (h.short y known);
  live = λ y p c k. (on p).live (h.live y p ((on y).back c) k);
}

dispatch-Waiting :
    (g : ExecutionGraph) (id : ℕ) (flag : Bool) (r : Run)
    → Waiting g r
    → Waiting g (dispatch g id flag r)
unfolding dispatch
dispatch-Waiting g id flag r h =
    let guard =
      is_ready (tracked id r.tracker).state
      && not flag
      && check_resource_available (resource_of g id) r.active_resources in
    elim (Bool-cases guard) [
      | inr off ↦ rw off h
      | inl on ↦ rw on (
          Onward-Waiting g r _
            (put-Onward id (record (tracked id r.tracker) { state = running }) r.tracker refl refl)
            h)
    ]

completed-Waiting :
    (g : ExecutionGraph) (id : ℕ) (r r' : Run)
    → r'.tracker ≡ count_down_all (get_successors g id) (set_state completed id r.tracker)
    → Waiting g r
    → Waiting g r'
completed-Waiting g id r r' e h =
    Onward-Waiting g r r'
      (λ y. rw e (
        Onward-trans
          (put-Onward id (record (tracked id r.tracker) { state = completed }) r.tracker refl refl
            y)
          (count_down_all-Onward (get_successors g id) y (set_state completed id r.tracker))))
      h

failed-Waiting :
    (g : ExecutionGraph) (id : ℕ) (t : Tracker) (r r' : Run)
    → Mirrored g
    → t.state ≡ failed
    → Blocks g (get_successors g id) (put id t r.tracker) r'.tracker
    → Waiting g r
    → Waiting g r'
failed-Waiting g id t r r' mir f b h = record {
  short = λ y known c.
      let s = b.stops y in
      let e = same_before y c in
      let old : Short (tracked y (put id t r.tracker)) =
        subst Short (sym (before y c)) (h.short y known) in
      ground (arith, old e, s.finished, s.predecessors);
  live = λ y p c k.
      let c' = mir.mirror p y ∙ k in
      elim (Bool-cases (id == p)) [
        | inl same ↦
            let k' : contains y (get_successors g id) ≡ true =
              subst (λ i. contains y (get_successors g i) ≡ true) (sym (==→≡ id p same)) c' in
            ground (arith, b.shut y k', c)
        | inr other ↦
            let was : tracked p (put id t r.tracker) ≡ tracked p r.tracker =
              tracked-put id p t r.tracker ∙ rw other refl in
            let old : is_live (tracked p r.tracker).state ≡ true =
              h.live y p
                (ap (λ (u : Tracker). is_created u.state) (sym (before y c)) ∙ same_before y c) k in
            elim (b.stops p).state [
              | inl e ↦ ap is_live (e ∙ ap (λ (u : Tracker). u.state) was) ∙ old
              | inr (o, s) ↦
                  let shut = b.spread p y o (stopped_shut (tracked p r'.tracker).state s) c' in
                  ground (arith, shut, c)
            ]
      ];
}
  where
    stopped_shut : (s : GraphNodeState) → is_stopped s ≡ true → is_open s ≡ false
    stopped_shut s h = ground (arith, h)

    same_before :
        (y : ℕ)
        → is_created (tracked y r'.tracker).state ≡ true
        → is_created (tracked y (put id t r.tracker)).state ≡ true
    same_before y c = elim (b.stops y).state [
      | inl e ↦ ap is_created (sym e) ∙ c
      | inr (o, s) ↦ ground (arith, s, c)
    ]

    before :
        (y : ℕ)
        → is_created (tracked y r'.tracker).state ≡ true
        → tracked y (put id t r.tracker) ≡ tracked y r.tracker
    before y c = elim (Bool-cases (id == y)) [
      | inl same ↦
          let now : tracked y (put id t r.tracker) ≡ t =
            tracked-put id y t r.tracker ∙ rw same refl in
          let e : is_created failed ≡ true =
            ap is_created (sym (ap (λ (u : Tracker). u.state) now ∙ f)) ∙ same_before y c in
          cc
      | inr other ↦ tracked-put id y t r.tracker ∙ rw other refl
    ]

complete-Waiting :
    (g : ExecutionGraph) (id : ℕ) (result : NodeResult) (r : Run)
    → Mirrored g
    → Waiting g r
    → OnSome (Waiting g) (complete g id result r)
unfolding complete
complete-Waiting g id none r mir h = completed-Waiting g id r _ refl h
complete-Waiting g id (some message) r mir h =
    let t : Tracker = record (tracked id r.tracker) { state = failed; fail_reason = own message } in
    let (m, e, b) =
      fail_dependent_nodes-Blocks g id message (put id t r.tracker) (Mirrored-Closed g mir) in
    let done : complete g id (some message) r
        ≡ some (record (finish_task g id r) { tracker = m; overall_success = false }) =
      ground (arith, e) in
    rw done (failed-Waiting g id t r _ mir refl b h)

pub Waiting-Rule : (g : ExecutionGraph) → Mirrored g → Rule g (Waiting g)
Waiting-Rule g mir = record {
  cancels = λ r h. cancel-Waiting g r mir h;
  dispatches = dispatch-Waiting g;
  completes = λ id result r there h. complete-Waiting g id result r mir h;
}
