-- ===== src/Graph/Scheduler/Rounds/After.antt =====
-- src/execution/ExecutionGraphScheduler.cpp: every part of a round keeps the order of the graph.
use hetero_accel.Base.{
  ℕ, ◌+◌, ◌<◌, ◌≡◌, refl, ◌∙◌, subst, inl, inr, Bool, true, false, not, ◌&&◌, ◌||◌, none, some,
  List, [], ◌∷◌, arith, ◌==◌, if◌then◌else◌, one_if, ==→≡, Bool-cases, Option-cases,
}
use hetero_accel.Base.Map.{Map, lookup, put}
use hetero_accel.Graph.{
  ExecutionGraph, ready, running, completed, failed, cancelled, contains, get_predecessors,
  get_successors, String,
}
use hetero_accel.Graph.Mirror.{occ, Mirrored}
use hetero_accel.Graph.Scheduler.{
  Tracker, default_tracker, tracked, is_open, is_ready, set_state, count_down_all, drop_task, Run,
  cancel, cancel_open, dispatch, check_resource_available, resource_of, finish_task, complete,
  NodeResult, own,
}
use hetero_accel.Graph.Scheduler.Blocking.{Stops, fail_dependent_nodes-Blocks}
use hetero_accel.Graph.Scheduler.Rounds.Rule.{OnSome, Rule}
use hetero_accel.Graph.Scheduler.Rounds.Known.{Mirrored-Closed}
use hetero_accel.Graph.Scheduler.Rounds.Order.{
  is_running, is_started, done_in-grow, tracked-put, count_down_all-Counted, Ordered, Stops-Ordered,
  Steady-Ordered, put-Steady,
}
use hetero_accel.Graph.Scheduler.Rounds.{is_completed}

pub lookup-cancel_open :
    (y : ℕ) (m : Map Tracker)
    → lookup y (cancel_open m) ≡ elim (lookup y m) [
      | none ↦ none
      | some t ↦ some (if is_open t.state then record t { state = cancelled } else t)
    ]
unfolding cancel_open lookup
lookup-cancel_open y [] = refl
lookup-cancel_open y ((x, t) ∷ m) = elim (Bool-cases (x == y)) [
  | inl same ↦ rw same refl
  | inr other ↦ rw other (lookup-cancel_open y m)
]

cancel_open-Stops : (y : ℕ) (m : Map Tracker) → Stops (tracked y m) (tracked y (cancel_open m))
cancel_open-Stops y m = elim (Option-cases (lookup y m)) [
  | inl missing ↦
      let e : tracked y m ≡ default_tracker = ground (arith, missing) in
      let e' : tracked y (cancel_open m) ≡ default_tracker =
        ground (arith, missing, lookup-cancel_open y m) in
      rw (e, e') (record { finished = refl; predecessors = refl; state = inl refl })
  | inr (t, there) ↦
      let e : tracked y m ≡ t = ground (arith, there) in
      let e' : tracked y (cancel_open m)
          ≡ (if is_open t.state then record t { state = cancelled } else t) =
        ground (arith, there, lookup-cancel_open y m) in
      rw (e, e') (stopped t)
]
  where
    stopped :
        (t : Tracker) → Stops t (if is_open t.state then record t { state = cancelled } else t)
    stopped t = elim (Bool-cases (is_open t.state)) [
      | inl on ↦ rw on (record { finished = refl; predecessors = refl; state = inr (on, refl) })
      | inr off ↦ rw off (record { finished = refl; predecessors = refl; state = inl refl })
    ]

cancel-Ordered : (g : ExecutionGraph) (r : Run) → Ordered g r → Ordered g (cancel r)
unfolding cancel
cancel-Ordered g r h = Stops-Ordered g r (cancel r) (λ y. cancel_open-Stops y r.tracker) refl h

dispatch-Ordered :
    (g : ExecutionGraph) (id : ℕ) (flag : Bool) (r : Run)
    → Ordered g r
    → Ordered g (dispatch g id flag r)
unfolding dispatch
dispatch-Ordered g id flag r h =
    let t : Tracker = record (tracked id r.tracker) { state = running } in
    let guard =
      is_ready (tracked id r.tracker).state
      && not flag
      && check_resource_available (resource_of g id) r.active_resources in
    elim (Bool-cases guard) [
      | inr off ↦ rw off h
      | inl on ↦
          let was : (tracked id r.tracker).state ≡ ready = ground (arith, on) in
          rw on (
            Steady-Ordered g r _
              (put-Steady id t r.tracker (record {
                finished = refl;
                predecessors = refl;
                completion = ground (arith, was);
                started = λ _. ground (arith, was);
              }))
              (λ y. elim (Bool-cases (id == y)) [
                | inl same ↦
                    let e : id ≡ y = ==→≡ id y same in
                    let was' : (tracked y r.tracker).state ≡ ready =
                      subst (λ k. (tracked k r.tracker).state ≡ ready) e was in
                    ground (arith, h.tasks y, was', same, tracked-put id y t r.tracker)
                | inr other ↦ ground (arith, h.tasks y, other, tracked-put id y t r.tracker)
              ])
              h)
    ]

occ-drop_task :
    (x y : ℕ) (ids : List ℕ)
    → contains x ids ≡ true
    → occ y ids ≡ one_if (x == y) + occ y (drop_task x ids)
occ-drop_task x y [] h = cc
occ-drop_task x y (z ∷ zs) h = elim (Bool-cases (z == x)) [
  | inl same ↦ let e : z ≡ x = ==→≡ z x same in rw same (rw e refl)
  | inr other ↦
      let ih = occ-drop_task x y zs (ground (arith, h, other)) in rw other (omega (arith, ih))
]

contains-occ : (x : ℕ) (ids : List ℕ) → contains x ids ≡ true → 0 < occ x ids
contains-occ x [] h = cc
contains-occ x (y ∷ ys) h = ground (arith, h, contains-occ x ys)

-- A node with a task is running.
pub task-running :
    (g : ExecutionGraph) (id : ℕ) (r : Run)
    → contains id r.active_tasks ≡ true
    → Ordered g r
    → (tracked id r.tracker).state ≡ running
task-running g id r there h = ground (arith, h.tasks id, contains-occ id r.active_tasks there)

-- A running node that is marked as completed.
record Completes (same : Bool) (t t' : Tracker) : Type 0 where
  finished : t'.finished ≡ t.finished
  predecessors : t'.predecessors ≡ t.predecessors
  completion : is_completed t'.state ≡ is_completed t.state || same
  run : is_running t'.state ≡ not same && is_running t.state
  started : is_started t'.state ≡ true → is_started t.state ≡ true

set_completed :
    (id y : ℕ) (m : Map Tracker)
    → (tracked id m).state ≡ running
    → Completes (id == y) (tracked y m) (tracked y (set_state completed id m))
set_completed id y m was =
    let t : Tracker = record (tracked id m) { state = completed } in
    elim (Bool-cases (id == y)) [
      | inl same ↦
          let e : id ≡ y = ==→≡ id y same in
          rw (tracked-put id y t m, same)
            (subst (λ k. Completes true (tracked k m) t) e
              (record {
                finished = refl;
                predecessors = refl;
                completion = ground (arith, was);
                run = refl;
                started = λ _. ground (arith, was);
              }))
      | inr other ↦
          rw (tracked-put id y t m, other)
            (record {
              finished = refl;
              predecessors = refl;
              completion = ground arith;
              run = refl;
              started = λ on. on;
            })
    ]

completed-Ordered :
    (g : ExecutionGraph) (id : ℕ) (r r' : Run)
    → Mirrored g
    → contains id r.active_tasks ≡ true
    → r'.tracker ≡ count_down_all (get_successors g id) (set_state completed id r.tracker)
    → r'.active_tasks ≡ drop_task id r.active_tasks
    → Ordered g r
    → Ordered g r'
completed-Ordered g id r r' mir there e f h =
    let was = task-running g id r there h in
    let m1 = set_state completed id r.tracker in
    let m2 = count_down_all (get_successors g id) m1 in
    let at = λ (y : ℕ). set_completed id y r.tracker was in
    let down = λ (y : ℕ). count_down_all-Counted (get_successors g id) y m1 in
    let grown = λ (ps : List ℕ).
      done_in-grow r.tracker m2 id ps (ground (arith, was))
        (λ y. (down y).completion ∙ (at y).completion) in
    record {
      degree = λ y. rw e ((down y).predecessors ∙ (at y).predecessors ∙ h.degree y);
      counted = λ y. rw e (
          omega (
            arith,
            (down y).finished,
            (at y).finished,
            h.counted y,
            grown (get_predecessors g y),
            mir.degree id y,
          ));
      started = λ y on. rw e (
          (down y).started
            (λ on'.
              omega (arith, h.started y ((at y).started on'), (at y).finished, (at y).predecessors))
            (subst (λ m. is_started (tracked y m).state ≡ true) e on));
      tasks = λ y.
          rw (e, f)
            (ground (
              arith,
              (down y).running,
              (at y).run,
              h.tasks y,
              occ-drop_task id y r.active_tasks there,
            ));
    }

failed-Ordered :
    (g : ExecutionGraph) (id : ℕ) (message : String) (r r' : Run) (m : Map Tracker)
    → contains id r.active_tasks ≡ true
    → ((y : ℕ)
        → Stops
            (tracked y (
              put id
                (record (tracked id r.tracker) { state = failed; fail_reason = own message })
                r.tracker))
            (tracked y m))
    → r'.tracker ≡ m
    → r'.active_tasks ≡ drop_task id r.active_tasks
    → Ordered g r
    → Ordered g r'
failed-Ordered g id message r r' m there s e f h =
    let was = task-running g id r there h in
    let t : Tracker = record (tracked id r.tracker) { state = failed; fail_reason = own message } in
    let middle : Run = record r {
      tracker = put id t r.tracker;
      active_tasks = drop_task id r.active_tasks;
    } in
    Stops-Ordered g middle r' (λ y. rw e (s y)) f
      (Steady-Ordered g r middle
        (put-Steady id t r.tracker (record {
          finished = refl;
          predecessors = refl;
          completion = ground (arith, was);
          started = λ _. ground (arith, was);
        }))
        (λ y. elim (Bool-cases (id == y)) [
          | inl same ↦
              let k : id ≡ y = ==→≡ id y same in
              let was' : (tracked y r.tracker).state ≡ running =
                subst (λ x. (tracked x r.tracker).state ≡ running) k was in
              ground (
                arith,
                same,
                was',
                h.tasks y,
                tracked-put id y t r.tracker,
                occ-drop_task id y r.active_tasks there,
              )
          | inr other ↦ ground (
            arith,
            other,
            h.tasks y,
            tracked-put id y t r.tracker,
            occ-drop_task id y r.active_tasks there,
          )
        ])
        h)

complete-Ordered :
    (g : ExecutionGraph) (id : ℕ) (result : NodeResult) (r : Run)
    → Mirrored g
    → contains id r.active_tasks ≡ true
    → Ordered g r
    → OnSome (Ordered g) (complete g id result r)
unfolding complete
complete-Ordered g id none r mir there h = completed-Ordered g id r _ mir there refl refl h
complete-Ordered g id (some message) r mir there h =
    let t : Tracker = record (tracked id r.tracker) { state = failed; fail_reason = own message } in
    let (m, e, b) =
      fail_dependent_nodes-Blocks g id message (put id t r.tracker) (Mirrored-Closed g mir) in
    let done : complete g id (some message) r
        ≡ some (record (finish_task g id r) { tracker = m; overall_success = false }) =
      ground (arith, e) in
    rw done (failed-Ordered g id message r _ m there b.stops refl refl h)

pub Ordered-Rule : (g : ExecutionGraph) → Mirrored g → Rule g (Ordered g)
Ordered-Rule g mir = record {
  cancels = cancel-Ordered g;
  dispatches = dispatch-Ordered g;
  completes = λ id result r there h. complete-Ordered g id result r mir there h;
}
