-- ===== src/Graph/Scheduler/Rounds/Predecessors.antt =====
-- src/execution/ExecutionGraphScheduler.cpp: in every state that a run reaches, the predecessors of a
-- node that has started have completed.
use hetero_accel.Base.{
  ℕ, ◌≤◌, ◌≡◌, refl, sym, ap, ◌∙◌, subst, inl, inr, true, false, Option, none, some, List, [], ◌∷◌,
  arith, ◌==◌, if◌then◌else◌, is_some, one_if, ==→≡, ==_self, Bool-cases, length,
}
use hetero_accel.Base.Map.{lookup}
use hetero_accel.Graph.{
  ExecutionGraph, contains, get_predecessors, get_successors, get_all_node_ids, ready, created,
}
use hetero_accel.Graph.Mirror.{Mirrored}
use hetero_accel.Graph.Ids.{contains-get_all_node_ids}
use hetero_accel.Graph.Scheduler.{
  Tracker, default_tracker, tracked, Run, start, start_tracker, no_reason,
}
use hetero_accel.Graph.Scheduler.Rounds.{Round, rounds}
use hetero_accel.Graph.Scheduler.Rounds.Rule.{OnSome, rounds_ind}
use hetero_accel.Graph.Scheduler.Rounds.Order.{
  is_running, is_started, done_in, done_in-all, Ordered,
}
use hetero_accel.Graph.Scheduler.Rounds.{is_completed}
use hetero_accel.Graph.Scheduler.Rounds.After.{Ordered-Rule}

abbrev first_tracker : ExecutionGraph → ℕ → Tracker
first_tracker g id = record {
  state = if length (get_predecessors g id) == 0 then ready else created;
  predecessors = length (get_predecessors g id);
  finished = 0;
  fail_reason = no_reason;
}

lookup-start_tracker :
    (g : ExecutionGraph) (ids : List ℕ) (y : ℕ)
    → lookup y (start_tracker g ids) ≡ (if contains y ids then some (first_tracker g y) else none)
unfolding start_tracker lookup
lookup-start_tracker g [] y = refl
lookup-start_tracker g (id ∷ ids) y = elim (Bool-cases (id == y)) [
  | inl same ↦
      let e : id ≡ y = ==→≡ id y same in rw same (ap (λ (k : ℕ). some (first_tracker g k)) e)
  | inr other ↦ rw other (lookup-start_tracker g ids y)
]

tracked-start_tracker :
    (g : ExecutionGraph) (ids : List ℕ) (y : ℕ)
    → tracked y (start_tracker g ids)
      ≡ (if contains y ids then first_tracker g y else default_tracker)
tracked-start_tracker g ids y = ground (arith, lookup-start_tracker g ids y)

-- No node has completed at the start.
none-completed :
    (g : ExecutionGraph) (ids : List ℕ) (ps : List ℕ) → done_in (start_tracker g ids) ps ≡ 0
none-completed g ids [] = refl
none-completed g ids (p ∷ ps) =
    ground (arith, tracked-start_tracker g ids p, none-completed g ids ps)

-- A number that is no node has no predecessors.
no_predecessors :
    (g : ExecutionGraph) (y : ℕ)
    → Mirrored g
    → is_some (lookup y g.nodes) ≡ false
    → get_predecessors g y ≡ []
no_predecessors g y mir off = go (get_predecessors g y) (λ p. mir.mirror p y)
  where
    go : (ps : List ℕ) → ((p : ℕ) → contains y (get_successors g p) ≡ contains p ps) → ps ≡ []
    go [] h = refl
    go (p ∷ ps) h =
        let on : is_some (lookup y g.nodes) ≡ true =
          (mir.known p y (h p ∙ ground (arith, ==_self p))).1 in
        cc

pub tracked-start :
    (g : ExecutionGraph) (y : ℕ)
    → tracked y (start g).tracker
      ≡ (if is_some (lookup y g.nodes) then first_tracker g y else default_tracker)
unfolding start
tracked-start g y =
    ground (arith, tracked-start_tracker g (get_all_node_ids g) y, contains-get_all_node_ids g y)

pub start-Ordered : (g : ExecutionGraph) → Mirrored g → Ordered g (start g)
unfolding start
start-Ordered g mir = record {
  degree = λ y. elim (Bool-cases (is_some (lookup y g.nodes))) [
    | inl on ↦ ap (λ (t : Tracker). t.predecessors) (tracked-start g y) ∙ rw on refl
    | inr off ↦
        ap (λ (t : Tracker). t.predecessors) (tracked-start g y)
        ∙ rw (off, no_predecessors g y mir off) refl
  ];
  counted = λ y.
      ap (λ (t : Tracker). t.finished) (tracked-start g y)
      ∙ ground (arith, none-completed g (get_all_node_ids g) (get_predecessors g y));
  started = λ y.
      subst (λ (t : Tracker). is_started t.state ≡ true → t.predecessors ≤ t.finished)
        (sym (tracked-start g y)) (λ on. ground (arith, on));
  tasks = λ y.
      subst (λ (t : Tracker). 0 ≡ one_if (is_running t.state)) (sym (tracked-start g y))
        (ground arith);
}

-- Every predecessor of a node that is ready, is running, has completed or has failed has completed.
abbrev pub Preceded : ExecutionGraph → Run → Type 0
Preceded g r =
    (y p : ℕ)
    → is_started (tracked y r.tracker).state ≡ true
    → contains p (get_predecessors g y) ≡ true
    → is_completed (tracked p r.tracker).state ≡ true

Ordered-Preceded : (g : ExecutionGraph) (r : Run) → Ordered g r → Preceded g r
Ordered-Preceded g r h y p on c =
    done_in-all r.tracker (get_predecessors g y) p
      (omega (arith, h.degree y, h.counted y, h.started y on)) c

OnSome-map :
    (P Q : Run → Type 0) → ((r : Run) → P r → Q r) → (o : Option Run) → OnSome P o → OnSome Q o
OnSome-map P Q f none h = h
OnSome-map P Q f (some r) h = f r h

-- Take any graph whose two adjacency lists mirror each other and any outcomes of the nodes, round
-- by round, with cancellation at any point. If the rounds end, then in the state they end in, every
-- predecessor of a node that is ready, is running, has completed or has failed has completed itself:
-- no node is released before all that it depends on.
pub rounds-start-Preceded :
    (g : ExecutionGraph) (ds : List Round)
    → Mirrored g
    → OnSome (Preceded g) (rounds g ds (start g))
rounds-start-Preceded g ds mir =
    OnSome-map (Ordered g) (Preceded g) (Ordered-Preceded g) (rounds g ds (start g))
      (rounds_ind g (Ordered g) (Ordered-Rule g mir) ds (start g) (start-Ordered g mir))
