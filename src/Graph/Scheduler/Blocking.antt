-- ===== src/Graph/Scheduler/Blocking.antt =====
-- src/execution/ExecutionGraphScheduler.cpp: `failDependentNodes` ends, and what it blocks.
use hetero_accel.Base.{
  ℕ, zero, suc, ◌+◌, ◌≤◌, ◌≡◌, refl, sym, ap, ◌∙◌, subst, ◌⊎◌, inl, inr, Bool, true, false, ◌||◌,
  some, List, [], ◌∷◌, ◌++◌, arith, ◌==◌, if◌then◌else◌, ==→≡, ==_self, Bool-cases, length,
  length-append,
}
use hetero_accel.Base.Map.{Map, put, lookup-put}
use Prim.Native.String.{String}
use hetero_accel.Graph.{
  ExecutionGraph, GraphNodeState, blocked, cancelled, contains, get_successors, get_all_node_ids,
  GraphNodeState,
}
use hetero_accel.Graph.Scheduler.{
  Tracker, tracked, is_open, blocked_by, block_loop, edges, fail_dependent_nodes,
}

-- The edges out of the nodes of a list that are still open.
abbrev pub open_edges : ExecutionGraph → Map Tracker → List ℕ → ℕ
open_edges g m [] = 0
open_edges g m (x ∷ xs) =
    (if is_open (tracked x m).state then length (get_successors g x) else 0) + open_edges g m xs

-- Every successor of every node is one of the ids.
abbrev pub Closed : ExecutionGraph → List ℕ → Type 0
Closed g ids = (x y : ℕ) → contains y (get_successors g x) ≡ true → contains y ids ≡ true

abbrev pub Within : List ℕ → List ℕ → Type 0
Within ids q = (y : ℕ) → contains y q ≡ true → contains y ids ≡ true

abbrev pub block : String → ℕ → Map Tracker → Map Tracker
block reason x m =
    put x (record (tracked x m) { state = blocked; fail_reason = blocked_by reason }) m

tracked-block :
    (reason : String) (x y : ℕ) (m : Map Tracker)
    → is_open (tracked y (block reason x m)).state
      ≡ (if x == y then false else is_open (tracked y m).state)
tracked-block reason x y m = ground (
  arith,
  lookup-put x y (record (tracked x m) { state = blocked; fail_reason = blocked_by reason }) m,
)

state-block :
    (reason : String) (x y : ℕ) (m : Map Tracker)
    → (tracked y (block reason x m)).state ≡ (if x == y then blocked else (tracked y m).state)
state-block reason x y m = ground (
  arith,
  lookup-put x y (record (tracked x m) { state = blocked; fail_reason = blocked_by reason }) m,
)

open_edges-block_le :
    (g : ExecutionGraph) (reason : String) (x : ℕ) (m : Map Tracker) (ids : List ℕ)
    → open_edges g (block reason x m) ids ≤ open_edges g m ids
open_edges-block_le g reason x m [] = omega arith
open_edges-block_le g reason x m (y ∷ ys) =
    ground (arith, tracked-block reason x y m, open_edges-block_le g reason x m ys)

open_edges-block :
    (g : ExecutionGraph) (reason : String) (x : ℕ) (m : Map Tracker) (ids : List ℕ)
    → contains x ids ≡ true
    → is_open (tracked x m).state ≡ true
    → length (get_successors g x) + open_edges g (block reason x m) ids ≤ open_edges g m ids
open_edges-block g reason x m [] h o = cc
open_edges-block g reason x m (y ∷ ys) h o = elim (Bool-cases (y == x)) [
  | inl same ↦
      let e : y ≡ x = ==→≡ y x same in
      ground (arith, e, o, tracked-block reason x y m, open_edges-block_le g reason x m ys)
  | inr other ↦
      let ih = open_edges-block g reason x m ys (ground (arith, h, other)) o in
      ground (arith, other, tracked-block reason x y m, ih)
]

contains-append : (y : ℕ) (xs ys : List ℕ) → contains y (xs ++ ys) ≡ contains y xs || contains y ys
contains-append y [] ys = refl
contains-append y (x ∷ xs) ys = ground (arith, contains-append y xs ys)

-- A tracker that was left alone or, while it was open, blocked or cancelled.
abbrev pub is_stopped : GraphNodeState → Bool
is_stopped blocked = true
is_stopped cancelled = true
is_stopped _ = false

pub record Stops (t t' : Tracker) : Type 0 where
  pub finished : t'.finished ≡ t.finished
  pub predecessors : t'.predecessors ≡ t.predecessors
  pub state : (t'.state ≡ t.state) ⊎ ((is_open t.state ≡ true) × (is_stopped t'.state ≡ true))

Stops-refl : (t : Tracker) → Stops t t
Stops-refl t = record { finished = refl; predecessors = refl; state = inl refl }

Stops-trans : {t t' t'' : Tracker} → Stops t t' → Stops t' t'' → Stops t t''
Stops-trans {t} {t'} {t''} a b = record {
  finished = b.finished ∙ a.finished;
  predecessors = b.predecessors ∙ a.predecessors;
  state = elim a.state [
    | inl e ↦ elim b.state [ inl f ↦ inl (f ∙ e) | inr (o, c) ↦ inr (sym (ap is_open e) ∙ o, c) ]
    | inr (o, c) ↦ elim b.state [
      | inl f ↦ inr (o, ap is_stopped f ∙ c)
      | inr (o', c') ↦ inr (o, c')
    ]
  ];
}

block-Stops :
    (reason : String) (x y : ℕ) (m : Map Tracker)
    → is_open (tracked x m).state ≡ true
    → Stops (tracked y m) (tracked y (block reason x m))
block-Stops reason x y m on =
    let t : Tracker = record (tracked x m) { state = blocked; fail_reason = blocked_by reason } in
    elim (Bool-cases (x == y)) [
      | inl same ↦
          let e : x ≡ y = ==→≡ x y same in
          let now : tracked y (block reason x m) ≡ t = ground (arith, lookup-put x y t m, same) in
          rw now (
            subst (λ k. Stops (tracked k m) t) e
              (record { finished = refl; predecessors = refl; state = inr (on, refl) }))
      | inr other ↦
          let now : tracked y (block reason x m) ≡ tracked y m =
            ground (arith, lookup-put x y t m, other) in
          rw now (Stops-refl (tracked y m))
    ]

-- What the loop returns: nothing is opened again, every id of the queue is shut,
-- and nothing changes but open nodes that are blocked.
pub record Blocks (g : ExecutionGraph) (q : List ℕ) (m m' : Map Tracker) : Type 0 where
  pub stops : (y : ℕ) → Stops (tracked y m) (tracked y m')
  pub shut : (y : ℕ) → contains y q ≡ true → is_open (tracked y m').state ≡ false
  pub kept :
      (y : ℕ) → is_open (tracked y m).state ≡ false → (tracked y m').state ≡ (tracked y m).state
  pub spread :
      (y z : ℕ)
      → is_open (tracked y m).state ≡ true
      → is_open (tracked y m').state ≡ false
      → contains z (get_successors g y) ≡ true
      → is_open (tracked z m').state ≡ false

shut_first :
    (g : ExecutionGraph) (x : ℕ) (q : List ℕ) (m m' : Map Tracker)
    → is_open (tracked x m).state ≡ false
    → Blocks g q m m'
    → Blocks g (x ∷ q) m m'
shut_first g x q m m' off b = record {
  stops = b.stops;
  shut = λ y h. elim (Bool-cases (x == y)) [
    | inl same ↦
        let e : x ≡ y = ==→≡ x y same in
        subst (λ k. is_open (tracked k m').state ≡ false) e (ap is_open (b.kept x off) ∙ off)
    | inr other ↦ b.shut y (ground (arith, h, other))
  ];
  kept = b.kept;
  spread = b.spread;
}

block_first :
    (g : ExecutionGraph) (reason : String) (x : ℕ) (q : List ℕ) (m m' : Map Tracker)
    → is_open (tracked x m).state ≡ true
    → Blocks g (q ++ get_successors g x) (block reason x m) m'
    → Blocks g (x ∷ q) m m'
block_first g reason x q m m' on b =
    let at_x = state-block reason x x m in
    let blocked_x : is_open (tracked x (block reason x m)).state ≡ false =
      ground (arith, at_x, ==_self x) in
    record {
      stops = λ y. Stops-trans (block-Stops reason x y m on) (b.stops y);
      shut = λ y h. elim (Bool-cases (x == y)) [
        | inl same ↦
            let e : x ≡ y = ==→≡ x y same in
            subst (λ k. is_open (tracked k m').state ≡ false) e
              (ap is_open (b.kept x blocked_x) ∙ blocked_x)
        | inr other ↦ b.shut y (ground (arith, h, other, contains-append y q (get_successors g x)))
      ];
      kept = λ y h. elim (Bool-cases (x == y)) [
        | inl same ↦ let e : x ≡ y = ==→≡ x y same in ground (arith, e, h, on)
        | inr other ↦
            let s : (tracked y (block reason x m)).state ≡ (tracked y m).state =
              ground (arith, state-block reason x y m, other) in
            b.kept y (ap is_open s ∙ h) ∙ s
      ];
      spread = λ y z o s c. elim (Bool-cases (x == y)) [
        | inl same ↦
            let e : x ≡ y = ==→≡ x y same in
            let c' : contains z (get_successors g x) ≡ true =
              subst (λ k. contains z (get_successors g k) ≡ true) (sym e) c in
            b.shut z (ground (arith, c', contains-append z q (get_successors g x)))
        | inr other ↦
            let same_state : (tracked y (block reason x m)).state ≡ (tracked y m).state =
              ground (arith, state-block reason x y m, other) in
            b.spread y z (ap is_open same_state ∙ o) s c
      ];
    }

block_loop-Blocks :
    (k : ℕ) (g : ExecutionGraph) (reason : String) (ids q : List ℕ) (m : Map Tracker)
    → Closed g ids
    → Within ids q
    → length q + open_edges g m ids ≤ k
    → (m' : Map Tracker) × (block_loop k g reason q m ≡ some m') × Blocks g q m m'
unfolding block_loop
block_loop-Blocks zero g reason ids [] m closed within fuel = (
  m,
  refl,
  record {
    stops = λ y. Stops-refl (tracked y m);
    shut = λ y h. cc;
    kept = λ y h. refl;
    spread = λ y z o s. cc;
  },
)
block_loop-Blocks (suc k) g reason ids [] m closed within fuel = (
  m,
  refl,
  record {
    stops = λ y. Stops-refl (tracked y m);
    shut = λ y h. cc;
    kept = λ y h. refl;
    spread = λ y z o s. cc;
  },
)
block_loop-Blocks zero g reason ids (x ∷ q) m closed within fuel = ground (arith, fuel)
block_loop-Blocks (suc k) g reason ids (x ∷ q) m closed within fuel =
    elim (Bool-cases (is_open (tracked x m).state)) [
      | inr off ↦
          let (m', e, b) =
            block_loop-Blocks k g reason ids q m closed (λ y h. within y (ground (arith, h)))
              (omega (arith, fuel)) in
          (m', ground (arith, off, e), shut_first g x q m m' off b)
      | inl on ↦
          let m1 = block reason x m in
          let less = open_edges-block g reason x m ids (within x (ground (arith, ==_self x))) on in
          let (m', e, b) =
            block_loop-Blocks k g reason ids (q ++ get_successors g x) m1 closed
              (λ y h. elim (Bool-cases (contains y q)) [
                | inl there ↦ within y (ground (arith, there))
                | inr absent ↦
                    closed x y (ground (arith, h, absent, contains-append y q (get_successors g x)))
              ])
              (omega (arith, fuel, less, length-append q (get_successors g x))) in
          (m', ground (arith, on, e), block_first g reason x q m m' on b)
    ]

open_edges-le :
    (g : ExecutionGraph) (m : Map Tracker) (ids : List ℕ) → open_edges g m ids ≤ edges g ids
unfolding edges
open_edges-le g m [] = omega arith
open_edges-le g m (x ∷ xs) = ground (arith, open_edges-le g m xs)

-- If every successor in the graph is one of its nodes, failing the dependents of a node ends within
-- its fuel. Afterwards no successor of the node is created or ready, no state of a node that was
-- neither has changed, the successors of every node that was blocked are not open either, and no node
-- has other counts of predecessors than before.
pub fail_dependent_nodes-Blocks :
    (g : ExecutionGraph) (id : ℕ) (reason : String) (m : Map Tracker)
    → Closed g (get_all_node_ids g)
    → (m' : Map Tracker) × (fail_dependent_nodes g id reason m ≡ some m')
      × Blocks g (get_successors g id) m m'
unfolding fail_dependent_nodes
fail_dependent_nodes-Blocks g id reason m closed =
    block_loop-Blocks _ g reason (get_all_node_ids g) (get_successors g id) m closed
      (λ y h. closed id y h) (omega (arith, open_edges-le g m (get_all_node_ids g)))
