-- ===== src/Graph/Scheduler/Rounds/Settled.antt =====
-- src/execution/ExecutionGraphScheduler.cpp: when nothing is ready or running, no node of an
-- acyclic graph is left waiting.
use hetero_accel.Base.{
  ℕ, ◌<◌, ◌≡◌, sym, ap, ◌∙◌, subst, ◌⊎◌, inl, inr, Bool, true, false, ◌||◌, Option, none, some,
  List, [], ◌∷◌, arith, ◌==◌, is_some, ==→≡, ==_self, Bool-cases, length,
}
use hetero_accel.Base.Map.{Map, lookup}
use hetero_accel.Graph.{
  ExecutionGraph, GraphNodeState, completed, failed, cancelled, blocked, skipped, contains,
  get_predecessors, get_successors, get_all_node_ids,
}
use hetero_accel.Graph.Mirror.{Mirrored}
use hetero_accel.Graph.Cycles.{Cycle, Safe, safe}
use hetero_accel.Graph.Cycles.Detect.{acyclic-Safe}
use hetero_accel.Graph.Cycles.Reverse.{reversed, reversed-Mirrored, reversed-acyclic}
use hetero_accel.Graph.Scheduler.{Tracker, tracked, is_created, is_ready, Run, start, dispatch_all}
use hetero_accel.Graph.Scheduler.Rounds.{Round, rounds, any_busy}
use hetero_accel.Graph.Scheduler.Rounds.Rule.{OnSome, rounds_ind}
use hetero_accel.Graph.Ids.{contains-get_all_node_ids}
use hetero_accel.Graph.Scheduler.Rounds.Safety.{Exclusive, Exclusive-Rule, start-Exclusive}
use hetero_accel.Graph.Scheduler.Rounds.Progress.{dispatch_all_occupied}
use hetero_accel.Graph.Scheduler.Rounds.Order.{is_running, done_in, done_in-le-length, Ordered}
use hetero_accel.Graph.Scheduler.Rounds.{is_completed}
use hetero_accel.Graph.Scheduler.Rounds.After.{Ordered-Rule}
use hetero_accel.Graph.Scheduler.Rounds.Predecessors.{tracked-start, start-Ordered}
use hetero_accel.Graph.Scheduler.Rounds.Waiting.{Waiting, Waiting-Rule}

abbrev pub is_settled : GraphNodeState → Bool
is_settled completed = true
is_settled failed = true
is_settled cancelled = true
is_settled blocked = true
is_settled skipped = true
is_settled _ = false

-- No node is left to do.
abbrev pub Settled : ExecutionGraph → Run → Type 0
Settled g r =
    (y : ℕ) → is_some (lookup y g.nodes) ≡ true → is_settled (tracked y r.tracker).state ≡ true

-- The main loop does not end early, and it does not stand still.
abbrev pub Advances : ExecutionGraph → Run → Type 0
Advances g r =
    (any_busy r.tracker ≡ false → Settled g r)
    × (Settled g r
        ⊎ (0 < length (dispatch_all g (get_all_node_ids g) (λ id. false) r).active_tasks))

pub start-Waiting : (g : ExecutionGraph) → Waiting g (start g)
start-Waiting g = record {
  short = λ y known c. ground (arith, tracked-start g y, known, c);
  live = λ y p c k. ground (arith, tracked-start g p);
}

quiet :
    (y : ℕ) (m : Map Tracker)
    → any_busy m ≡ false
    → is_created (tracked y m).state ≡ false
    → is_settled (tracked y m).state ≡ true
unfolding any_busy lookup
quiet y [] h c = cc
quiet y ((x, t) ∷ m) h c = elim (Bool-cases (x == y)) [
  | inl same ↦ ground (arith, h, c, same)
  | inr other ↦
      let e : tracked y ((x, t) ∷ m) ≡ tracked y m = ground (arith, other) in
      rw e (quiet y m (ground (arith, h)) (sym (ap (λ (u : Tracker). is_created u.state) e) ∙ c))
]

-- If not all have completed, one of them has not.
one_left :
    (m : Map Tracker) (ps : List ℕ)
    → done_in m ps < length ps
    → (p : ℕ) × (contains p ps ≡ true) × (is_completed (tracked p m).state ≡ false)
one_left m [] h = ground (arith, h)
one_left m (p ∷ ps) h = elim (Bool-cases (is_completed (tracked p m).state)) [
  | inr off ↦ (p, ground (arith, ==_self p), off)
  | inl on ↦ let (q, c, off) = one_left m ps (ground (arith, h, on)) in (q, ground (arith, c), off)
]

module _ (g : ExecutionGraph) (r : Run) (mir : Mirrored g) (o : Ordered g r) (w : Waiting g r) where
  abbrev Active : Type 0
  Active =
      (z : ℕ) × (is_some (lookup z g.nodes) ≡ true)
      × ((is_ready (tracked z r.tracker).state || is_running (tracked z r.tracker).state) ≡ true)

  -- A node that waits has a predecessor that has not completed.
  waits :
      (y : ℕ)
      → is_some (lookup y g.nodes) ≡ true
      → is_created (tracked y r.tracker).state ≡ true
      → (p : ℕ) × (contains p (get_predecessors g y) ≡ true)
        × (is_completed (tracked p r.tracker).state ≡ false)
  waits y known on =
      let s = w.short y known on in
      one_left r.tracker (get_predecessors g y) (
        ground
          (arith, s, o.degree y, o.counted y, done_in-le-length r.tracker (get_predecessors g y)))

  -- By induction on the ways to the node.
  none-created :
      (y : ℕ)
      → Safe (reversed g) y
      → any_busy r.tracker ≡ false
      → is_some (lookup y g.nodes) ≡ true
      → is_created (tracked y r.tracker).state ≡ false
  unfolding get_successors get_predecessors
  none-created y (safe next) idle known =
      elim (Bool-cases (is_created (tracked y r.tracker).state)) [
        | inr off ↦ off
        | inl on ↦
            let (p, c, off) = waits y known on in
            let live = w.live y p on c in
            let there : is_some (lookup p g.nodes) ≡ true =
              (mir.known p y (mir.mirror p y ∙ c)).0 in
            let not_created = none-created p (next p c) idle there in
            let settled = quiet p r.tracker idle not_created in ground (arith, off, live, settled)
      ]

  -- By induction on the ways to the node: it is settled, or some node is ready or running.
  settled-or-active :
      (y : ℕ)
      → Safe (reversed g) y
      → is_some (lookup y g.nodes) ≡ true
      → (is_settled (tracked y r.tracker).state ≡ true) ⊎ Active
  unfolding get_successors get_predecessors
  settled-or-active y (safe next) known =
      elim (Bool-cases (is_created (tracked y r.tracker).state)) [
        | inr off ↦ elim (Bool-cases (is_settled (tracked y r.tracker).state)) [
          | inl on ↦ inl on
          | inr left ↦ inr (y, known, ground (arith, off, left))
        ]
        | inl on ↦
            let (p, c, off) = waits y known on in
            let live = w.live y p on c in
            let there : is_some (lookup p g.nodes) ≡ true =
              (mir.known p y (mir.mirror p y ∙ c)).0 in
            elim (settled-or-active p (next p c) there) [
              | inl settled ↦ absurd (ground (arith, off, live, settled))
              | inr a ↦ inr a
            ]
      ]

-- A property of all members of a list, or one exception.
all_or :
    (A : ℕ → Type 0) (B : Type 0) (ids : List ℕ)
    → ((y : ℕ) → contains y ids ≡ true → A y ⊎ B)
    → ((y : ℕ) → contains y ids ≡ true → A y) ⊎ B
all_or A B [] f = inl (λ y c. cc)
all_or A B (x ∷ xs) f = elim (f x (ground (arith, ==_self x))) [
  | inr b ↦ inr b
  | inl a ↦ elim (all_or A B xs (λ y c. f y (ground (arith, c)))) [
    | inr b ↦ inr b
    | inl all ↦ inl (λ y c. elim (Bool-cases (x == y)) [
      | inl same ↦ subst A (==→≡ x y same) a
      | inr other ↦ all y (ground (arith, c, other))
    ])
  ]
]

-- Take any graph without a cycle whose two adjacency lists mirror each other, and any outcomes of
-- the nodes, round by round, with cancellation at any point. In the state after the rounds, if
-- nothing is ready or running (the condition on which the main loop ends), every node of the graph
-- has completed, failed or been cancelled, blocked or skipped. And in every such state either that
-- holds of every node, or a dispatch of all nodes with the flag not set leaves a task running.
pub rounds-start-Settled :
    (g : ExecutionGraph) (ds : List Round)
    → Mirrored g
    → ¬ Cycle g
    → OnSome (Advances g) (rounds g ds (start g))
rounds-start-Settled g ds mir acyclic =
    OnSome-all (Ordered g) (Waiting g) (Exclusive g) (Advances g)
      (λ r o w x. (
        λ idle y known.
            quiet y r.tracker idle (none-created g r mir o w y (ways y known) idle known),
        advances r o w x,
      ))
      (rounds g ds (start g))
      (rounds_ind g (Ordered g) (Ordered-Rule g mir) ds (start g) (start-Ordered g mir))
      (rounds_ind g (Waiting g) (Waiting-Rule g mir) ds (start g) (start-Waiting g))
      (rounds_ind g (Exclusive g) (Exclusive-Rule g) ds (start g) (start-Exclusive g))
  where
    ways : (y : ℕ) → is_some (lookup y g.nodes) ≡ true → Safe (reversed g) y
    ways = acyclic-Safe (reversed g) (reversed-Mirrored g mir) (reversed-acyclic g mir acyclic)

    advances :
        (r : Run)
        → Ordered g r
        → Waiting g r
        → Exclusive g r
        → Settled g r
          ⊎ (0 < length (dispatch_all g (get_all_node_ids g) (λ id. false) r).active_tasks)
    advances r o w x =
        elim (all_or (λ y. is_settled (tracked y r.tracker).state ≡ true) (Active g r mir o w)
          (get_all_node_ids g)
          (λ y c.
            let known = sym (contains-get_all_node_ids g y) ∙ c in
            settled-or-active g r mir o w y (ways y known) known)) [
              | inl all ↦ inl (λ y known. all y (contains-get_all_node_ids g y ∙ known))
              | inr (z, known, on) ↦ inr (
                  dispatch_all_occupied g (get_all_node_ids g) r z o x on
                    (contains-get_all_node_ids g z ∙ known))
            ]

    OnSome-all :
        (P Q S R : Run → Type 0)
        → ((r : Run) → P r → Q r → S r → R r)
        → (x : Option Run) → OnSome P x
        → OnSome Q x
        → OnSome S x
        → OnSome R x
    OnSome-all P Q S R f none p q s = p
    OnSome-all P Q S R f (some r) p q s = f r p q s
