-- ===== src/Graph/Cycles/Detect.antt =====
-- src/execution/ExecutionGraph.cpp: `dfs` and `detectCycle` tell whether the graph has a cycle.
use hetero_accel.Base.{
  ℕ, zero, suc, ◌<◌, ◌≡◌, refl, sym, ap, ◌∙◌, subst, ◌≢◌, ◌⊎◌, inl, inr, Bool, true, false, Option,
  some, List, [], ◌∷◌, arith, ◌==◌, if◌then◌else◌, is_some, ==→≡, ==_self, Bool-cases, length,
}
use hetero_accel.Base.Map.{Map, lookup, put}
use hetero_accel.Graph.{
  Node, ExecutionGraph, Mark, unvisited, visiting, visited, mark_of, contains, unmarked, dfs,
  detect_from, detect_cycle, get_successors, keys,
}
use hetero_accel.Graph.Ids.{contains-keys}
use hetero_accel.Graph.Mirror.{Mirrored}
use hetero_accel.Graph.Cycles.{Way, edge, hop, Cycle, Safe, safe, Safe-no_Way}
use hetero_accel.Graph.Cycles.Marks.{
  open_in, mark_of-put, unvisited-put, open_in-put, open_in-le-length, mark_of-unmarked,
}
use hetero_accel.Graph.Cycles.Search.{Swept, Mark-cases, Visits, visit_all-Outcome}

successors-listed :
    (g : ExecutionGraph) (id n : ℕ)
    → Mirrored g
    → contains n (get_successors g id) ≡ true
    → contains n (keys g.nodes) ≡ true
successors-listed g id n mir c = contains-keys n g.nodes ∙ (mir.known id n c).1

-- A mark of one node says nothing about the others.
other_mark :
    (x y : ℕ) (k m : Mark) (st : Map Mark)
    → k ≢ m
    → mark_of y (put x k st) ≡ m
    → ((x == y) ≡ false) × (mark_of y st ≡ m)
other_mark x y k m st n h = elim (Bool-cases (x == y)) [
  | inl same ↦
      let e : mark_of y (put x k st) ≡ k = mark_of-put x y k st ∙ rw same refl in
      elim (n (sym e ∙ h)) [ ]
  | inr other ↦
      let e : mark_of y (put x k st) ≡ mark_of y st = mark_of-put x y k st ∙ rw other refl in
      (other, sym e ∙ h)
]

mark_of-put_other :
    (x y : ℕ) (k m : Mark) (st : Map Mark)
    → mark_of x st ≢ m
    → mark_of y st ≡ m
    → mark_of y (put x k st) ≡ m
mark_of-put_other x y k m st n h = elim (Bool-cases (x == y)) [
  | inl same ↦ elim (n (subst (λ i. mark_of i st ≡ m) (sym (==→≡ x y same)) h)) [ ]
  | inr other ↦ mark_of-put x y k st ∙ rw other h
]

mark_of-put_same : (x : ℕ) (k : Mark) (st : Map Mark) → mark_of x (put x k st) ≡ k
mark_of-put_same x k st = mark_of-put x x k st ∙ rw (==_self x) refl

unvisited≢visited : unvisited ≢ visited
unvisited≢visited h = cc

unvisited≢visiting : unvisited ≢ visiting
unvisited≢visiting h = cc

visiting≢visited : visiting ≢ visited
visiting≢visited h = cc

visited≢visiting : visited ≢ visiting
visited≢visiting h = cc

-- Marking the node before the loop over its successors and after it.
Swept-around :
    (g : ExecutionGraph) (id : ℕ) (st st' : Map Mark)
    → mark_of id st ≡ unvisited
    → Safe g id
    → Swept g (put id visiting st) st'
    → Swept g st (put id visited st')
Swept-around g id st st' white s w = record {
  unopened = λ x h.
      unvisited-put id x visiting st refl (w.unopened x (unvisited-put id x visited st' refl h));
  unclosed = λ x h.
      let (other, h') = other_mark id x visited visiting st' visited≢visiting h in
      sym (mark_of-put id x visiting st ∙ rw other refl) ∙ w.unclosed x h';
  kept = λ x h.
      let h' =
        mark_of-put_other id x visiting visited st (λ e. unvisited≢visited (sym white ∙ e)) h in
      mark_of-put id x visited st' ∙ either (id == x) (w.kept x h');
  shown = λ x h. elim (Bool-cases (id == x)) [
    | inl same ↦ subst (λ i. Safe g i) (==→≡ id x same) s
    | inr other ↦ w.shown x (sym (mark_of-put id x visited st' ∙ rw other refl) ∙ h)
  ];
}
  where
    either : {m : Mark} (b : Bool) → m ≡ visited → (if b then visited else m) ≡ visited
    either true h = refl
    either false h = h

dfs-Visits : (g : ExecutionGraph) → Mirrored g → (k : ℕ) → Visits g k (dfs k g)
unfolding dfs
dfs-Visits g mir zero n st on white le behind s =
    let less = open_in-put n visiting st (keys g.nodes) white refl on in
    let none_open : open_in (put n visiting st) (keys g.nodes) < 0 = omega (arith, less, le) in
    elim (none_open) [ ]
dfs-Visits g mir (suc k) n st on white le behind s =
    let less = open_in-put n visiting st (keys g.nodes) white refl on in
    elim (visit_all-Outcome g k (dfs k g) (dfs-Visits g mir k) n (get_successors g n)
      (put n visiting st) (λ m c. c) (λ m c. successors-listed g n m mir c)
      (omega (arith, less, le)) under white_shown) [
        | inl (st', e', c) ↦
            let e : dfs (suc k) g n st ≡ some (true, st') = ground (arith, e') in inl (st', e, c)
        | inr (st', e', (w, all)) ↦
            let e : dfs (suc k) g n st ≡ some (false, put n visited st') = ground (arith, e') in
            inr (
              put n visited st',
              e,
              (
                Swept-around g n st st' white (safe (λ m c. w.shown m (all m c))) w,
                mark_of-put_same n visited st',
              ),
            )
      ]
  where
    under : (x : ℕ) → mark_of x (put n visiting st) ≡ visiting → (x ≡ n) ⊎ Way g x n
    under x h = elim (Bool-cases (n == x)) [
      | inl same ↦ inl (sym (==→≡ n x same))
      | inr other ↦ inr (behind x (sym (mark_of-put n x visiting st ∙ rw other refl) ∙ h))
    ]

    white_shown : (x : ℕ) → mark_of x (put n visiting st) ≡ visited → Safe g x
    white_shown x h = s x (other_mark n x visiting visited st visiting≢visited h).1

Detected : ExecutionGraph → List ℕ → Option Bool → Type 0
Detected g ns r =
    ((r ≡ some true) × Cycle g) ⊎ ((r ≡ some false) × ((n : ℕ) → contains n ns ≡ true → Safe g n))

Detected-cons :
    (g : ExecutionGraph) (n : ℕ) (ns : List ℕ) (r r' : Option Bool)
    → r ≡ r'
    → Safe g n
    → Detected g ns r'
    → Detected g (n ∷ ns) r
unfolding Detected
Detected-cons g n ns r r' e s (inl (e', c)) = inl (e ∙ e', c)
Detected-cons g n ns r r' e s (inr (e', all)) = inr (
  e ∙ e',
  λ m c. elim (Bool-cases (n == m)) [
    | inl same ↦ subst (λ i. Safe g i) (==→≡ n m same) s
    | inr other ↦ all m (ground (arith, c, other))
  ],
)

length-keys : (m : Map Node) → length (keys m) ≡ length m
unfolding keys
length-keys [] = refl
length-keys ((id, n) ∷ m) = ap suc (length-keys m)

detect_from-Detected :
    (g : ExecutionGraph) (ns : List ℕ) (st : Map Mark)
    → Mirrored g
    → ((n : ℕ) → contains n ns ≡ true → contains n (keys g.nodes) ≡ true)
    → ((x : ℕ) → mark_of x st ≢ visiting)
    → ((x : ℕ) → mark_of x st ≡ visited → Safe g x)
    → Detected g ns (detect_from g ns st)
unfolding detect_from Detected
detect_from-Detected g [] st mir on clear s = inr (refl, λ n c. cc)
detect_from-Detected g (n ∷ ns) st mir on clear s = elim (Mark-cases (mark_of n st)) [
  | inl grey ↦ elim (clear n grey) [ ]
  | inr (inl black) ↦
      let e : detect_from g (n ∷ ns) st ≡ detect_from g ns st = ground (arith, black) in
      Detected-cons g n ns (detect_from g (n ∷ ns) st) (detect_from g ns st) e (s n black)
        (detect_from-Detected g ns st mir rest clear s)
  | inr (inr white) ↦
      elim (dfs-Visits g mir (suc (length g.nodes)) n st (on n (ground (arith, ==_self n))) white
        (omega (arith, open_in-le-length st (keys g.nodes), length-keys g.nodes))
        (λ x h. elim (clear x h) [ ]) s) [
          | inl (st', e', c) ↦
              let e : detect_from g (n ∷ ns) st ≡ some true = ground (arith, white, e') in
              inl (e, c)
          | inr (st', e', (w, black)) ↦
              let e : detect_from g (n ∷ ns) st ≡ detect_from g ns st' =
                ground (arith, white, e') in
              Detected-cons g n ns (detect_from g (n ∷ ns) st) (detect_from g ns st') e
                (w.shown n black)
                (detect_from-Detected g ns st' mir rest (λ x h. clear x (w.unclosed x h)) w.shown)
        ]
]
  where
    rest : (m : ℕ) → contains m ns ≡ true → contains m (keys g.nodes) ≡ true
    rest m c = on m (ground (arith, c))

no_Cycle :
    (g : ExecutionGraph)
    → Mirrored g
    → ((n : ℕ) → contains n (keys g.nodes) ≡ true → Safe g n)
    → ¬ Cycle g
no_Cycle g mir all (x, w) = Safe-no_Way (all x (contains-keys x g.nodes ∙ first w)) w
  where
    first : {y : ℕ} → Way g x y → is_some (lookup x g.nodes) ≡ true
    first (edge {y} c) = (mir.known x y c).0
    first (hop {y} c v) = (mir.known x y c).0

search_all :
    (g : ExecutionGraph)
    → Mirrored g
    → Detected g (keys g.nodes) (detect_from g (keys g.nodes) (unmarked (keys g.nodes)))
search_all g mir =
    detect_from-Detected g (keys g.nodes) (unmarked (keys g.nodes)) mir (λ n c. c)
      (λ x h. unvisited≢visiting (sym (mark_of-unmarked (keys g.nodes) x) ∙ h))
      (λ x h. elim (unvisited≢visited (sym (mark_of-unmarked (keys g.nodes) x) ∙ h)) [ ])

-- If there is no cycle, the ways from each node end.
pub acyclic-Safe :
    (g : ExecutionGraph)
    → Mirrored g
    → ¬ Cycle g
    → (n : ℕ) → is_some (lookup n g.nodes) ≡ true
    → Safe g n
unfolding Detected
acyclic-Safe g mir acyclic n known = elim (search_all g mir) [
  | inl (e, c) ↦ elim (acyclic c) [ ]
  | inr (e, all) ↦ all n (contains-keys n g.nodes ∙ known)
]

-- Take any graph whose two adjacency lists mirror each other, with its successors all nodes. The
-- depth-first search of detectCycle always returns; it returns true exactly if some node leads back
-- to itself along the dependencies, and false exactly if none does.
pub detect_cycle-Cycle :
    (g : ExecutionGraph)
    → Mirrored g
    → ((detect_cycle g ≡ some true) × Cycle g) ⊎ ((detect_cycle g ≡ some false) × ¬ Cycle g)
unfolding detect_cycle Detected
detect_cycle-Cycle g mir = elim (search_all g mir) [
  | inl found ↦ inl found
  | inr (e, all) ↦ inr (e, no_Cycle g mir all)
]
