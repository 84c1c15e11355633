-- ===== src/Graph/Cycles/Search.antt =====
-- src/execution/ExecutionGraph.cpp: `detectCycle` tells whether the graph has a cycle.
use hetero_accel.Base.{
  ℕ, ◌≤◌, ◌≡◌, refl, sym, ◌∙◌, subst, ◌⊎◌, inl, inr, true, false, some, List, [], ◌∷◌, arith, ◌==◌,
  ==→≡, ==_self, Bool-cases,
}
use hetero_accel.Base.Map.{Map}
use hetero_accel.Graph.{
  ExecutionGraph, Mark, unvisited, visiting, visited, mark_of, contains, Search, visit_all,
  get_successors, keys,
}
use hetero_accel.Graph.Cycles.{Way, edge, Cycle, Safe, Way-snoc}
use hetero_accel.Graph.Cycles.Marks.{open_in, open_in-le}

-- What a search that meets no cycle keeps of the marks, and what it has shown.
pub record Swept (g : ExecutionGraph) (st st' : Map Mark) : Type 0 where
  pub unopened : (x : ℕ) → mark_of x st' ≡ unvisited → mark_of x st ≡ unvisited
  pub unclosed : (x : ℕ) → mark_of x st' ≡ visiting → mark_of x st ≡ visiting
  pub kept : (x : ℕ) → mark_of x st ≡ visited → mark_of x st' ≡ visited
  pub shown : (x : ℕ) → mark_of x st' ≡ visited → Safe g x

-- The two ends of a search: a cycle of the graph, or marks that satisfy a predicate.
abbrev pub Outcome : ExecutionGraph → Search → (Map Mark → Type 0) → Type 0
Outcome g r P =
    ((st' : Map Mark) × (r ≡ some (true, st')) × Cycle g)
    ⊎ ((st' : Map Mark) × (r ≡ some (false, st')) × P st')

Swept-refl :
    (g : ExecutionGraph) (st : Map Mark)
    → ((x : ℕ) → mark_of x st ≡ visited → Safe g x)
    → Swept g st st
Swept-refl g st s = record { unopened = λ x h. h; unclosed = λ x h. h; kept = λ x h. h; shown = s }

pub Swept-trans : {g : ExecutionGraph} {a b c : Map Mark} → Swept g a b → Swept g b c → Swept g a c
Swept-trans h k = record {
  unopened = λ x e. h.unopened x (k.unopened x e);
  unclosed = λ x e. h.unclosed x (k.unclosed x e);
  kept = λ x e. k.kept x (h.kept x e);
  shown = k.shown;
}

-- The nodes under search lead to the node `id`, or are it.
abbrev Behind : ExecutionGraph → ℕ → Map Mark → Type 0
Behind g id st = (x : ℕ) → mark_of x st ≡ visiting → (x ≡ id) ⊎ Way g x id

-- What the search of one unvisited node promises, if the fuel is enough for the open nodes.
abbrev pub Visits : ExecutionGraph → ℕ → (ℕ → Map Mark → Search) → Type 0
Visits g k visit =
    (n : ℕ) (st : Map Mark)
    → contains n (keys g.nodes) ≡ true
    → mark_of n st ≡ unvisited
    → open_in st (keys g.nodes) ≤ k
    → ((x : ℕ) → mark_of x st ≡ visiting → Way g x n)
    → ((x : ℕ) → mark_of x st ≡ visited → Safe g x)
    → Outcome g (visit n st) (λ st'. Swept g st st' × (mark_of n st' ≡ visited))

to_successor :
    (g : ExecutionGraph) (id n x : ℕ)
    → contains n (get_successors g id) ≡ true
    → (x ≡ id) ⊎ Way g x id
    → Way g x n
to_successor g id n x c (inl e) = subst (λ k. Way g k n) (sym e) (edge c)
to_successor g id n x c (inr w) = Way-snoc w c

pub Mark-cases : (m : Mark) → (m ≡ visiting) ⊎ ((m ≡ visited) ⊎ (m ≡ unvisited))
Mark-cases unvisited = inr (inr refl)
Mark-cases visiting = inl refl
Mark-cases visited = inr (inl refl)

-- A search that ends as another one does.
pub Outcome-step :
    (g : ExecutionGraph) (r r' : Search) {P Q : Map Mark → Type 0}
    → r ≡ r'
    → ((st' : Map Mark) → P st' → Q st')
    → Outcome g r' P
    → Outcome g r Q
Outcome-step g r r' e f (inl (st', e', c)) = inl (st', e ∙ e', c)
Outcome-step g r r' e f (inr (st', e', p)) = inr (st', e ∙ e', f st' p)

-- All of a list are visited, and stay so.
abbrev pub AllVisited : List ℕ → Map Mark → Type 0
AllVisited ns st = (n : ℕ) → contains n ns ≡ true → mark_of n st ≡ visited

AllVisited-cons :
    (n : ℕ) (ns : List ℕ) (st : Map Mark)
    → mark_of n st ≡ visited
    → AllVisited ns st
    → AllVisited (n ∷ ns) st
AllVisited-cons n ns st h all m c = elim (Bool-cases (n == m)) [
  | inl same ↦ subst (λ i. mark_of i st ≡ visited) (==→≡ n m same) h
  | inr other ↦ all m (ground (arith, c, other))
]

module _ (g : ExecutionGraph) (k : ℕ) (visit : ℕ → Map Mark → Search)
    (visits : Visits g k visit) where
  pub visit_all-Outcome :
      (id : ℕ) (ns : List ℕ) (st : Map Mark)
      → ((n : ℕ) → contains n ns ≡ true → contains n (get_successors g id) ≡ true)
      → ((n : ℕ) → contains n ns ≡ true → contains n (keys g.nodes) ≡ true)
      → open_in st (keys g.nodes) ≤ k
      → Behind g id st
      → ((x : ℕ) → mark_of x st ≡ visited → Safe g x)
      → Outcome g (visit_all visit ns st) (λ st'. Swept g st st' × AllVisited ns st')
  unfolding visit_all
  visit_all-Outcome id [] st sub on le behind s = inr (st, refl, (Swept-refl g st s, λ n c. cc))
  visit_all-Outcome id (n ∷ ns) st sub on le behind s = elim (Mark-cases (mark_of n st)) [
    | inl grey ↦
        let e : visit_all visit (n ∷ ns) st ≡ some (true, st) = ground (arith, grey) in
        inl (st, e, (n, to_successor g id n n (sub n here) (behind n grey)))
    | inr (inl black) ↦
        let e : visit_all visit (n ∷ ns) st ≡ visit_all visit ns st = ground (arith, black) in
        Outcome-step g (visit_all visit (n ∷ ns) st) (visit_all visit ns st) e
          (λ st' (w, all). (w, AllVisited-cons n ns st' (w.kept n black) all))
          (visit_all-Outcome id ns st (λ m c. sub m (there m c)) (λ m c. on m (there m c)) le behind
            s)
    | inr (inr white) ↦
        elim (visits n st (on n here) white le
          (λ x h. to_successor g id n x (sub n here) (behind x h)) s) [
            | inl (st', e', c) ↦
                let e : visit_all visit (n ∷ ns) st ≡ some (true, st') =
                  ground (arith, white, e') in
                inl (st', e, c)
            | inr (st', e', (w, black)) ↦
                let e : visit_all visit (n ∷ ns) st ≡ visit_all visit ns st' =
                  ground (arith, white, e') in
                Outcome-step g (visit_all visit (n ∷ ns) st) (visit_all visit ns st') e
                  (λ st'' (w', all).
                    (Swept-trans w w', AllVisited-cons n ns st'' (w'.kept n black) all))
                  (visit_all-Outcome id ns st' (λ m c. sub m (there m c)) (λ m c. on m (there m c))
                    (omega (arith, le, open_in-le st st' (keys g.nodes) w.unopened))
                    (λ x h. behind x (w.unclosed x h)) w.shown)
          ]
  ]
    where
      here : contains n (n ∷ ns) ≡ true
      here = ground (arith, ==_self n)

      there : (m : ℕ) → contains m ns ≡ true → contains m (n ∷ ns) ≡ true
      there m c = ground (arith, c)
