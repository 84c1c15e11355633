-- ===== src/Graph/Mirror.antt =====
-- src/execution/ExecutionGraph.cpp: the two adjacency lists agree, and name only nodes.
use hetero_accel.Base.{
  ℕ, ◌+◌, ◌≡◌, refl, sym, ap, ◌∙◌, subst, inl, inr, true, false, not, ◌&&◌, ◌||◌, Option, none,
  some, List, [], ◌∷◌, ◌++◌, arith, ◌==◌, if◌then◌else◌, is_some, one_if, ==→≡, ==_self, Bool-cases,
  Option-cases,
}
use hetero_accel.Base.Map.{Map, lookup, put, lookup-put}
use hetero_accel.Graph.{
  Node, ExecutionGraph, empty_graph, listed_at, get_predecessors, get_successors, with_entry,
  add_node, contains, insert_new, add_dependency,
}

-- How often a number stands in a list.
abbrev pub occ : ℕ → List ℕ → ℕ
occ x [] = 0
occ x (y ∷ ys) = one_if (y == x) + occ x ys

-- `s` is a successor of `p` exactly if `p` is a predecessor of `s`, and as often, and
-- then both are nodes.
pub record Mirrored (g : ExecutionGraph) : Type 0 where
  pub mirror : (p s : ℕ) → contains s (get_successors g p) ≡ contains p (get_predecessors g s)
  pub degree : (p s : ℕ) → occ s (get_successors g p) ≡ occ p (get_predecessors g s)
  pub known :
      (p s : ℕ)
      → contains s (get_successors g p) ≡ true
      → (is_some (lookup p g.nodes) ≡ true) × (is_some (lookup s g.nodes) ≡ true)

pub listed_at-with_entry :
    (x y : ℕ) (m : Map (List ℕ)) → listed_at y (with_entry x m) ≡ listed_at y m
listed_at-with_entry x y m = elim (Option-cases (lookup x m)) [
  | inl missing ↦ elim (Bool-cases (x == y)) [
    | inl same ↦
        let e : x ≡ y = ==→≡ x y same in
        let e' : lookup y m ≡ none = subst (λ k. lookup k m ≡ none) e missing in
        ground (arith, missing, e', same, lookup-put x y [] m)
    | inr other ↦ ground (arith, missing, other, lookup-put x y [] m)
  ]
  | inr (v, there) ↦ ground (arith, there)
]

listed_at-put :
    (x y : ℕ) (v : List ℕ) (m : Map (List ℕ))
    → listed_at y (put x v m) ≡ (if x == y then v else listed_at y m)
listed_at-put x y v m = ground (arith, lookup-put x y v m)

pub is_some-put :
    (x y : ℕ) (n : Node) (m : Map Node)
    → is_some (lookup y m) ≡ true
    → is_some (lookup y (put x n m)) ≡ true
is_some-put x y n m h = ground (arith, h, lookup-put x y n m)

contains-snoc : (z x : ℕ) (xs : List ℕ) → contains z (xs ++ x ∷ []) ≡ contains z xs || (x == z)
contains-snoc z x [] = ground arith
contains-snoc z x (y ∷ ys) = ground (arith, contains-snoc z x ys)

contains-insert_new :
    (z x : ℕ) (xs : List ℕ) → contains z (insert_new x xs) ≡ contains z xs || (x == z)
contains-insert_new z x xs = elim (Bool-cases (contains x xs)) [
  | inl there ↦ elim (Bool-cases (x == z)) [
    | inl same ↦
        let e : x ≡ z = ==→≡ x z same in
        let there' : contains z xs ≡ true = subst (λ k. contains k xs ≡ true) e there in
        ground (arith, there, there')
    | inr other ↦ ground (arith, there, other)
  ]
  | inr absent ↦ ground (arith, absent, contains-snoc z x xs)
]

pub empty-Mirrored : Mirrored empty_graph
unfolding get_successors get_predecessors lookup
empty-Mirrored = record { mirror = λ p s. refl; degree = λ p s. refl; known = λ p s h. cc }

-- Adding a node keeps the two lists in agreement.
pub add_node-Mirrored :
    (g : ExecutionGraph) (n : Option Node) → Mirrored g → Mirrored (add_node g n).1
unfolding add_node get_successors get_predecessors
add_node-Mirrored g none h = h
add_node-Mirrored g (some n) h = record {
  mirror = λ p s.
      rw (listed_at-with_entry n.id p g.adj, listed_at-with_entry n.id s g.rev_adj) (h.mirror p s);
  degree = λ p s.
      rw (listed_at-with_entry n.id p g.adj, listed_at-with_entry n.id s g.rev_adj) (h.degree p s);
  known = λ p s e.
      let e' : contains s (listed_at p g.adj) ≡ true =
        ap (contains s) (sym (listed_at-with_entry n.id p g.adj)) ∙ e in
      (
        is_some-put n.id p n g.nodes (h.known p s e').0,
        is_some-put n.id s n g.nodes (h.known p s e').1,
      );
}

occ-snoc : (z x : ℕ) (xs : List ℕ) → occ z (xs ++ x ∷ []) ≡ occ z xs + one_if (x == z)
occ-snoc z x [] = ground arith
occ-snoc z x (y ∷ ys) = ground (arith, occ-snoc z x ys)

occ-insert_new :
    (z x : ℕ) (xs : List ℕ)
    → occ z (insert_new x xs) ≡ occ z xs + one_if (not (contains x xs) && (x == z))
occ-insert_new z x xs = elim (Bool-cases (contains x xs)) [
  | inl there ↦ ground (arith, there)
  | inr absent ↦ ground (arith, absent, occ-snoc z x xs)
]

occ-put :
    (p s x y : ℕ) (m : Map (List ℕ))
    → occ y (listed_at x (put p (insert_new s (listed_at p m)) m))
      ≡ occ y (listed_at x m) + one_if ((p == x) && (not (contains s (listed_at p m)) && (s == y)))
occ-put p s x y m = elim (Bool-cases (p == x)) [
  | inl same ↦
      let e : p ≡ x = ==→≡ p x same in
      rw (listed_at-put p x (insert_new s (listed_at p m)) m, same)
        (subst
          (λ k.
            occ y (insert_new s (listed_at p m))
            ≡ occ y (listed_at k m) + one_if (not (contains s (listed_at p m)) && (s == y)))
          e (occ-insert_new y s (listed_at p m)))
  | inr other ↦ rw (listed_at-put p x (insert_new s (listed_at p m)) m, other) (ground arith)
]

-- What one more entry does to a list of a map.
pub contains-put :
    (p s x y : ℕ) (m : Map (List ℕ))
    → contains y (listed_at x (put p (insert_new s (listed_at p m)) m))
      ≡ contains y (listed_at x m) || ((p == x) && (s == y))
contains-put p s x y m = elim (Bool-cases (p == x)) [
  | inl same ↦
      let e : p ≡ x = ==→≡ p x same in
      rw (listed_at-put p x (insert_new s (listed_at p m)) m, same)
        (subst
          (λ k. contains y (insert_new s (listed_at p m)) ≡ contains y (listed_at k m) || (s == y))
          e (contains-insert_new y s (listed_at p m)))
  | inr other ↦ rw (listed_at-put p x (insert_new s (listed_at p m)) m, other) (ground arith)
]

-- Adding a dependency keeps the two lists in agreement, whether it is added or refused, and if it
-- is added then the successor is found under the predecessor.
pub add_dependency-Mirrored :
    (g : ExecutionGraph) (p s : ℕ)
    → Mirrored g
    → Mirrored (add_dependency g p s).1
      × ((add_dependency g p s).0 ≡ true
          → contains s (get_successors (add_dependency g p s).1 p) ≡ true)
unfolding add_dependency get_successors get_predecessors
add_dependency-Mirrored g p s h =
    elim (Bool-cases (not (is_some (lookup p g.nodes)) || not (is_some (lookup s g.nodes)))) [
      | inl refused ↦ rw refused (h, λ x. cc)
      | inr added ↦ rw added (
        record {
          mirror = λ x y.
              ground
                (arith, contains-put p s x y g.adj, contains-put s p y x g.rev_adj, h.mirror x y);
          degree = λ x y.
              ground (
                arith,
                occ-put p s x y g.adj,
                occ-put s p y x g.rev_adj,
                h.degree x y,
                h.mirror p s,
              );
          known = λ x y e. both x y added (sym (contains-put p s x y g.adj) ∙ e);
        },
        λ _. contains-put p s p s g.adj ∙ ground (arith, ==_self p, ==_self s),
      )
    ]
  where
    both :
        (x y : ℕ)
        → not (is_some (lookup p g.nodes)) || not (is_some (lookup s g.nodes)) ≡ false
        → contains y (listed_at x g.adj) || ((p == x) && (s == y)) ≡ true
        → (is_some (lookup x g.nodes) ≡ true) × (is_some (lookup y g.nodes) ≡ true)
    both x y added e = elim (Bool-cases (contains y (listed_at x g.adj))) [
      | inl there ↦ h.known x y there
      | inr absent ↦
          let ex : p ≡ x = ==→≡ p x (ground (arith, e, absent)) in
          let ey : s ≡ y = ==→≡ s y (ground (arith, e, absent)) in
          (
            subst (λ k. is_some (lookup k g.nodes) ≡ true) ex (ground (arith, added)),
            subst (λ k. is_some (lookup k g.nodes) ≡ true) ey (ground (arith, added)),
          )
    ]
