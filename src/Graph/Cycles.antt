-- ===== src/Graph/Cycles.antt =====
-- src/execution/ExecutionGraph.cpp: what a cycle of dependencies is, and the nodes that lie on none.
use hetero_accel.Graph.{ExecutionGraph, contains, get_successors}
pub mod Marks
pub mod Search
pub mod Detect
pub mod Reverse
use hetero_accel.Base.{
  ℕ, zero, suc, ◌+◌, ◌-◌, ◌*◌, ◌/◌, ◌%◌, ◌^◌, ◌≤◌, ◌<◌, min, max, ◌≡◌, refl, sym, ap, ◌∙◌, subst,
  ◌≢◌, ◌⊎◌, inl, inr, Bool, true, false, not, ◌&&◌, ◌||◌, Option, none, some, List, [], ◌∷◌, ◌++◌,
  map, arith, ltb, leb, ◌==◌, if◌then◌else◌, is_some, one_if, ==→≡, ==_self, Bool-cases,
  Option-cases, length, All, length-append, take, take-take, u64_mod, u32_mod, add64, mul64,
}
use hetero_accel.Base.Map.{
  Map, lookup, put, erase, Distinct, Each, total, lookup-put, lookup-erase, put-Distinct,
  erase-Distinct, total-put_old, total-put_new, total-erase, length-erase, total-get,
  total-le-length, Each-map, Each-lookup, Each-put, Each-erase,
}

-- A way along the dependencies, of at least one edge.
pub data Way (g : ExecutionGraph) : ℕ → ℕ → Type 0 where
  edge : {x y : ℕ} → contains y (get_successors g x) ≡ true → Way g x y
  hop : {x y z : ℕ} → contains y (get_successors g x) ≡ true → Way g y z → Way g x z

-- Some node leads back to itself.
abbrev pub Cycle : ExecutionGraph → Type 0
Cycle g = (x : ℕ) × Way g x x

-- The ways from a node all end.
pub data Safe (g : ExecutionGraph) : ℕ → Type 0 where
  safe : {x : ℕ} → ((y : ℕ) → contains y (get_successors g x) ≡ true → Safe g y) → Safe g x

pub Way-snoc :
    {g : ExecutionGraph} {x y z : ℕ}
    → Way g x y
    → contains z (get_successors g y) ≡ true
    → Way g x z
Way-snoc (edge e) c = hop e (edge c)
Way-snoc (hop e w) c = hop e (Way-snoc w c)

-- A way that leads back to its start also leads from its second node back to that.
pub Safe-no_Way : {g : ExecutionGraph} {x : ℕ} → Safe g x → ¬ Way g x x
Safe-no_Way {x} (safe next) (edge e) = Safe-no_Way (next x e) (edge e)
Safe-no_Way (safe next) (hop {y} e w) = Safe-no_Way (next y e) (Way-snoc w e)
