-- ===== src/Graph/Builder/Edges.antt =====
-- src/execution/ExecutionGraphBuilder.cpp: the edges of the graph that is built.
use hetero_accel.Base.{
  ℕ, ◌+◌, ◌≤◌, ◌<◌, ◌≡◌, true, ◌&&◌, Option, none, some, List, ltb, leb, is_some, length,
}
use hetero_accel.Base.Map.{lookup}
use Prim.Native.String.{String}
use hetero_accel.Residency.Types.{Region, Target}
use hetero_accel.Graph.{ExecutionResource, ExecutionGraph, contains, get_successors}

abbrev pub IsNode : ExecutionGraph → ℕ → Type 0
IsNode g x = is_some (lookup x g.nodes) ≡ true

abbrev pub Edge : ExecutionGraph → ℕ → ℕ → Type 0
Edge g x y = contains y (get_successors g x) ≡ true

-- Nodes and edges stay.
record Extends (g g' : ExecutionGraph) : Type 0 where
  pub nodes : (x : ℕ) → IsNode g x → IsNode g' x
  pub edges : (x y : ℕ) → Edge g x y → Edge g' x y

-- `n` nodes with the ids from `next` on have been added.
record Adds (n next : ℕ) (out : List ℕ × ℕ × ExecutionGraph) : Type 0 where
  pub next_id : out.1 ≡ next + n
  pub ids : (i : ℕ) → contains i out.0 ≡ (leb next i && ltb i (next + n))
  pub known : (i : ℕ) → contains i out.0 ≡ true → IsNode out.2 i

-- How many residency nodes there are.
abbrev pub residency_count : Option (Target × ExecutionResource) → List Region → ℕ
residency_count none regions = 0
residency_count (some wanted) regions = length regions

-- The barrier `next + n` comes after each of the `n` residency nodes from `next` on, and the
-- computation comes after the barrier.
pub record IsChained (n next : ℕ) (g : ExecutionGraph) : Type 0 where
  pub waits : (i : ℕ) → next ≤ i → i < next + n → Edge g i (next + n)
  pub computes : Edge g (next + n) (next + n + 1)
