-- ===== src/Graph/Cycles/Reverse.antt =====
-- src/execution/ExecutionGraph.cpp: the graph with its edges turned around, to go from a node to
-- its predecessors.
use hetero_accel.Base.{ℕ, sym, ◌∙◌}
use hetero_accel.Graph.{ExecutionGraph, get_predecessors, get_successors}
use hetero_accel.Graph.Mirror.{Mirrored}
use hetero_accel.Graph.Cycles.{Way, edge, hop, Cycle, Way-snoc}

abbrev pub reversed : ExecutionGraph → ExecutionGraph
reversed g = record g { adj = g.rev_adj; rev_adj = g.adj }

pub reversed-Mirrored : (g : ExecutionGraph) → Mirrored g → Mirrored (reversed g)
unfolding get_successors get_predecessors
reversed-Mirrored g mir = record {
  mirror = λ p s. sym (mir.mirror s p);
  degree = λ p s. sym (mir.degree s p);
  known = λ p s c. let (a, b) = mir.known s p (mir.mirror s p ∙ c) in (b, a);
}

turned : (g : ExecutionGraph) {x y : ℕ} → Mirrored g → Way (reversed g) x y → Way g y x
unfolding get_successors get_predecessors
turned g mir (edge {x} {y} c) = edge (mir.mirror y x ∙ c)
turned g mir (hop {x} {y} c w) = Way-snoc (turned g mir w) (mir.mirror y x ∙ c)

pub reversed-acyclic : (g : ExecutionGraph) → Mirrored g → ¬ Cycle g → ¬ Cycle (reversed g)
reversed-acyclic g mir acyclic (x, w) = acyclic (x, turned g mir w)
