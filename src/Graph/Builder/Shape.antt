-- ===== src/Graph/Builder/Shape.antt =====
-- src/execution/ExecutionGraphBuilder.cpp: every graph that is built has adjacency lists that agree.
use hetero_accel.Base.{
  ℕ, inl, inr, not, ◌||◌, Option, none, some, List, [], ◌∷◌, Bool-cases, Option-cases, add64,
}
use Prim.Native.String.{String}
use hetero_accel.Residency.Types.{Region, Target}
use hetero_accel.Planner.Types.{ModelExecutionPlan}
use hetero_accel.Graph.{ExecutionResource, ExecutionGraph}
use hetero_accel.Graph.Mirror.{Mirrored, add_node-Mirrored, add_dependency-Mirrored}
use hetero_accel.Graph.Builder.{
  add_residency, add_dependencies, add_compute, build, residency_nodes, residency_of,
  is_unsupported,
}

add_residency-Mirrored :
    (target : Target) (res : ExecutionResource) (rs : List Region) (next : ℕ) (g : ExecutionGraph)
    → Mirrored g
    → Mirrored (add_residency target res rs next g).2
unfolding add_residency
add_residency-Mirrored target res [] next g h = h
add_residency-Mirrored target res (r ∷ rs) next g h =
    add_residency-Mirrored target res rs (add64 next 1) _ (add_node-Mirrored g _ h)

add_dependencies-Mirrored :
    (ids : List ℕ) (successor : ℕ) (g : ExecutionGraph)
    → Mirrored g
    → Mirrored (add_dependencies ids successor g)
unfolding add_dependencies
add_dependencies-Mirrored [] successor g h = h
add_dependencies-Mirrored (id ∷ ids) successor g h =
    add_dependencies-Mirrored ids successor _ (add_dependency-Mirrored g id successor h).0

add_compute-Mirrored :
    (plan : ModelExecutionPlan) (prompt : String) (ids : List ℕ) (next : ℕ) (g : ExecutionGraph)
    → Mirrored g
    → Mirrored (add_compute plan prompt ids next g).1
unfolding add_compute
add_compute-Mirrored plan prompt ids next g h =
    (add_dependency-Mirrored _ next (add64 next 1)
      (add_node-Mirrored _ _ (add_dependencies-Mirrored ids next _ (add_node-Mirrored g _ h)))).0

residency_nodes-Mirrored :
    (wanted : Option (Target × ExecutionResource)) (regions : List Region) (next : ℕ)
    (g : ExecutionGraph)
    → Mirrored g
    → Mirrored (residency_nodes wanted regions next g).2
unfolding residency_nodes
residency_nodes-Mirrored none regions next g h = h
residency_nodes-Mirrored (some (target, res)) regions next g h =
    add_residency-Mirrored target res regions next g h

pub build-Mirrored :
    (plan : ModelExecutionPlan) (regions : List Region) (prompt : String) (next : ℕ)
    (g : ExecutionGraph)
    → Mirrored g
    → Mirrored (build plan regions prompt next g).2
unfolding build
build-Mirrored plan regions prompt next g h =
    elim (Bool-cases (not plan.viable || is_unsupported plan.mode)) [
      | inl off ↦ rw off h
      | inr on ↦ elim (Option-cases (residency_of plan.residency plan.mode)) [
        | inl nothing ↦ rw (on, nothing) h
        | inr (wanted, found) ↦
            rw (on, found)
              (add_compute-Mirrored plan prompt (residency_nodes wanted regions next g).0 _ _
                (residency_nodes-Mirrored wanted regions next g h))
      ]
    ]
