-- ===== src/Graph/Ids.antt =====
-- src/execution/ExecutionGraph.cpp: `getAllNodeIds` has the id of every node.
use hetero_accel.Base.{ℕ, ◌≡◌, refl, ◌∙◌, ◌||◌, List, [], ◌∷◌, arith, ◌==◌, is_some}
use hetero_accel.Base.Map.{Map, lookup}
use hetero_accel.Graph.{Node, ExecutionGraph, contains, insert_id, sort_ids, keys, get_all_node_ids}

contains-insert_id :
    (y x : ℕ) (xs : List ℕ) → contains y (insert_id x xs) ≡ (x == y) || contains y xs
unfolding insert_id
contains-insert_id y x [] = refl
contains-insert_id y x (z ∷ zs) = ground (arith, contains-insert_id y x zs)

contains-sort_ids : (y : ℕ) (xs : List ℕ) → contains y (sort_ids xs) ≡ contains y xs
unfolding sort_ids
contains-sort_ids y [] = refl
contains-sort_ids y (x ∷ xs) =
    ground (arith, contains-insert_id y x (sort_ids xs), contains-sort_ids y xs)

pub contains-keys : (y : ℕ) (m : Map Node) → contains y (keys m) ≡ is_some (lookup y m)
unfolding keys lookup
contains-keys y [] = refl
contains-keys y ((x, n) ∷ m) = ground (arith, contains-keys y m)

-- An id is listed exactly if it has a node.
pub contains-get_all_node_ids :
    (g : ExecutionGraph) (y : ℕ) → contains y (get_all_node_ids g) ≡ is_some (lookup y g.nodes)
unfolding get_all_node_ids
contains-get_all_node_ids g y = contains-sort_ids y (keys g.nodes) ∙ contains-keys y g.nodes
