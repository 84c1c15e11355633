-- ===== src/Graph/Scheduler/Rounds/Known.antt =====
-- src/execution/ExecutionGraphScheduler.cpp: the edges of a graph stay among its nodes.
use hetero_accel.Base.{◌∙◌}
use hetero_accel.Graph.{ExecutionGraph, get_all_node_ids}
use hetero_accel.Graph.Ids.{contains-get_all_node_ids}
use hetero_accel.Graph.Mirror.{Mirrored}
use hetero_accel.Graph.Scheduler.Blocking.{Closed}

pub Mirrored-Closed : (g : ExecutionGraph) → Mirrored g → Closed g (get_all_node_ids g)
Mirrored-Closed g h x y e = contains-get_all_node_ids g y ∙ (h.known x y e).1
