-- ===== src/ModelTypes.antt =====
-- src/model/ModelTypes.h: the enumerations that the scheduler, the planner and the residency
-- components share.
pub data ExecutionStrategy : Type 0 where
  auto full_resident partial_resident streaming memory_pressure cpu_fallback : ExecutionStrategy
  accelerator_offload hybrid : ExecutionStrategy

pub data WorkloadClass : Type 0 where
  default low_latency throughput memory_bound compute_bound streams background : WorkloadClass
  interactive batch : WorkloadClass

pub data ResourceResidency : Type 0 where
  disk cold warm hot loading evicting : ResourceResidency
