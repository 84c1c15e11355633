-- ===== src/Residency/Types.antt =====
-- src/model/ModelRegion.h, src/model/ModelResidencyTypes.h, src/model/IAcceleratorMemory.h and the
-- state of src/model/ModelResidencyManager.h. Durations in milliseconds are not modelled, and a
-- buffer in host memory is the list of its bytes.
use Prim.Native.String.{String}
use hetero_accel.Base.{ℕ, Bool, Option, List}
use hetero_accel.Base.Map.{Map}

pub data RegionKind : Type 0 where
  generic tensor layer weight_block attention_block embedding_block expert custom : RegionKind

pub record Region : Type 0 where
  pub id : ℕ
  pub offset : ℕ
  pub size : ℕ
  pub identifier : String
  pub kind : RegionKind
  pub layer : ℕ
  pub tensor : ℕ

pub data ResidencyState : Type 0 where
  not_resident loading_to_ram resident_in_ram loading_to_accelerator : ResidencyState
  resident_in_accelerator evicting error : ResidencyState

pub data Target : Type 0 where
  ram accelerator : Target

pub record Budget : Type 0 where
  pub ram_bytes : ℕ
  pub accelerator_bytes : ℕ
  pub prefetch_bytes : ℕ

pub record Telemetry : Type 0 where
  pub bytes_read_from_disk : ℕ
  pub bytes_to_ram : ℕ
  pub bytes_to_accelerator : ℕ
  pub eviction_count : ℕ
  pub prefetch_count : ℕ
  pub prefetch_hits : ℕ
  pub prefetch_misses : ℕ
  pub resident_ram_bytes : ℕ
  pub resident_accelerator_bytes : ℕ
  pub peak_ram_bytes : ℕ
  pub peak_accelerator_bytes : ℕ
  pub transfer_failures : ℕ

-- The texts that the manager stores as its last error.
pub data LastError : Type 0 where
  no_error invalid_region already_transferring cancelled_before_ram : LastError
  ram_allocation_failed : String → LastError
  source_failed accelerator_unavailable no_ram_buffer cancelled_before_upload : LastError
  device_failed ram_budget_exhausted cannot_evict accelerator_budget_exhausted : LastError

-- `IAcceleratorMemory`: what the manager calls. A device pointer is a number.
pub record AcceleratorMemory : Type 1 where
  pub State : Type 0
  pub is_available : State → Bool
  pub available : State → ℕ
  pub allocate : State → ℕ → Option ℕ × State
  pub release : State → ℕ → State
  pub upload : State → List ℕ → ℕ → ℕ → Bool × State

-- `ModelResidencyManager::Record`. The two counts are `int`s, kept as their 32 bits in two's complement.
pub record Record : Type 0 where
  pub region : Region
  pub state : ResidencyState
  pub ram : Option (List ℕ)
  pub accel : Option ℕ
  pub refs : ℕ
  pub pins : ℕ
  pub last_used : ℕ
  pub transferring : Bool
  pub prefetched : Bool

pub record Manager (dev : AcceleratorMemory) : Type 0 where
  pub budget : Budget
  pub accelerator : Option dev.State
  pub prefetch_enabled : Bool
  pub records : Map Record
  pub telemetry : Telemetry
  pub last_error : LastError

-- What a call reads from outside: the clock, the cancel flag at its two reads, whether the host
-- allocation succeeds, and the data source's `read` of a number of bytes at an offset.
pub record World : Type 0 where
  pub now : ℕ
  pub cancel_before_ram : Bool
  pub cancel_before_upload : Bool
  pub host_allocates : Bool
  pub read : ℕ → ℕ → Option (List ℕ)
