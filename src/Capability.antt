-- ===== src/Capability.antt =====
-- src/engine/EngineCapability.h: capability sets as bit masks.
use hetero_accel.Base.{ℕ, Bool, not, ◌==◌}
use Prim.Native.Nat.{bit_and, bit_or}

pub data EngineCapability : Type 0 where
  text_generation embeddings vision audio multimodal : EngineCapability
  backend_cpu backend_vulkan backend_cuda backend_npu : EngineCapability
  streaming batching cancellation dynamic_loading : EngineCapability

pub bit : EngineCapability → ℕ
bit text_generation = 0x0001
bit embeddings = 0x0002
bit vision = 0x0004
bit audio = 0x0008
bit multimodal = 0x0010
bit backend_cpu = 0x0100
bit backend_vulkan = 0x0200
bit backend_cuda = 0x0400
bit backend_npu = 0x0800
bit streaming = 0x1000
bit batching = 0x2000
bit cancellation = 0x4000
bit dynamic_loading = 0x8000

-- A set is its mask.
unfoldable pub has : ℕ → EngineCapability → Bool
unfolding bit
has mask cap = not (bit_and mask (bit cap) == 0)

unfoldable pub add : ℕ → EngineCapability → ℕ
unfolding bit
add mask cap = bit_or mask (bit cap)
