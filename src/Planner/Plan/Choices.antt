-- ===== src/Planner/Plan/Choices.antt =====
-- src/planner/ExecutionPlanner.cpp: which placement `choose` returns, and what it needs.
use hetero_accel.Base.{
  ◌≡◌, refl, Bool, true, false, not, ◌&&◌, Option, none, some, arith, if◌then◌else◌, is_some, leb,
}
use hetero_accel.ModelTypes.{ExecutionStrategy}
use hetero_accel.Planner.Types.{ExecutionMode}
use hetero_accel.Planner.{select_engine, device_usable}
use hetero_accel.Planner.Plan.{
  Slot, Context, fits, partial, Choice, cpu_fallback_available, choose, try_full, try_partial,
  try_streaming, try_cpu, is_hybrid, device, capacity,
}

-- What each placement needs: a device that is usable and has the memory, an engine for the
-- backend, and a configuration that allows it.
abbrev pub grounds : Context → Choice → Bool
grounds c x = elim x.residency [
  | ExecutionStrategy.full_resident ↦
      x.executable
      && c.config.allow_accelerator
      && fits c x.slot
      && is_some (select_engine c.candidates x.mode)
  | ExecutionStrategy.partial_resident ↦ x.executable && is_hybrid x.mode && partial c x.slot
  | ExecutionStrategy.streaming ↦
      not x.executable && c.config.allow_accelerator && c.config.allow_streaming_plan
  | ExecutionStrategy.cpu_fallback ↦ x.executable && cpu_fallback_available c && fits c x.slot
  | _ ↦ false
]

abbrev pub grounds_option : Context → Option Choice → Bool
grounds_option c none = true
grounds_option c (some x) = grounds c x

try_full-grounds :
    (c : Context) (mode : ExecutionMode) (s : Slot) (prev : Option Choice)
    → grounds_option c prev ≡ true
    → grounds_option c (try_full c mode s prev) ≡ true
unfolding try_full
try_full-grounds c mode s (some x) h = h
try_full-grounds c mode s none h = ground arith

try_partial-grounds :
    (c : Context) (mode : ExecutionMode) (s : Slot) (prev : Option Choice)
    → grounds_option c prev ≡ true
    → grounds_option c (try_partial c mode s prev) ≡ true
unfolding try_partial
try_partial-grounds c mode s (some x) h = h
try_partial-grounds c mode s none h = ground arith

try_streaming-grounds :
    (c : Context) (prev : Option Choice)
    → grounds_option c prev ≡ true
    → grounds_option c (try_streaming c prev) ≡ true
unfolding try_streaming
try_streaming-grounds c (some x) h = h
try_streaming-grounds c none h = ground arith

try_cpu-grounds :
    (c : Context) (prev : Option Choice)
    → grounds_option c prev ≡ true
    → grounds_option c (try_cpu c prev) ≡ true
unfolding try_cpu cpu_fallback_available
try_cpu-grounds c (some x) h = h
try_cpu-grounds c none h = ground arith

-- The choice has the grounds that its residency needs.
pub choose-grounds : (c : Context) → grounds_option c (choose c) ≡ true
unfolding choose
choose-grounds c =
    let a = try_full-grounds c ExecutionMode.cuda Slot.cuda none refl in
    let b = try_full-grounds c ExecutionMode.vulkan Slot.vulkan _ a in
    let d = try_partial-grounds c ExecutionMode.cuda Slot.cuda _ b in
    let e = try_partial-grounds c ExecutionMode.vulkan Slot.vulkan _ d in
    try_cpu-grounds c _ (try_streaming-grounds c _ e)

-- Accelerators are allowed, the device is usable, the model's memory is known and is no more than
-- the device's, and some engine is eligible for the mode.
abbrev pub full_possible : Context → ExecutionMode → Slot → Bool
full_possible c mode s =
    c.config.allow_accelerator
    && device_usable (device c s)
    && c.memory_known
    && leb c.model_bytes (capacity (device c s))
    && is_some (select_engine c.candidates mode)

abbrev pub full_choice : ExecutionMode → Slot → Choice
full_choice mode s = record {
  mode = mode;
  residency = ExecutionStrategy.full_resident;
  slot = s;
  executable = true;
  confidence = 90;
}

try_full-Possible :
    (c : Context) (mode : ExecutionMode) (s : Slot)
    → try_full c mode s none ≡ (if full_possible c mode s then some (full_choice mode s) else none)
unfolding try_full fits
try_full-Possible c mode s = ground arith

try_full-none :
    (c : Context) (mode : ExecutionMode) (s : Slot) (prev : Option Choice)
    → try_full c mode s prev ≡ none
    → (prev ≡ none) × (full_possible c mode s ≡ false)
unfolding try_full fits
try_full-none c mode s none e = (refl, ground (arith, e))
try_full-none c mode s (some x) e = cc

try_partial-none :
    (c : Context) (mode : ExecutionMode) (s : Slot) (prev : Option Choice)
    → try_partial c mode s prev ≡ none
    → prev ≡ none
unfolding try_partial
try_partial-none c mode s none e = refl
try_partial-none c mode s (some x) e = e

try_streaming-none :
    (c : Context) (prev : Option Choice) → try_streaming c prev ≡ none → prev ≡ none
unfolding try_streaming
try_streaming-none c none e = refl
try_streaming-none c (some x) e = e

try_cpu-none :
    (c : Context) (prev : Option Choice)
    → try_cpu c prev ≡ none
    → (prev ≡ none) × (cpu_fallback_available c ≡ false)
unfolding try_cpu
try_cpu-none c none e = (refl, ground (arith, e))
try_cpu-none c (some x) e = cc

-- If the configuration allows accelerators, a usable CUDA device has at least the model's known
-- memory, and an eligible engine serves CUDA, then the whole model is placed there; if one of these
-- fails and the same holds of Vulkan, it is placed there; and no placement is found only if it
-- holds of neither and the CPU fallback is not available either.
pub choose-Prefers :
    (c : Context)
    → (full_possible c ExecutionMode.cuda Slot.cuda ≡ true
        → choose c ≡ some (full_choice ExecutionMode.cuda Slot.cuda))
      × ((full_possible c ExecutionMode.cuda Slot.cuda ≡ false
            → full_possible c ExecutionMode.vulkan Slot.vulkan ≡ true
            → choose c ≡ some (full_choice ExecutionMode.vulkan Slot.vulkan))
          × (choose c ≡ none
              → (full_possible c ExecutionMode.cuda Slot.cuda ≡ false)
                × ((full_possible c ExecutionMode.vulkan Slot.vulkan ≡ false)
                    × (cpu_fallback_available c ≡ false))))
unfolding choose try_full try_partial try_streaming try_cpu
choose-Prefers c = (
  λ h. rw (full_on ExecutionMode.cuda Slot.cuda h) refl,
  (
    λ off h.
        rw (full_off ExecutionMode.cuda Slot.cuda off)
          (rw (full_on ExecutionMode.vulkan Slot.vulkan h) refl),
    λ e.
        let (e1, cpu) = try_cpu-none c _ e in
        let e2 = try_streaming-none c _ e1 in
        let e3 = try_partial-none c _ _ _ e2 in
        let e4 = try_partial-none c _ _ _ e3 in
        let (e5, vulkan_off) = try_full-none c _ _ _ e4 in
        let (e6, cuda_off) = try_full-none c _ _ none e5 in (cuda_off, (vulkan_off, cpu)),
  ),
)
  where
    full_on :
        (mode : ExecutionMode) (s : Slot)
        → full_possible c mode s ≡ true
        → try_full c mode s none ≡ some (full_choice mode s)
    full_on mode s h = ground (arith, try_full-Possible c mode s, h)

    full_off :
        (mode : ExecutionMode) (s : Slot)
        → full_possible c mode s ≡ false
        → try_full c mode s none ≡ none
    full_off mode s h = ground (arith, try_full-Possible c mode s, h)
