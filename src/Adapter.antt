-- ===== src/Adapter.antt =====
-- src/model/PlanResidencyAdapter.cpp: a plan carried out on the residency manager.
pub mod Counts
mod Tests
use hetero_accel.Base.{
  ℕ, zero, suc, ◌+◌, ◌-◌, ◌*◌, ◌/◌, ◌%◌, ◌^◌, ◌≤◌, ◌<◌, min, max, ◌≡◌, refl, sym, ap, ◌∙◌, subst,
  ◌≢◌, ◌⊎◌, inl, inr, Bool, true, false, not, ◌&&◌, ◌||◌, Option, none, some, List, [], ◌∷◌, ◌++◌,
  map, arith, ltb, leb, ◌==◌, if◌then◌else◌, is_some, ==→≡, ==_self, Bool-cases, Option-cases,
  length, All, length-append, take, take-take, u64_mod, u32_mod, add64, mul64,
}
use hetero_accel.Base.Map.{
  Map, lookup, put, erase, Distinct, Each, total, lookup-put, lookup-erase, put-Distinct,
  erase-Distinct, total-put_old, total-put_new, total-erase, length-erase, total-get,
  total-le-length, Each-map, Each-lookup, Each-put, Each-erase,
}
use Prim.Native.String.{String}
use hetero_accel.ModelTypes.{ExecutionStrategy}
use hetero_accel.Residency.Types.{
  Region, Target, ram, accelerator, AcceleratorMemory, Manager, World, LastError,
}
use hetero_accel.Residency.Methods.{ensure_resident}
use hetero_accel.Planner.Types.{ExecutionMode, Explanation, ModelExecutionPlan}
use hetero_accel.Extractor.{FileView, ExtractError, whole_file_region, extract}

-- What one round of a loop reads from outside: the cancel flag at the top of the round, and the
-- surroundings of the first and the second call of the manager.
pub record Turn : Type 0 where
  pub cancelled : Bool
  pub first : World
  pub second : World

pub record Tally : Type 0 where
  pub regions_ram : ℕ
  pub regions_accel : ℕ
  pub uploaded_bytes : ℕ

pub data AdapterText : Type 0 where
  no_text unsupported_plan cpu_fallback streaming full_resident : AdapterText
  partial_resident hybrid unknown_strategy : AdapterText

pub data AdapterError : Type 0 where
  no_error cancelled : AdapterError
  not_viable : Explanation → AdapterError
  cannot_extract : ExtractError → AdapterError
  manager_error : LastError → AdapterError

pub record PlanResidencyResult : Type 0 where
  pub success : Bool
  pub regions_total : ℕ
  pub regions_ram : ℕ
  pub regions_accel : ℕ
  pub explanation : AdapterText
  pub error : AdapterError

abbrev pub next_u32 : ℕ → ℕ
next_u32 n = (n + 1) % u32_mod

-- `regions_ram++`, and `regions_accel++` where the target is the accelerator.
abbrev pub count_region : Bool → Tally → Tally
count_region use_accel t = record t {
  regions_ram = next_u32 t.regions_ram;
  regions_accel = if use_accel then next_u32 t.regions_accel else t.regions_accel;
}

abbrev pub count_upload : ℕ → Tally → Tally
count_upload size t = record t {
  regions_accel = next_u32 t.regions_accel;
  uploaded_bytes = add64 t.uploaded_bytes size;
}

abbrev pub target_of : Bool → Target
target_of true = accelerator
target_of false = ram

abbrev pub on_accelerator : ExecutionMode → Bool
on_accelerator ExecutionMode.vulkan = true
on_accelerator ExecutionMode.cuda = true
on_accelerator _ = false

abbrev pub is_unsupported : ExecutionMode → Bool
is_unsupported ExecutionMode.unsupported = true
is_unsupported _ = false

module _ (dev : AcceleratorMemory) where
  -- How a loop ends: whether the flag stopped it, the counts, and the manager.
  abbrev pub Outcome : Type 0
  Outcome = Bool × Tally × Manager dev

  -- The loops that bring every region to one target. The loop for an unknown strategy does not
  -- read the cancel flag itself.
  pub load_each : Bool → Bool → List Region → (ℕ → Turn) → Tally → Manager dev → Outcome
  load_each reads_flag use_accel [] turns t m = (false, t, m)
  load_each reads_flag use_accel (r ∷ rs) turns t m =
      let (ok, m') = ensure_resident dev m r (target_of use_accel) (turns 0).first in
      let rest =
        load_each reads_flag use_accel rs (λ n. turns (suc n))
          (if ok then count_region use_accel t else t) m' in
      if reads_flag && (turns 0).cancelled then (true, t, m) else rest

  -- One round of the partial loop, after the flag was read.
  pub load_part : Bool → ℕ → Region → Turn → Tally → Manager dev → Tally × Manager dev
  load_part use_accel budget r turn t m =
      let (ok, m') = ensure_resident dev m r ram turn.first in
      if not ok
      then (t, m')
      else let t' = count_region false t in
        if use_accel && ltb 0 budget && leb (add64 t'.uploaded_bytes r.size) budget
        then (let (up, m'') = ensure_resident dev m' r accelerator turn.second in
            (if up then count_upload r.size t' else t', m''))
        else (t', m')

  pub load_partial : Bool → ℕ → List Region → (ℕ → Turn) → Tally → Manager dev → Outcome
  unfolding load_part
  load_partial use_accel budget [] turns t m = (false, t, m)
  load_partial use_accel budget (r ∷ rs) turns t m =
      let (t', m') = load_part use_accel budget r (turns 0) t m in
      let rest = load_partial use_accel budget rs (λ n. turns (suc n)) t' m' in
      if (turns 0).cancelled then (true, t, m) else rest

  abbrev pub no_regions : Tally
  no_regions = record { regions_ram = 0; regions_accel = 0; uploaded_bytes = 0 }

  -- The loop that a strategy runs, if it runs one.
  pub run_strategy : ModelExecutionPlan → List Region → (ℕ → Turn) → Manager dev → Outcome
  unfolding load_each load_partial
  run_strategy plan regions turns m = elim plan.residency [
    | ExecutionStrategy.cpu_fallback ↦ load_each true false regions turns no_regions m
    | ExecutionStrategy.streaming ↦ (false, no_regions, m)
    | ExecutionStrategy.full_resident ↦
        load_each true (on_accelerator plan.mode) regions turns no_regions m
    | ExecutionStrategy.auto ↦ load_each true (on_accelerator plan.mode) regions turns no_regions m
    | ExecutionStrategy.partial_resident ↦
        load_partial (on_accelerator plan.mode) plan.memory_budget_bytes regions turns no_regions m
    | ExecutionStrategy.accelerator_offload ↦
        load_partial (on_accelerator plan.mode) plan.memory_budget_bytes regions turns no_regions m
    | ExecutionStrategy.hybrid ↦
        load_each true (on_accelerator plan.mode) regions turns no_regions m
    | ExecutionStrategy.memory_pressure ↦ load_each false false regions turns no_regions m
  ]

  abbrev pub succeeded : ExecutionStrategy → ℕ → Tally → Bool
  succeeded ExecutionStrategy.cpu_fallback total t = t.regions_ram == total
  succeeded ExecutionStrategy.streaming total t = true
  succeeded _ total t = ltb 0 t.regions_ram

  -- The explanation, which the HYBRID branch sets only after its loop.
  abbrev pub text_of : ExecutionStrategy → Bool → AdapterText
  text_of ExecutionStrategy.cpu_fallback stopped = AdapterText.cpu_fallback
  text_of ExecutionStrategy.streaming stopped = AdapterText.streaming
  text_of ExecutionStrategy.full_resident stopped = AdapterText.full_resident
  text_of ExecutionStrategy.auto stopped = AdapterText.full_resident
  text_of ExecutionStrategy.partial_resident stopped = AdapterText.partial_resident
  text_of ExecutionStrategy.accelerator_offload stopped = AdapterText.partial_resident
  text_of ExecutionStrategy.hybrid stopped =
      if stopped then AdapterText.no_text else AdapterText.hybrid
  text_of ExecutionStrategy.memory_pressure stopped = AdapterText.unknown_strategy

  -- The result after the loop: a stopped loop returns at once.
  pub report : ModelExecutionPlan → ℕ → Outcome → PlanResidencyResult
  report plan total (stopped, t, m) =
      let ok = not stopped && succeeded plan.residency total t in
      record {
        success = ok;
        regions_total = total;
        regions_ram = t.regions_ram;
        regions_accel = t.regions_accel;
        explanation = text_of plan.residency stopped;
        error =
            if stopped
            then AdapterError.cancelled
            else if ok
            then AdapterError.no_error
            else AdapterError.manager_error m.last_error;
      }

  pub refused : AdapterText → AdapterError → PlanResidencyResult
  refused text error = record {
    success = false;
    regions_total = 0;
    regions_ram = 0;
    regions_accel = 0;
    explanation = text;
    error = error;
  }

  -- After the regions were extracted.
  pub apply_regions :
      ModelExecutionPlan
      → List Region
      → (ℕ → Turn)
      → Manager dev
      → PlanResidencyResult × Manager dev
  unfolding run_strategy report
  apply_regions plan regions turns m =
      let out = run_strategy plan regions turns m in
      (report plan (length regions % u32_mod) out, out.2)

  -- The extracted regions, or the whole file where there are none.
  pub regions_or_whole : String → FileView → List Region → Option (List Region)
  regions_or_whole path file [] =
      let w = whole_file_region path 1 file in if w.size == 0 then none else some (w ∷ [])
  regions_or_whole path file (r ∷ rs) = some (r ∷ rs)

  -- `PlanResidencyAdapter::apply`.
  pub apply :
      ModelExecutionPlan
      → String
      → FileView
      → (ℕ → Turn)
      → Manager dev
      → PlanResidencyResult × Manager dev
  unfolding apply_regions refused regions_or_whole
  apply plan path file turns m =
      if not plan.viable || is_unsupported plan.mode
      then (refused AdapterText.unsupported_plan (AdapterError.not_viable plan.explanation), m)
      else elim (regions_or_whole path file (extract path 1 file).0) [
        | none ↦ (
          refused AdapterText.no_text (AdapterError.cannot_extract (ExtractError.cannot_stat path)),
          m,
        )
        | some rs ↦ apply_regions plan rs turns m
      ]
