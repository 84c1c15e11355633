-- ===== src/Adapter/Counts.antt =====
-- src/model/PlanResidencyAdapter.cpp: the counts in the result.
use hetero_accel.Base.{
  ℕ, suc, ◌+◌, ◌%◌, ◌≤◌, ◌<◌, ◌≡◌, inl, inr, Bool, true, false, not, ◌&&◌, ◌||◌, some, List, [],
  ◌∷◌, arith, ltb, leb, if◌then◌else◌, Bool-cases, length, u32_mod,
}
use Prim.Native.String.{String}
use hetero_accel.ModelTypes.{ExecutionStrategy}
use hetero_accel.Residency.Types.{Region, ram, accelerator, AcceleratorMemory, Manager}
use hetero_accel.Residency.Methods.{ensure_resident}
use hetero_accel.Planner.Types.{ModelExecutionPlan}
use hetero_accel.Planner.Plan.Assembly.{plan}
use hetero_accel.Extractor.{FileView, extract}
use hetero_accel.Adapter.{
  Turn, Tally, count_region, target_of, on_accelerator, is_unsupported, load_each, load_part,
  load_partial, run_strategy, no_regions, apply_regions, refused, regions_or_whole, apply, report,
  PlanResidencyResult,
}

-- From `t` to `t'` the RAM count goes up by at most `n`, and there are no more regions on the
-- accelerator than in RAM.
pub record Counts (n : ℕ) (t t' : Tally) : Type 0 where
  pub most : t'.regions_ram ≤ t.regions_ram + n
  pub accel : t'.regions_accel ≤ t'.regions_ram

-- The regions at the places that are marked.
abbrev pub chosen : List Bool → List Region → List Region
chosen [] rs = []
chosen (b ∷ bs) [] = []
chosen (b ∷ bs) (r ∷ rs) = if b then r ∷ chosen bs rs else chosen bs rs

abbrev pub bytes_of : List Region → ℕ
bytes_of [] = 0
bytes_of (r ∷ rs) = r.size + bytes_of rs

-- From `t` to `t'` the regions that are marked were uploaded, within the budget.
pub record Spends (budget : ℕ) (rs : List Region) (marks : List Bool) (t t' : Tally) : Type 0 where
  pub regions : t'.regions_accel ≡ t.regions_accel + length (chosen marks rs)
  pub bytes : t'.uploaded_bytes ≡ t.uploaded_bytes + bytes_of (chosen marks rs)
  pub within : t'.uploaded_bytes ≤ budget

Counts-one :
    (b use_accel : Bool) (n : ℕ) (t : Tally)
    → t.regions_accel ≤ t.regions_ram
    → t.regions_ram + n + 1 < u32_mod
    → let t' : Tally = if b then count_region use_accel t else t in
      (t'.regions_accel ≤ t'.regions_ram) × (t'.regions_ram ≤ t.regions_ram + 1)
Counts-one b use_accel n t h small = (ground (arith, h, small), ground (arith, h, small))

module _ (dev : AcceleratorMemory) where
  load_each-Counts :
      (reads_flag use_accel : Bool) (rs : List Region) (turns : ℕ → Turn) (t : Tally)
      (m : Manager dev)
      → t.regions_accel ≤ t.regions_ram
      → t.regions_ram + length rs < u32_mod
      → Counts (length rs) t (load_each dev reads_flag use_accel rs turns t m).1
  unfolding load_each
  load_each-Counts reads_flag use_accel [] turns t m h small = record {
    most = omega arith;
    accel = h;
  }
  load_each-Counts reads_flag use_accel (r ∷ rs) turns t m h small =
      let out = ensure_resident dev m r (target_of use_accel) (turns 0).first in
      let t' : Tally = if out.0 then count_region use_accel t else t in
      let (a, most) = Counts-one out.0 use_accel (length rs) t h (omega (arith, small)) in
      let ih =
        load_each-Counts reads_flag use_accel rs (λ n. turns (suc n)) t' out.1 a
          (omega (arith, small, most)) in
      elim (Bool-cases (reads_flag && (turns 0).cancelled)) [
        | inl stop ↦ rw stop (record { most = omega arith; accel = h })
        | inr go ↦ rw go (record { most = omega (arith, ih.most, most); accel = ih.accel })
      ]

  -- One round adds at most one to the RAM count.
  load_part-Counts :
      (use_accel : Bool) (budget : ℕ) (r : Region) (turn : Turn) (t : Tally) (m : Manager dev)
      → t.regions_accel ≤ t.regions_ram
      → t.regions_ram + 1 < u32_mod
      → Counts 1 t (load_part dev use_accel budget r turn t m).0
  unfolding load_part
  load_part-Counts use_accel budget r turn t m h small =
      let out = ensure_resident dev m r ram turn.first in
      let up = ensure_resident dev out.1 r accelerator turn.second in
      record { most = ground (arith, h, small); accel = ground (arith, h, small) }

  load_partial-Counts :
      (use_accel : Bool) (budget : ℕ) (rs : List Region) (turns : ℕ → Turn) (t : Tally)
      (m : Manager dev)
      → t.regions_accel ≤ t.regions_ram
      → t.regions_ram + length rs < u32_mod
      → Counts (length rs) t (load_partial dev use_accel budget rs turns t m).1
  unfolding load_partial
  load_partial-Counts use_accel budget [] turns t m h small = record {
    most = omega arith;
    accel = h;
  }
  load_partial-Counts use_accel budget (r ∷ rs) turns t m h small =
      let out = load_part dev use_accel budget r (turns 0) t m in
      let one = load_part-Counts use_accel budget r (turns 0) t m h (omega (arith, small)) in
      let ih =
        load_partial-Counts use_accel budget rs (λ n. turns (suc n)) out.0 out.1 one.accel
          (omega (arith, small, one.most)) in
      elim (Bool-cases (turns 0).cancelled) [
        | inl stop ↦ rw stop (record { most = omega arith; accel = h })
        | inr go ↦ rw go (record { most = omega (arith, ih.most, one.most); accel = ih.accel })
      ]

  -- Whether a round brings the region into RAM, has accelerator and budget left for it (in
  -- arithmetic that does not wrap), and then brings it onto the accelerator.
  abbrev pub is_uploaded : Bool → ℕ → Region → Turn → Tally → Manager dev → Bool
  is_uploaded use_accel budget r turn t m =
      let in_ram = ensure_resident dev m r ram turn.first in
      in_ram.0
      && (use_accel && ltb 0 budget && leb (t.uploaded_bytes + r.size) budget)
      && (ensure_resident dev in_ram.1 r accelerator turn.second).0

  -- The regions that are uploaded, up to the round that finds the flag set.
  abbrev pub uploads : Bool → ℕ → List Region → (ℕ → Turn) → Tally → Manager dev → List Bool
  uploads use_accel budget [] turns t m = []
  uploads use_accel budget (r ∷ rs) turns t m =
      let out = load_part dev use_accel budget r (turns 0) t m in
      let rest = uploads use_accel budget rs (λ n. turns (suc n)) out.0 out.1 in
      if (turns 0).cancelled then [] else is_uploaded use_accel budget r (turns 0) t m ∷ rest

  -- The counts of a result, which is what the plan's regions come to.
  pub record Tallies (result : PlanResidencyResult) : Type 0 where
    pub accel : result.regions_accel ≤ result.regions_ram
    pub total : result.regions_ram ≤ result.regions_total

  run_strategy-Counts :
      (plan : ModelExecutionPlan) (rs : List Region) (turns : ℕ → Turn) (m : Manager dev)
      → length rs < u32_mod
      → Counts (length rs) (no_regions dev) (run_strategy dev plan rs turns m).1
  unfolding run_strategy
  run_strategy-Counts plan rs turns m small =
      elim plan.residency
        as (λ s.
          Counts (length rs) (no_regions dev)
            (run_strategy dev (record plan { residency = s }) rs turns m).1) [
              | ExecutionStrategy.streaming ↦ record { most = omega arith; accel = omega arith }
              | ExecutionStrategy.partial_resident ↦ part
              | ExecutionStrategy.accelerator_offload ↦ part
              | ExecutionStrategy.cpu_fallback ↦ each true false
              | ExecutionStrategy.memory_pressure ↦ each false false
              | _ ↦ each true (on_accelerator plan.mode)
            ]
    where
      each :
          (reads_flag use_accel : Bool)
          → Counts
              (length rs)
              (no_regions dev)
              (load_each dev reads_flag use_accel rs turns (no_regions dev) m).1
      each reads_flag use_accel =
          load_each-Counts reads_flag use_accel rs turns (no_regions dev) m (omega arith)
            (omega (arith, small))

      part :
          Counts
            (length rs)
            (no_regions dev)
            (load_partial dev
              (on_accelerator plan.mode)
              plan.memory_budget_bytes
              rs
              turns
              (no_regions dev)
              m).1
      part =
          load_partial-Counts (on_accelerator plan.mode) plan.memory_budget_bytes rs turns
            (no_regions dev) m (omega arith) (omega (arith, small))

  -- For fewer than 2 ^ 32 regions the result counts no more regions on the accelerator than in RAM,
  -- and no more in RAM than there are, whatever the plan and however the calls and the flag go.
  pub apply-Tallies :
      (plan : ModelExecutionPlan) (path : String) (file : FileView) (turns : ℕ → Turn)
      (m : Manager dev) (rs : List Region)
      → regions_or_whole dev path file (extract path 1 file).0 ≡ some rs
      → length rs < u32_mod
      → Tallies (apply dev plan path file turns m).0
  unfolding apply apply_regions report refused
  apply-Tallies plan path file turns m rs found small =
      elim (Bool-cases (not plan.viable || is_unsupported plan.mode)) [
        | inl off ↦ rw off (record { accel = omega arith; total = omega arith })
        | inr on ↦
            let k = run_strategy-Counts plan rs turns m small in
            let e : length rs % u32_mod ≡ length rs = ground (arith, small) in
            rw (on, found) (record { accel = k.accel; total = omega (arith, k.most, e) })
      ]
