-- ===== src/Workloads/Calls.antt =====
-- src/scheduler/WorkloadRegistry.cpp: the calls that change the registry.
pub mod Isolation
pub mod Sorting
use hetero_accel.Base.{
  ℕ, zero, suc, ◌+◌, ◌-◌, ◌*◌, ◌/◌, ◌%◌, ◌^◌, ◌≤◌, ◌<◌, min, max, ◌≡◌, refl, sym, ap, ◌∙◌, subst,
  ◌≢◌, ◌⊎◌, inl, inr, Bool, true, false, not, ◌&&◌, ◌||◌, Option, none, some, List, [], ◌∷◌, ◌++◌,
  map, arith, ltb, leb, ◌==◌, if◌then◌else◌, is_some, one_if, ==→≡, ==_self, ltb-false, or-false,
  Bool-cases, Option-cases, length, All, length-append, take, take-take, drop, length-take,
  drop-append, take-append, append_assoc, length-drop, u64_mod, u32_mod, add64, mul64,
}
use hetero_accel.Base.Map.{
  Map, lookup, put, erase, Distinct, Each, total, lookup-put, lookup-erase, put-Distinct,
  erase-Distinct, total-put_old, total-put_new, total-erase, length-erase, total-get,
  total-le-length, Each-map, Each-lookup, Each-put, Each-erase,
}
use Prim.Native.String.{String}
use hetero_accel.Workloads.{
  WorkloadPriority, WorkloadClass, WorkloadRegistry, register_workload, cancel, set_running,
  set_completed, set_failed, set_cancelled, prune_old,
}

pub data Call : Type 0 where
  registers : String → String → WorkloadPriority → WorkloadClass → ℕ → Call
  cancels runs completes stops : ℕ → ℕ → Call
  fails : ℕ → String → ℕ → Call
  prunes : (ℕ → Bool) → Call

abbrev pub apply : Call → WorkloadRegistry → WorkloadRegistry
apply (registers name path priority wclass now) r =
    (register_workload name path priority wclass now r).1
apply (cancels id now) r = (cancel id now r).1
apply (runs id now) r = set_running id now r
apply (completes id now) r = set_completed id now r
apply (stops id now) r = set_cancelled id now r
apply (fails id message now) r = set_failed id message now r
apply (prunes is_old) r = prune_old is_old r

abbrev pub run : List Call → WorkloadRegistry → WorkloadRegistry
run [] r = r
run (x ∷ xs) r = run xs (apply x r)
