-- ===== src/Workloads/Tests.antt =====
-- src/scheduler/WorkloadRegistry.cpp: three workloads.
use hetero_accel.Base.{ℕ, ◌≡◌, refl, List, [], ◌∷◌, arith, ltb, one_if, length}
use hetero_accel.Base.Map.{lookup, put}
use hetero_accel.Workloads.{
  WorkloadRegistry, WorkloadPriority, WorkloadClass, empty_registry, active_workloads_sorted,
  active_count, register_workload, cancel, set_running, get_state, running,
}
use hetero_accel.Workloads.Calls.{Call, registers, cancels, runs, fails, prunes, apply, run}
use hetero_accel.Workloads.Calls.Isolation.{Numbered, run-Numbered, apply-Isolated}
use hetero_accel.Workloads.Calls.Sorting.{
  Descending, times, active_at, active_workloads_sorted-lists,
}

abbrev three_calls : List Call
three_calls =
    registers "a" "m" WorkloadPriority.normal WorkloadClass.batch 1
    ∷ registers "b" "m" WorkloadPriority.critical WorkloadClass.interactive 2
    ∷ runs 2 3
    ∷ fails 1 "error" 4
    ∷ prunes (λ t. ltb t 5)
    ∷ []

three : WorkloadRegistry
three = run three_calls empty_registry

three-Numbered : Numbered three
unfolding three
three-Numbered = run-Numbered three_calls (omega arith)

run-Numbered_example : Numbered (run three_calls empty_registry)
run-Numbered_example = run-Numbered three_calls (omega arith)

apply-Isolated_example : lookup 2 (apply (fails 1 "error" 6) three).entries ≡ lookup 2 three.entries
apply-Isolated_example = apply-Isolated (fails 1 "error" 6) three 2 three-Numbered.distinct refl

active_workloads_sorted-lists_example :
    Descending (active_workloads_sorted three)
    × ((y : ℕ) → times y (active_workloads_sorted three) ≡ one_if (active_at y three))
    × (length (active_workloads_sorted three) ≡ active_count three)
active_workloads_sorted-lists_example = active_workloads_sorted-lists three three-Numbered

-- A workload that was cancelled while it was queued is started all the same.
started_after_cancel :
    get_state 1 (
      run
        (registers "a" "m" WorkloadPriority.normal WorkloadClass.batch 1
          ∷ cancels 1 2
          ∷ runs 1 3
          ∷ [])
        empty_registry)
    ≡ running
unfolding get_state empty_registry register_workload cancel set_running lookup put
started_after_cancel = refl
