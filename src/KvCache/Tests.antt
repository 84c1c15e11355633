-- ===== src/KvCache/Tests.antt =====
-- src/hydroxl/HydroXLKVCache.cpp: a cache of two layers of three positions.
use hetero_accel.Base.{◌^◌, ◌≡◌, refl, true, List, [], ◌∷◌, arith}
use hetero_accel.KvCache.{empty_cache, allocate}
use hetero_accel.KvCache.Spec.{Call, write, advance, restart, run, run_on_table}
use hetero_accel.KvCache.Spec.Refine.{Refines}
use hetero_accel.KvCache.Spec.Runs.{fresh_table, run-Refines}

abbrev some_calls : List Call
some_calls =
    write 1 2 (1 ∷ 2 ∷ []) (3 ∷ 4 ∷ [])
    ∷ advance
    ∷ write 2 0 (1 ∷ 2 ∷ []) (3 ∷ 4 ∷ [])
    ∷ restart
    ∷ []

allocated_small : (allocate 2 1 3 2 true empty_cache).0 ≡ true
unfolding allocate
allocated_small = refl

run-Refines_example :
    ((run some_calls (allocate 2 1 3 2 true empty_cache).1).0
      ≡ (run_on_table some_calls (fresh_table 2 3 2)).0)
    × Refines
        (run some_calls (allocate 2 1 3 2 true empty_cache).1).1
        (run_on_table some_calls (fresh_table 2 3 2)).1
run-Refines_example =
    run-Refines 2 1 3 2 some_calls (omega arith) allocated_small
      ((refl, refl), (tt, ((refl, refl), (tt, tt))))

-- 2^31 * 2^31 * 4 floats wrap around to none: the cache counts as allocated.
allocated_wrapped : (allocate 1 (2 ^ 31) (2 ^ 31) 4 true empty_cache).0 ≡ true
unfolding allocate
allocated_wrapped = refl
