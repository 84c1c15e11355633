-- ===== src/Graph/Scheduler/Rounds/Progress.antt =====
-- src/execution/ExecutionGraphScheduler.cpp: while a node is ready or running, the next dispatch
-- leaves a task running.
use hetero_accel.Base.{
  ℕ, ◌≤◌, ◌<◌, ◌≡◌, refl, sym, subst, ◌⊎◌, inl, inr, Bool, true, false, not, ◌&&◌, ◌||◌, List, [],
  ◌∷◌, arith, ◌==◌, ==→≡, Bool-cases, length,
}
use hetero_accel.Graph.{ExecutionGraph, contains}
use hetero_accel.Graph.Mirror.{occ}
use hetero_accel.Graph.Scheduler.{
  check_resource_available, Run, resource_of, dispatch, dispatch_all, tracked, is_ready,
}
use hetero_accel.Graph.Scheduler.Rounds.Order.{is_running, Ordered}
use hetero_accel.Graph.Scheduler.Rounds.Safety.{Exclusive}

occ-le-length : (y : ℕ) (xs : List ℕ) → occ y xs ≤ length xs
occ-le-length y [] = omega arith
occ-le-length y (x ∷ xs) = ground (arith, occ-le-length y xs)

module _ (g : ExecutionGraph) where
  -- Whether the node is dispatched.
  abbrev goes : ℕ → Bool → Run → Bool
  goes id flag r =
      is_ready (tracked id r.tracker).state
      && not flag
      && check_resource_available (resource_of g id) r.active_resources

  dispatch_keeps :
      (ids : List ℕ) (flag : ℕ → Bool) (r : Run)
      → 0 < length r.active_tasks
      → 0 < length (dispatch_all g ids flag r).active_tasks
  unfolding dispatch_all dispatch
  dispatch_keeps [] flag r h = h
  dispatch_keeps (id ∷ ids) flag r h =
      dispatch_keeps ids flag (dispatch g id (flag id) r) (elim (Bool-cases (goes id (flag id) r)) [
        | inl on ↦ rw on (omega arith)
        | inr off ↦ rw off h
      ])

  -- With no task running every resource is free.
  free :
      (r : Run) (z : ℕ)
      → Exclusive g r
      → length r.active_tasks ≡ 0
      → check_resource_available (resource_of g z) r.active_resources ≡ true
  unfolding check_resource_available
  free r z x idle = ground (arith, idle, x.counted (resource_of g z), none_used)
    where
      none_used : r.active_tasks ≡ []
      none_used = ground (arith, idle)

  dispatch_cases :
      (id : ℕ) (r : Run)
      → (0 < length (dispatch g id false r).active_tasks)
        ⊎ ((goes id false r ≡ false) × (dispatch g id false r ≡ r))
  unfolding dispatch
  dispatch_cases id r = elim (Bool-cases (goes id false r)) [
    | inl on ↦ inl (rw on (omega arith))
    | inr off ↦ inr (off, rw off refl)
  ]

  ready_goes :
      (ids : List ℕ) (r : Run) (z : ℕ)
      → Exclusive g r
      → is_ready (tracked z r.tracker).state ≡ true
      → contains z ids ≡ true
      → length r.active_tasks ≡ 0
      → 0 < length (dispatch_all g ids (λ id. false) r).active_tasks
  unfolding dispatch_all
  ready_goes [] r z x on c idle = cc
  ready_goes (id ∷ ids) r z x on c idle = elim (dispatch_cases id r) [
    | inl now ↦ dispatch_keeps ids (λ id. false) (dispatch g id false r) now
    | inr (later, same_run) ↦
        subst (λ (q : Run). 0 < length (dispatch_all g ids (λ id. false) q).active_tasks)
          (sym same_run)
          (ready_goes ids r z x on
            (elim (Bool-cases (id == z)) [
              | inr other ↦ ground (arith, c, other)
              | inl same ↦
                  let goes_z : goes z false r ≡ true = ground (arith, on, free r z x idle) in
                  let stays : goes z false r ≡ false =
                    subst (λ k. goes k false r ≡ false) (==→≡ id z same) later in
                  absurd (ground (arith, goes_z, stays))
            ])
            idle)
  ]

  pub dispatch_all_occupied :
      (ids : List ℕ) (r : Run) (z : ℕ)
      → Ordered g r
      → Exclusive g r
      → (is_ready (tracked z r.tracker).state || is_running (tracked z r.tracker).state) ≡ true
      → contains z ids ≡ true
      → 0 < length (dispatch_all g ids (λ id. false) r).active_tasks
  dispatch_all_occupied ids r z o x on c = elim (Bool-cases (length r.active_tasks == 0)) [
    | inr some_run ↦ dispatch_keeps ids (λ id. false) r (ground (arith, some_run))
    | inl idle ↦
        let e : length r.active_tasks ≡ 0 = ==→≡ _ _ idle in
        let off : is_running (tracked z r.tracker).state ≡ false =
          ground (arith, o.tasks z, occ-le-length z r.active_tasks, e) in
        ready_goes ids r z x (ground (arith, on, off)) c e
  ]
