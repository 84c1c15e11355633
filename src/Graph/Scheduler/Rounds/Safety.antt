-- ===== src/Graph/Scheduler/Rounds/Safety.antt =====
-- src/execution/ExecutionGraphScheduler.cpp: a resource that is not shared has one user at a time.
use hetero_accel.Base.{
  ℕ, ◌+◌, ◌-◌, ◌≤◌, ◌≡◌, refl, inl, inr, Bool, true, false, not, ◌&&◌, ◌||◌, some, List, [], ◌∷◌,
  arith, ltb, ◌==◌, if◌then◌else◌, one_if, ==→≡, Bool-cases, Option-cases,
}
use hetero_accel.Base.Map.{Map, lookup, put, lookup-put}
use hetero_accel.Graph.{ExecutionResource, ExecutionGraph, contains}
use hetero_accel.Graph.Scheduler.{
  resource_index, resource_of, users, is_shared, check_resource_available, Run, start, cancel,
  dispatch, complete, NodeResult, is_ready, tracked, drop_task, finish_task,
}
use hetero_accel.Graph.Scheduler.Rounds.{Round, rounds}
use hetero_accel.Graph.Scheduler.Rounds.Rule.{OnSome, Rule, rounds_ind}

abbrev pub same_resource : ExecutionResource → ExecutionResource → Bool
same_resource a b = resource_index a == resource_index b

-- How many of the nodes use the resource.
abbrev pub uses : ExecutionGraph → ExecutionResource → List ℕ → ℕ
uses g res [] = 0
uses g res (id ∷ ids) = one_if (same_resource (resource_of g id) res) + uses g res ids

-- The counts are right, and no resource that is not shared has two running nodes.
pub record Exclusive (g : ExecutionGraph) (r : Run) : Type 0 where
  pub counted : (res : ExecutionResource) → users res r.active_resources ≡ uses g res r.active_tasks
  pub single : (res : ExecutionResource) → is_shared res ≡ false → uses g res r.active_tasks ≤ 1

users-put :
    (a b : ExecutionResource) (n : ℕ) (m : Map ℕ)
    → users b (put (resource_index a) n m) ≡ (if same_resource a b then n else users b m)
users-put a b n m = ground (arith, lookup-put (resource_index a) (resource_index b) n m)

shared_same : (a b : ExecutionResource) → same_resource a b ≡ true → is_shared a ≡ is_shared b
shared_same a b e = ground (arith, e)

same_users :
    (a b : ExecutionResource) (m : Map ℕ) → same_resource a b ≡ true → users a m ≡ users b m
same_users a b m e = ground (arith, ==→≡ _ _ e)

dispatch-Exclusive :
    (g : ExecutionGraph) (id : ℕ) (flag : Bool) (r : Run)
    → Exclusive g r
    → Exclusive g (dispatch g id flag r)
unfolding dispatch check_resource_available
dispatch-Exclusive g id flag r h =
    let res = resource_of g id in
    let guard =
      is_ready (tracked id r.tracker).state
      && not flag
      && (is_shared res || not (ltb 0 (users res r.active_resources))) in
    elim (Bool-cases guard) [
      | inr off ↦ rw off h
      | inl on ↦ rw on (record {
        counted = λ b.
            let e = users-put res b (users res r.active_resources + 1) r.active_resources in
            ground (arith, e, h.counted b, same_users res b r.active_resources);
        single = λ b alone. ground (
          arith,
          on,
          alone,
          h.single b alone,
          h.counted b,
          shared_same res b,
          same_users res b r.active_resources,
        );
      })
    ]

uses-drop :
    (g : ExecutionGraph) (res : ExecutionResource) (id : ℕ) (ids : List ℕ)
    → contains id ids ≡ true
    → uses g res ids ≡ one_if (same_resource (resource_of g id) res) + uses g res (drop_task id ids)
uses-drop g res id [] h = cc
uses-drop g res id (x ∷ xs) h = elim (Bool-cases (x == id)) [
  | inl same ↦ let e : x ≡ id = ==→≡ x id same in rw same (rw e refl)
  | inr other ↦
      let h' : contains id xs ≡ true = ground (arith, h, other) in
      rw other (omega (arith, uses-drop g res id xs h'))
]

finish_task-Exclusive :
    (g : ExecutionGraph) (id : ℕ) (r : Run)
    → contains id r.active_tasks ≡ true
    → Exclusive g r
    → Exclusive g (finish_task g id r)
finish_task-Exclusive g id r there h =
    let res = resource_of g id in
    record {
      counted = λ b.
          let e = users-put res b (users res r.active_resources - 1) r.active_resources in
          ground (
            arith,
            e,
            h.counted b,
            same_users res b r.active_resources,
            uses-drop g b id r.active_tasks there,
          );
      single = λ b alone. ground (arith, h.single b alone, uses-drop g b id r.active_tasks there);
    }

-- The part of a run that the resources are counted in.
abbrev retracked :
    (g : ExecutionGraph) (r r' : Run)
    → Exclusive g r
    → r'.active_resources ≡ r.active_resources
    → r'.active_tasks ≡ r.active_tasks
    → Exclusive g r'
retracked g r r' h e f = record {
  counted = λ b. rw (e, f) (h.counted b);
  single = λ b alone. rw f (h.single b alone);
}

complete-Exclusive :
    (g : ExecutionGraph) (id : ℕ) (result : NodeResult) (r r' : Run)
    → contains id r.active_tasks ≡ true
    → Exclusive g r
    → complete g id result r ≡ some r'
    → Exclusive g r'
unfolding complete
complete-Exclusive g id result r r' there h e =
    let f = finish_task-Exclusive g id r there h in
    retracked g (finish_task g id r) r' f (ground (arith, e)) (ground (arith, e))

complete-OnSome :
    (g : ExecutionGraph) (id : ℕ) (result : NodeResult) (r : Run)
    → contains id r.active_tasks ≡ true
    → Exclusive g r
    → OnSome (Exclusive g) (complete g id result r)
complete-OnSome g id result r there h = elim (Option-cases (complete g id result r)) [
  | inl nothing ↦ rw nothing tt
  | inr (r', done) ↦ rw done (complete-Exclusive g id result r r' there h done)
]

pub Exclusive-Rule : (g : ExecutionGraph) → Rule g (Exclusive g)
unfolding cancel
Exclusive-Rule g = record {
  cancels = λ r h. retracked g r _ h refl refl;
  dispatches = dispatch-Exclusive g;
  completes = complete-OnSome g;
}

pub start-Exclusive : (g : ExecutionGraph) → Exclusive g (start g)
unfolding start lookup
start-Exclusive g = record { counted = λ res. refl; single = λ res alone. omega arith }

-- After any rounds of the main loop that return a state, whatever finishes in them and whenever
-- the flag is set, the count of each resource is the number of running tasks whose nodes use it,
-- and a resource other than the CPU and none has at most one such task.
pub rounds-start-Exclusive :
    (g : ExecutionGraph) (ds : List Round) → OnSome (Exclusive g) (rounds g ds (start g))
rounds-start-Exclusive g ds =
    rounds_ind g (Exclusive g) (Exclusive-Rule g) ds (start g) (start-Exclusive g)
