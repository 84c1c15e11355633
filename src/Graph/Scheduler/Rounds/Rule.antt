-- ===== src/Graph/Scheduler/Rounds/Rule.antt =====
-- src/execution/ExecutionGraphScheduler.cpp: what each part of a round keeps, all rounds keep.
use hetero_accel.Base.{
  ℕ, ◌≡◌, subst, inl, inr, Bool, true, false, not, ◌||◌, Option, none, some, List, [], ◌∷◌, arith,
  ◌==◌, if◌then◌else◌, Bool-cases, Option-cases, length,
}
use hetero_accel.Graph.{ExecutionGraph, get_all_node_ids, contains}
use hetero_accel.Graph.Scheduler.{Run, cancel, dispatch, dispatch_all, complete, NodeResult}
use hetero_accel.Graph.Scheduler.Rounds.{complete_all, Round, round, rounds, any_busy}

-- A predicate of what a computation returns, if it returns.
abbrev pub OnSome : (Run → Type 0) → Option Run → Type 0
OnSome P none = Unit
OnSome P (some r) = P r

pub record Rule (g : ExecutionGraph) (P : Run → Type 0) : Type 0 where
  pub cancels : (r : Run) → P r → P (cancel r)
  pub dispatches : (id : ℕ) (flag : Bool) (r : Run) → P r → P (dispatch g id flag r)
  pub completes :
      (id : ℕ) (result : NodeResult) (r : Run)
      → contains id r.active_tasks ≡ true
      → P r
      → OnSome P (complete g id result r)

module _ (g : ExecutionGraph) (P : Run → Type 0) (rule : Rule g P) where
  dispatch_all_ind :
      (ids : List ℕ) (flag : ℕ → Bool) (r : Run) → P r → P (dispatch_all g ids flag r)
  unfolding dispatch_all
  dispatch_all_ind [] flag r h = h
  dispatch_all_ind (id ∷ ids) flag r h =
      dispatch_all_ind ids flag (dispatch g id (flag id) r) (rule.dispatches id (flag id) r h)

  complete_all_ind :
      (results : List (ℕ × NodeResult)) (r : Run) → P r → OnSome P (complete_all g results r)
  unfolding complete_all
  complete_all_ind [] r h = h
  complete_all_ind ((id, result) ∷ rs) r h = elim (Bool-cases (contains id r.active_tasks)) [
    | inr absent ↦ rw absent (complete_all_ind rs r h)
    | inl there ↦ rw there (elim (Option-cases (complete g id result r)) [
      | inl nothing ↦ rw nothing tt
      | inr (r', done) ↦
          rw done
            (complete_all_ind rs r' (subst (OnSome P) done (rule.completes id result r there h)))
    ])
  ]

  round_ind : (d : Round) (r : Run) → P r → OnSome P (round g d r)
  unfolding round
  round_ind d r h =
      complete_all_ind d.results _ (dispatch_all_ind (get_all_node_ids g) d.cancelled_at _ top)
    where
      top : P (if d.is_cancelled then cancel r else r)
      top = elim (Bool-cases d.is_cancelled) [
        | inl on ↦ rw on (rule.cancels r h)
        | inr off ↦ rw off h
      ]

  pub rounds_ind : (ds : List Round) (r : Run) → P r → OnSome P (rounds g ds r)
  unfolding rounds
  rounds_ind [] r h = h
  rounds_ind (d ∷ ds) r h = elim (Option-cases (round g d r)) [
    | inl nothing ↦ let e : rounds g (d ∷ ds) r ≡ none = ground (arith, nothing) in rw e tt
    | inr (r', done) ↦
        let h' : P r' = subst (OnSome P) done (round_ind d r h) in
        let waited =
          dispatch_all g (get_all_node_ids g) d.cancelled_at
            (if d.is_cancelled then cancel r else r) in
        let e : rounds g (d ∷ ds) r ≡ (
            if not (length waited.active_tasks == 0) || any_busy r'.tracker
            then rounds g ds r'
            else some r') =
          ground (arith, done) in
        rw e (either _ r' (rounds g ds r') h' (rounds_ind ds r' h'))
  ]
    where
      either :
          (b : Bool) (r' : Run) (o : Option Run)
          → P r'
          → OnSome P o
          → OnSome P (if b then o else some r')
      either true r' o h' k = k
      either false r' o h' k = h'
