-- ===== src/Graph/Scheduler/Rounds/Order.antt =====
-- src/execution/ExecutionGraphScheduler.cpp: a node starts only after all of its predecessors.
use hetero_accel.Base.{
  ℕ, ◌+◌, ◌≤◌, ◌≡◌, refl, sym, ap, ◌∙◌, subst, inl, inr, Bool, true, false, ◌&&◌, ◌||◌, List, [],
  ◌∷◌, arith, ◌==◌, if◌then◌else◌, one_if, ==→≡, ==_self, Bool-cases, length,
}
use hetero_accel.Base.Map.{Map, put, lookup-put}
use hetero_accel.Graph.{
  ExecutionGraph, GraphNodeState, ready, running, completed, failed, contains, get_predecessors,
}
use hetero_accel.Graph.Scheduler.Blocking.{Stops}
use hetero_accel.Graph.Scheduler.Rounds.{is_completed}
use hetero_accel.Graph.Mirror.{occ}
use hetero_accel.Graph.Scheduler.{Tracker, tracked, is_created, count_down, count_down_all, Run}

abbrev pub is_running : GraphNodeState → Bool
is_running running = true
is_running _ = false

-- The states of a node that waits for no predecessor.
abbrev pub is_started : GraphNodeState → Bool
is_started ready = true
is_started running = true
is_started completed = true
is_started failed = true
is_started _ = false

-- How many of the nodes have completed.
abbrev pub done_in : Map Tracker → List ℕ → ℕ
done_in m [] = 0
done_in m (p ∷ ps) = one_if (is_completed (tracked p m).state) + done_in m ps

pub tracked-put :
    (x y : ℕ) (t : Tracker) (m : Map Tracker)
    → tracked y (put x t m) ≡ (if x == y then t else tracked y m)
tracked-put x y t m = ground (arith, lookup-put x y t m)

pub done_in-le-length : (m : Map Tracker) (ps : List ℕ) → done_in m ps ≤ length ps
done_in-le-length m [] = omega arith
done_in-le-length m (p ∷ ps) = ground (arith, done_in-le-length m ps)

-- If as many have completed as there are, each has.
pub done_in-all :
    (m : Map Tracker) (ps : List ℕ) (p : ℕ)
    → length ps ≤ done_in m ps
    → contains p ps ≡ true
    → is_completed (tracked p m).state ≡ true
done_in-all m [] p h c = cc
done_in-all m (q ∷ ps) p h c = elim (Bool-cases (q == p)) [
  | inl same ↦
      let e : q ≡ p = ==→≡ q p same in
      subst (λ k. is_completed (tracked k m).state ≡ true) e
        (ground (arith, h, done_in-le-length m ps))
  | inr other ↦
      done_in-all m ps p (ground (arith, h, done_in-le-length m ps)) (ground (arith, c, other))
]

pub done_in-same :
    (m m' : Map Tracker) (ps : List ℕ)
    → ((y : ℕ) → is_completed (tracked y m').state ≡ is_completed (tracked y m).state)
    → done_in m' ps ≡ done_in m ps
done_in-same m m' [] h = refl
done_in-same m m' (p ∷ ps) h = ground (arith, h p, done_in-same m m' ps h)

pub done_in-grow :
    (m m' : Map Tracker) (x : ℕ) (ps : List ℕ)
    → is_completed (tracked x m).state ≡ false
    → ((y : ℕ) → is_completed (tracked y m').state ≡ is_completed (tracked y m).state || (x == y))
    → done_in m' ps ≡ done_in m ps + occ x ps
done_in-grow m m' x [] off h = omega arith
done_in-grow m m' x (p ∷ ps) off h = elim (Bool-cases (x == p)) [
  | inl same ↦
      let e : x ≡ p = ==→≡ x p same in
      let off' : is_completed (tracked p m).state ≡ false =
        subst (λ k. is_completed (tracked k m).state ≡ false) e off in
      ground (arith, h p, same, off', ==_self p, e, done_in-grow m m' x ps off h)
  | inr other ↦ ground (arith, h p, other, done_in-grow m m' x ps off h)
]

-- What `n` decrements do to a tracker.
pub record Counted (n : ℕ) (t t' : Tracker) : Type 0 where
  pub finished : t'.finished ≡ t.finished + n
  pub predecessors : t'.predecessors ≡ t.predecessors
  pub completion : is_completed t'.state ≡ is_completed t.state
  pub running : is_running t'.state ≡ is_running t.state
  pub started :
      (is_started t.state ≡ true → t.predecessors ≤ t.finished)
      → is_started t'.state ≡ true
      → t'.predecessors ≤ t'.finished

Counted-trans :
    {a b : ℕ} {t t' t'' : Tracker} → Counted a t t' → Counted b t' t'' → Counted (a + b) t t''
Counted-trans h k = record {
  finished = omega (arith, h.finished, k.finished);
  predecessors = k.predecessors ∙ h.predecessors;
  completion = k.completion ∙ h.completion;
  running = k.running ∙ h.running;
  started = λ s. k.started (h.started s);
}

abbrev pub lowered : Tracker → Tracker
lowered t = record t {
  finished = t.finished + 1;
  state = if (t.predecessors == t.finished + 1) && is_created t.state then ready else t.state;
}

lowered-Counted : (t : Tracker) → Counted 1 t (lowered t)
lowered-Counted t = record {
  finished = refl;
  predecessors = refl;
  completion = ground arith;
  running = ground arith;
  started = λ s on. elim (Bool-cases ((t.predecessors == t.finished + 1) && is_created t.state)) [
    | inl now ↦ ground (arith, now)
    | inr later ↦
        let on' : is_started t.state ≡ true = ground (arith, on, later) in
        let le : t.predecessors ≤ t.finished = s on' in omega (arith, le)
  ];
}

same-Counted : (t : Tracker) → Counted 0 t t
same-Counted t = record {
  finished = omega arith;
  predecessors = refl;
  completion = refl;
  running = refl;
  started = λ s on. s on;
}

pub tracked-count_down :
    (x y : ℕ) (m : Map Tracker)
    → tracked y (count_down x m) ≡ (if x == y then lowered (tracked x m) else tracked y m)
unfolding count_down
tracked-count_down x y m = tracked-put x y (lowered (tracked x m)) m

count_down-Counted :
    (x y : ℕ) (m : Map Tracker)
    → Counted (one_if (x == y)) (tracked y m) (tracked y (count_down x m))
count_down-Counted x y m = elim (Bool-cases (x == y)) [
  | inl same ↦
      let e : x ≡ y = ==→≡ x y same in
      rw (tracked-count_down x y m, same)
        (subst (λ k. Counted 1 (tracked k m) (lowered (tracked x m))) e
          (lowered-Counted (tracked x m)))
  | inr other ↦ rw (tracked-count_down x y m, other) (same-Counted (tracked y m))
]

pub count_down_all-Counted :
    (xs : List ℕ) (y : ℕ) (m : Map Tracker)
    → Counted (occ y xs) (tracked y m) (tracked y (count_down_all xs m))
unfolding count_down_all
count_down_all-Counted [] y m = same-Counted (tracked y m)
count_down_all-Counted (x ∷ xs) y m =
    Counted-trans (count_down-Counted x y m) (count_down_all-Counted xs y (count_down x m))

-- How far a run has come: each tracker counts the predecessors that have completed, a node that has
-- started waits for none, and the running nodes are those that have a task, once each.
pub record Ordered (g : ExecutionGraph) (r : Run) : Type 0 where
  pub degree : (y : ℕ) → (tracked y r.tracker).predecessors ≡ length (get_predecessors g y)
  pub counted : (y : ℕ) → (tracked y r.tracker).finished ≡ done_in r.tracker (get_predecessors g y)
  pub started :
      (y : ℕ)
      → is_started (tracked y r.tracker).state ≡ true
      → (tracked y r.tracker).predecessors ≤ (tracked y r.tracker).finished
  pub tasks : (y : ℕ) → occ y r.active_tasks ≡ one_if (is_running (tracked y r.tracker).state)

pub Stops-completion : {t t' : Tracker} → Stops t t' → is_completed t'.state ≡ is_completed t.state
Stops-completion {t} {t'} s = elim s.state [
  | inl e ↦ ap is_completed e
  | inr (o, c) ↦ ground (arith, o, c)
]

pub Stops-running : {t t' : Tracker} → Stops t t' → is_running t'.state ≡ is_running t.state
Stops-running {t} {t'} s = elim s.state [
  | inl e ↦ ap is_running e
  | inr (o, c) ↦ ground (arith, o, c)
]

pub Stops-started :
    {t t' : Tracker} → Stops t t' → is_started t'.state ≡ true → is_started t.state ≡ true
Stops-started {t} {t'} s on = elim s.state [
  | inl e ↦ sym (ap is_started e) ∙ on
  | inr (o, c) ↦ ground (arith, o, c, on)
]

-- A tracker that keeps its counts, does not complete and does not start.
pub record Steady (t t' : Tracker) : Type 0 where
  pub finished : t'.finished ≡ t.finished
  pub predecessors : t'.predecessors ≡ t.predecessors
  pub completion : is_completed t'.state ≡ is_completed t.state
  pub started : is_started t'.state ≡ true → is_started t.state ≡ true

pub Stops-Steady : {t t' : Tracker} → Stops t t' → Steady t t'
Stops-Steady s = record {
  finished = s.finished;
  predecessors = s.predecessors;
  completion = Stops-completion s;
  started = Stops-started s;
}

-- Setting one tracker.
pub put-Steady :
    (x : ℕ) (t : Tracker) (m : Map Tracker)
    → Steady (tracked x m) t
    → (y : ℕ) → Steady (tracked y m) (tracked y (put x t m))
put-Steady x t m s y = elim (Bool-cases (x == y)) [
  | inl same ↦
      let e : x ≡ y = ==→≡ x y same in
      rw (tracked-put x y t m, same) (subst (λ k. Steady (tracked k m) t) e s)
  | inr other ↦
      rw (tracked-put x y t m, other)
        (record { finished = refl; predecessors = refl; completion = refl; started = λ on. on })
]

-- Steady trackers leave the order as it is, if the tasks are those of the running nodes.
pub Steady-Ordered :
    (g : ExecutionGraph) (r r' : Run)
    → ((y : ℕ) → Steady (tracked y r.tracker) (tracked y r'.tracker))
    → ((y : ℕ) → occ y r'.active_tasks ≡ one_if (is_running (tracked y r'.tracker).state))
    → Ordered g r
    → Ordered g r'
Steady-Ordered g r r' s tasks h = record {
  degree = λ y. (s y).predecessors ∙ h.degree y;
  counted = λ y.
      (s y).finished
      ∙ h.counted y
      ∙ sym (done_in-same r.tracker r'.tracker (get_predecessors g y) (λ k. (s k).completion));
  started =
      λ y on. omega (arith, (s y).finished, (s y).predecessors, h.started y ((s y).started on));
  tasks = tasks;
}

-- Stopping open nodes leaves the order as it is.
pub Stops-Ordered :
    (g : ExecutionGraph) (r r' : Run)
    → ((y : ℕ) → Stops (tracked y r.tracker) (tracked y r'.tracker))
    → r'.active_tasks ≡ r.active_tasks
    → Ordered g r
    → Ordered g r'
Stops-Ordered g r r' s e h =
    Steady-Ordered g r r' (λ y. Stops-Steady (s y))
      (λ y. rw e (h.tasks y ∙ sym (ap one_if (Stops-running (s y))))) h
