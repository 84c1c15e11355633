-- ===== src/Graph/Scheduler/Rounds/Onward.antt =====
-- src/execution/ExecutionGraphScheduler.cpp: trackers that are no nearer to CREATED and have not stopped.
use hetero_accel.Base.{
  ℕ, ◌≡◌, subst, inl, inr, Bool, true, false, List, [], ◌∷◌, arith, ◌==◌, ==→≡, Bool-cases,
}
use hetero_accel.Base.Map.{Map, put}
use hetero_accel.Graph.{GraphNodeState, created, ready, running, completed}
use hetero_accel.Graph.Scheduler.{Tracker, tracked, is_created, count_down, count_down_all}
use hetero_accel.Graph.Scheduler.Rounds.Order.{tracked-put, lowered, tracked-count_down}

-- The states from which a node can still complete, or in which it has.
abbrev pub is_live : GraphNodeState → Bool
is_live created = true
is_live ready = true
is_live running = true
is_live completed = true
is_live _ = false

-- A tracker that is CREATED has not counted all of its predecessors.
abbrev pub Short : Tracker → Type 0
Short t = is_created t.state ≡ true → (t.predecessors == t.finished) ≡ false

-- A tracker that is no nearer to CREATED, has not stopped, and stays short.
pub record Onward (t t' : Tracker) : Type 0 where
  pub short : Short t → Short t'
  pub back : is_created t'.state ≡ true → is_created t.state ≡ true
  pub live : is_live t.state ≡ true → is_live t'.state ≡ true

pub same-Onward : (t : Tracker) → Onward t t
same-Onward t = record { short = λ s. s; back = λ c. c; live = λ l. l }

pub Onward-trans : {t t' t'' : Tracker} → Onward t t' → Onward t' t'' → Onward t t''
Onward-trans h k = record {
  short = λ s. k.short (h.short s);
  back = λ c. h.back (k.back c);
  live = λ l. k.live (h.live l);
}

-- Setting a tracker to a state from which it can complete, past CREATED.
pub put-Onward :
    (id : ℕ) (t : Tracker) (m : Map Tracker)
    → is_created t.state ≡ false
    → is_live t.state ≡ true
    → (y : ℕ) → Onward (tracked y m) (tracked y (put id t m))
put-Onward id t m off on y = elim (Bool-cases (id == y)) [
  | inl same ↦
      rw (tracked-put id y t m, same) (record { short = λ s c. cc; back = λ c. cc; live = λ l. on })
  | inr other ↦ rw (tracked-put id y t m, other) (same-Onward (tracked y m))
]

lowered-Onward : (t : Tracker) → Onward t (lowered t)
lowered-Onward t = record {
  short = λ s c. ground (arith, c);
  back = λ c. ground (arith, c);
  live = λ l. ground (arith, l);
}

count_down-Onward : (x y : ℕ) (m : Map Tracker) → Onward (tracked y m) (tracked y (count_down x m))
count_down-Onward x y m = elim (Bool-cases (x == y)) [
  | inl same ↦
      let e : x ≡ y = ==→≡ x y same in
      rw (tracked-count_down x y m, same)
        (subst (λ k. Onward (tracked k m) (lowered (tracked x m))) e (lowered-Onward (tracked x m)))
  | inr other ↦ rw (tracked-count_down x y m, other) (same-Onward (tracked y m))
]

pub count_down_all-Onward :
    (xs : List ℕ) (y : ℕ) (m : Map Tracker) → Onward (tracked y m) (tracked y (count_down_all xs m))
unfolding count_down_all
count_down_all-Onward [] y m = same-Onward (tracked y m)
count_down_all-Onward (x ∷ xs) y m =
    Onward-trans (count_down-Onward x y m) (count_down_all-Onward xs y (count_down x m))
