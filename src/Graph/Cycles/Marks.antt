-- ===== src/Graph/Cycles/Marks.antt =====
-- src/execution/ExecutionGraph.cpp: the marks of the depth-first search.
use hetero_accel.Base.{
  ℕ, ◌+◌, ◌≤◌, ◌<◌, ◌≡◌, refl, sym, ap, ◌∙◌, subst, inl, inr, Bool, true, false, List, [], ◌∷◌,
  arith, ◌==◌, if◌then◌else◌, one_if, ==→≡, ==_self, Bool-cases, length,
}
use hetero_accel.Base.Map.{Map, lookup, put, lookup-put}
use hetero_accel.Graph.{Mark, unvisited, mark_of, contains, unmarked}

abbrev pub is_unvisited : Mark → Bool
is_unvisited unvisited = true
is_unvisited _ = false

-- How many of the nodes are unvisited.
abbrev pub open_in : Map Mark → List ℕ → ℕ
open_in st [] = 0
open_in st (x ∷ xs) = one_if (is_unvisited (mark_of x st)) + open_in st xs

pub mark_of-put :
    (x y : ℕ) (k : Mark) (st : Map Mark)
    → mark_of y (put x k st) ≡ (if x == y then k else mark_of y st)
mark_of-put x y k st = ground (arith, lookup-put x y k st)

pub open_in-le :
    (st st' : Map Mark) (xs : List ℕ)
    → ((x : ℕ) → mark_of x st' ≡ unvisited → mark_of x st ≡ unvisited)
    → open_in st' xs ≤ open_in st xs
open_in-le st st' [] h = omega arith
open_in-le st st' (x ∷ xs) h = ground (arith, h x, open_in-le st st' xs h)

-- Marking a node opens none.
pub unvisited-put :
    (x y : ℕ) (k : Mark) (st : Map Mark)
    → is_unvisited k ≡ false
    → mark_of y (put x k st) ≡ unvisited
    → mark_of y st ≡ unvisited
unvisited-put x y k st n h = elim (Bool-cases (x == y)) [
  | inl same ↦
      let e : mark_of y (put x k st) ≡ k = mark_of-put x y k st ∙ rw same refl in
      let e' : is_unvisited k ≡ true = ap is_unvisited (sym e ∙ h) in cc
  | inr other ↦
      let e : mark_of y (put x k st) ≡ mark_of y st = mark_of-put x y k st ∙ rw other refl in
      sym e ∙ h
]

pub open_in-put :
    (x : ℕ) (k : Mark) (st : Map Mark) (xs : List ℕ)
    → mark_of x st ≡ unvisited
    → is_unvisited k ≡ false
    → contains x xs ≡ true
    → open_in (put x k st) xs < open_in st xs
open_in-put x k st [] o n c = cc
open_in-put x k st (y ∷ ys) o n c = elim (Bool-cases (y == x)) [
  | inl same ↦
      let e : y ≡ x = ==→≡ y x same in
      let now : mark_of y (put x k st) ≡ k =
        mark_of-put x y k st ∙ rw (ap (λ (i : ℕ). x == i) e, ==_self x) refl in
      let before : mark_of y st ≡ unvisited = subst (λ i. mark_of i st ≡ unvisited) (sym e) o in
      let le = open_in-le st (put x k st) ys (λ i. unvisited-put x i k st n) in
      let now' : one_if (is_unvisited (mark_of y (put x k st))) ≡ 0 =
        ap (λ (i : Mark). one_if (is_unvisited i)) now ∙ ap one_if n in
      let before' : one_if (is_unvisited (mark_of y st)) ≡ 1 =
        ap (λ (i : Mark). one_if (is_unvisited i)) before in
      omega (arith, now', before', le)
  | inr other ↦
      let ih = open_in-put x k st ys o n (ground (arith, c, other)) in
      let same : mark_of y (put x k st) ≡ mark_of y st =
        mark_of-put x y k st ∙ ground (arith, other) in
      let same' : one_if (is_unvisited (mark_of y (put x k st)))
          ≡ one_if (is_unvisited (mark_of y st)) =
        ap (λ (i : Mark). one_if (is_unvisited i)) same in
      omega (arith, ih, same')
]

pub open_in-le-length : (st : Map Mark) (xs : List ℕ) → open_in st xs ≤ length xs
open_in-le-length st [] = omega arith
open_in-le-length st (x ∷ xs) = ground (arith, open_in-le-length st xs)

pub mark_of-unmarked : (xs : List ℕ) (x : ℕ) → mark_of x (unmarked xs) ≡ unvisited
unfolding unmarked lookup
mark_of-unmarked [] x = refl
mark_of-unmarked (y ∷ ys) x =
    ground (arith, mark_of-put y x unvisited (unmarked ys), mark_of-unmarked ys x)
