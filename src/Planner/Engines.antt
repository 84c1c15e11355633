-- ===== src/Planner/Engines.antt =====
-- src/planner/ExecutionPlanner.cpp: what `selectEngine` and `partialLayers` return.
use hetero_accel.Base.{
  ℕ, ◌≤◌, ◌<◌, ◌≡◌, refl, sym, ◌∙◌, ◌⊎◌, inl, inr, Bool, true, false, ◌&&◌, ◌||◌, Option, none,
  some, List, [], ◌∷◌, arith, is_some, Bool-cases,
}
use Prim.Native.String.{◌∷◌}
use hetero_accel.Planner.Types.{ModelRequirements, ExecutionMode}
use hetero_accel.Planner.{
  str_lt, has_backend, Candidate, better, select_from, select_engine, partial_layers, Bool, Option,
  List, ℕ, ◌&&◌, true, false, some, ◌≡◌, is_some, arith, ◌||◌, ◌⊎◌, none, ◌≤◌, Bool-cases, inl, ◌<◌,
}

-- An eligible candidate whose engine advertises the backend.
abbrev pub serves : ExecutionMode → Candidate → Bool
serves mode c = c.eligible && has_backend c.caps mode

abbrev pub serves_option : ExecutionMode → Option Candidate → Bool
serves_option mode none = true
serves_option mode (some c) = serves mode c

abbrev pub any_serves : ExecutionMode → List Candidate → Bool
any_serves mode [] = false
any_serves mode (c ∷ cs) = serves mode c || any_serves mode cs

-- The candidate is one of the list or the earlier best.
abbrev pub From : List Candidate → Option Candidate → Option Candidate → Type 0
From cs best none = Unit
From [] best (some e) = best ≡ some e
From (c ∷ cs) best (some e) = (c ≡ e) ⊎ From cs best (some e)

better-serves :
    (mode : ExecutionMode) (c : Candidate) (best : Option Candidate)
    → serves_option mode best ≡ true
    → serves_option mode (better mode c best) ≡ true
better-serves mode c none h = ground arith
better-serves mode c (some b) h = ground (arith, h)

better-is_some :
    (mode : ExecutionMode) (c : Candidate) (best : Option Candidate)
    → is_some (better mode c best) ≡ is_some best || serves mode c
better-is_some mode c none = ground arith
better-is_some mode c (some b) = ground arith

-- Either the earlier best or the candidate itself.
better-From :
    (mode : ExecutionMode) (c : Candidate) (best : Option Candidate)
    → (better mode c best ≡ best) ⊎ (better mode c best ≡ some c)
better-From mode c none = elim (Bool-cases (serves mode c)) [
  | inl on ↦ inr (ground (arith, on))
  | inr off ↦ inl (ground (arith, off))
]
better-From mode c (some b) = elim (Bool-cases (serves mode c && str_lt c.key b.key)) [
  | inl on ↦ inr (ground (arith, on))
  | inr off ↦ inl (ground (arith, off))
]

-- What the scan returns serves the mode, and is found exactly if some candidate does.
record Selects (mode : ExecutionMode) (cs : List Candidate) (best : Option Candidate)
    (out : Option Candidate) : Type 0 where
  pub serving : serves_option mode out ≡ true
  pub found : is_some out ≡ is_some best || any_serves mode cs

select_from-Selects :
    (cs : List Candidate) (mode : ExecutionMode) (best : Option Candidate)
    → serves_option mode best ≡ true
    → Selects mode cs best (select_from cs mode best)
unfolding select_from
select_from-Selects [] mode best h = record { serving = h; found = ground arith }
select_from-Selects (c ∷ cs) mode best h =
    let ih = select_from-Selects cs mode (better mode c best) (better-serves mode c best h) in
    record { serving = ih.serving; found = ground (arith, ih.found, better-is_some mode c best) }

From-best :
    (cs : List Candidate) (c : Candidate) (best b : Option Candidate) (out : Option Candidate)
    → (b ≡ best) ⊎ (b ≡ some c)
    → From cs b out
    → From (c ∷ cs) best out
From-best cs c best b none h f = f
From-best [] c best b (some e) (inl h) f = inr (sym h ∙ f)
From-best [] c best b (some e) (inr h) f = inl (ground (arith, sym h ∙ f))
From-best (d ∷ ds) c best b (some e) h (inl f) = inr (inl f)
From-best (d ∷ ds) c best b (some e) h (inr f) = elim (From-best ds c best b (some e) h f) [
  | inl x ↦ inl x
  | inr x ↦ inr (inr x)
]

select_from-From :
    (cs : List Candidate) (mode : ExecutionMode) (best : Option Candidate)
    → From cs best (select_from cs mode best)
unfolding select_from
select_from-From [] mode none = tt
select_from-From [] mode (some e) = refl
select_from-From (c ∷ cs) mode best =
    From-best cs c best (better mode c best) (select_from (c ∷ cs) mode best)
      (better-From mode c best) (select_from-From cs mode (better mode c best))

-- `selectEngine` finds an engine exactly if some eligible candidate advertises the backend, and
-- the engine it finds is one of the candidates, eligible, and advertises the backend.
pub select_engine-Selects :
    (cs : List Candidate) (mode : ExecutionMode)
    → (is_some (select_engine cs mode) ≡ any_serves mode cs)
      × ((serves_option mode (select_engine cs mode) ≡ true) × From cs none (select_engine cs mode))
unfolding select_engine
select_engine-Selects cs mode =
    let s = select_from-Selects cs mode none refl in
    (s.found, (s.serving, select_from-From cs mode none))

-- For a model of two layers or more and of at least one byte, the layer budget is at least one
-- layer and at most all but one, also where the product of the layers and the accelerator's bytes
-- wraps.
pub partial_layers-IsPartial :
    (req : ModelRequirements) (count accelerator_bytes model_bytes : ℕ)
    → req.layer_count ≡ some count
    → 2 ≤ count
    → 0 < model_bytes
    → (1 ≤ partial_layers req accelerator_bytes model_bytes)
      × (partial_layers req accelerator_bytes model_bytes < count)
unfolding partial_layers
partial_layers-IsPartial req count a b e two pos = rw e (ground arith, ground arith)
