-- ===== src/Workloads/Calls/Sorting.antt =====
-- src/scheduler/WorkloadRegistry.cpp: the active workloads in the order of their priority.
use hetero_accel.Base.{
  ℕ, suc, ◌+◌, ◌≤◌, ◌≡◌, refl, ap, ◌∙◌, subst, inl, inr, Bool, true, false, none, some, List, [],
  ◌∷◌, arith, ltb, ◌==◌, one_if, ==→≡, ltb-false, Bool-cases, length, All,
}
use hetero_accel.Base.Map.{Map, lookup, Distinct, Each}
use hetero_accel.Workloads.{
  WorkloadEntry, WorkloadRegistry, rank, is_active, active_entries, insert_entry, sort_entries,
  active_workloads_sorted, count_active, active_count,
}
use hetero_accel.Workloads.Calls.Isolation.{InUse, Numbered}

-- Each entry has at least the priority of those after it.
abbrev pub Descending : List WorkloadEntry → Type 0
Descending [] = Unit
Descending (x ∷ xs) = All (λ e. rank e.priority ≤ rank x.priority) xs × Descending xs

-- How often an id is listed.
abbrev pub times : ℕ → List WorkloadEntry → ℕ
times y [] = 0
times y (x ∷ xs) = one_if (x.id == y) + times y xs

abbrev pub active_at : ℕ → WorkloadRegistry → Bool
active_at y r = elim (lookup y r.entries) [ none ↦ false | some e ↦ is_active e.state ]

All-insert :
    (P : WorkloadEntry → Type 0) (e : WorkloadEntry) (xs : List WorkloadEntry)
    → P e
    → All P xs
    → All P (insert_entry e xs)
unfolding insert_entry
All-insert P e [] p h = (p, tt)
All-insert P e (x ∷ xs) p h = elim (Bool-cases (ltb (rank e.priority) (rank x.priority))) [
  | inl less ↦ rw less (h.0, All-insert P e xs p h.1)
  | inr more ↦ rw more (p, h)
]

All-weaken :
    (a b : ℕ) (xs : List WorkloadEntry)
    → a ≤ b
    → All (λ e. rank e.priority ≤ a) xs
    → All (λ e. rank e.priority ≤ b) xs
All-weaken a b [] le h = tt
All-weaken a b (x ∷ xs) le h = (omega (arith, le, h.0), All-weaken a b xs le h.1)

insert-Descending :
    (e : WorkloadEntry) (xs : List WorkloadEntry) → Descending xs → Descending (insert_entry e xs)
unfolding insert_entry
insert-Descending e [] d = (tt, tt)
insert-Descending e (x ∷ xs) d = elim (Bool-cases (ltb (rank e.priority) (rank x.priority))) [
  | inl less ↦
      let le : rank e.priority ≤ rank x.priority =
        less_le (rank e.priority) (rank x.priority) less in
      rw less (
        All-insert (λ k. rank k.priority ≤ rank x.priority) e xs le d.0,
        insert-Descending e xs d.1,
      )
  | inr more ↦
      let le = ltb-false (rank e.priority) (rank x.priority) more in
      rw more ((le, All-weaken (rank x.priority) (rank e.priority) xs le d.0), d)
]
  where
    less_le : (a b : ℕ) → ltb a b ≡ true → a ≤ b
    less_le a b h = ground arith

sort-Descending : (xs : List WorkloadEntry) → Descending (sort_entries xs)
unfolding sort_entries
sort-Descending [] = tt
sort-Descending (x ∷ xs) = insert-Descending x (sort_entries xs) (sort-Descending xs)

times-insert :
    (y : ℕ) (e : WorkloadEntry) (xs : List WorkloadEntry)
    → times y (insert_entry e xs) ≡ one_if (e.id == y) + times y xs
unfolding insert_entry
times-insert y e [] = refl
times-insert y e (x ∷ xs) = elim (Bool-cases (ltb (rank e.priority) (rank x.priority))) [
  | inl less ↦ rw less (omega (arith, times-insert y e xs))
  | inr more ↦ rw more refl
]

times-sort : (y : ℕ) (xs : List WorkloadEntry) → times y (sort_entries xs) ≡ times y xs
unfolding sort_entries
times-sort y [] = refl
times-sort y (x ∷ xs) = omega (arith, times-insert y x (sort_entries xs), times-sort y xs)

length-insert :
    (e : WorkloadEntry) (xs : List WorkloadEntry) → length (insert_entry e xs) ≡ suc (length xs)
unfolding insert_entry
length-insert e [] = refl
length-insert e (x ∷ xs) = elim (Bool-cases (ltb (rank e.priority) (rank x.priority))) [
  | inl less ↦ rw less (ap suc (length-insert e xs))
  | inr more ↦ rw more refl
]

length-sort : (xs : List WorkloadEntry) → length (sort_entries xs) ≡ length xs
unfolding sort_entries
length-sort [] = refl
length-sort (x ∷ xs) = length-insert x (sort_entries xs) ∙ ap suc (length-sort xs)

length-active_entries : (m : Map WorkloadEntry) → length (active_entries m) ≡ count_active m
unfolding active_entries count_active
length-active_entries [] = refl
length-active_entries ((k, e) ∷ m) = ground (arith, length-active_entries m)

times-active_entries :
    (next y : ℕ) (m : Map WorkloadEntry)
    → Distinct m
    → Each (InUse next) m
    → times y (active_entries m)
      ≡ one_if (elim (lookup y m) [ none ↦ false | some e ↦ is_active e.state ])
unfolding active_entries lookup
times-active_entries next y [] d h = refl
times-active_entries next y ((k, e) ∷ m) d (h, hs) =
    let ih = times-active_entries next y m d.1 hs in
    elim (Bool-cases (k == y)) [
      | inr other ↦
          let other' : (e.id == y) ≡ false = ap (λ (i : ℕ). i == y) h.2 ∙ other in
          ground (arith, ih, other, other')
      | inl same ↦
          let same' : (e.id == y) ≡ true = ap (λ (i : ℕ). i == y) h.2 ∙ same in
          let at : lookup y m ≡ none = subst (λ i. lookup i m ≡ none) (==→≡ k y same) d.0 in
          ground (arith, ih, at, same, same')
    ]

-- Take any registry that calls can lead to. The sorted active workloads are in descending order of
-- priority; each id is listed once if its workload is queued or running, and otherwise not at all;
-- and there are as many as activeCount says.
pub active_workloads_sorted-lists :
    (r : WorkloadRegistry)
    → Numbered r
    → Descending (active_workloads_sorted r)
      × ((y : ℕ) → times y (active_workloads_sorted r) ≡ one_if (active_at y r))
      × (length (active_workloads_sorted r) ≡ active_count r)
unfolding active_workloads_sorted active_count
active_workloads_sorted-lists r h = (
  sort-Descending (active_entries r.entries),
  λ y.
      times-sort y (active_entries r.entries)
      ∙ times-active_entries r.next_id y r.entries h.distinct h.in_use,
  length-sort (active_entries r.entries) ∙ length-active_entries r.entries,
)
