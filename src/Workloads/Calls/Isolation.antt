-- ===== src/Workloads/Calls/Isolation.antt =====
-- src/scheduler/WorkloadRegistry.cpp: the ids of the workloads, and what a call leaves alone.
use hetero_accel.Base.{
  ℕ, ◌+◌, ◌≤◌, ◌<◌, ◌≡◌, refl, sym, ap, ◌∙◌, subst, inl, inr, Bool, false, ◌&&◌, none, some, List,
  [], ◌∷◌, arith, ◌==◌, if◌then◌else◌, ==→≡, Bool-cases, Option-cases, length, u64_mod, add64,
}
use hetero_accel.Base.Map.{
  Map, lookup, put, Distinct, Each, lookup-put, put-Distinct, Each-map, Each-lookup, Each-put,
}
use hetero_accel.Workloads.{
  WorkloadEntry, WorkloadRegistry, empty_registry, register_workload, cancel, set_running,
  set_completed, set_failed, set_cancelled, prune, prune_old, is_terminal, change, cancelled_entry,
}
use hetero_accel.Workloads.Calls.{
  Call, registers, cancels, runs, completes, stops, fails, prunes, apply, run,
}

-- An entry that pruning removes.
abbrev pub is_pruned : (ℕ → Bool) → WorkloadEntry → Bool
is_pruned is_old e = is_terminal e.state && is_old e.finished_at

lookup-prune :
    (is_old : ℕ → Bool) (y : ℕ) (m : Map WorkloadEntry)
    → Distinct m
    → lookup y (prune is_old m)
      ≡ elim (lookup y m) [ none ↦ none | some e ↦ if is_pruned is_old e then none else some e ]
unfolding prune lookup
lookup-prune is_old y [] d = refl
lookup-prune is_old y ((k, e) ∷ m) d = elim (Bool-cases (k == y)) [
  | inr other ↦ let ih = lookup-prune is_old y m d.1 in ground (arith, other, ih)
  | inl same ↦
      let at : lookup y m ≡ none = subst (λ i. lookup i m ≡ none) (==→≡ k y same) d.0 in
      let ih = lookup-prune is_old y m d.1 in ground (arith, same, at, ih)
]

-- The workload that a call is about.
abbrev pub touches : Call → WorkloadRegistry → ℕ → Bool
touches (registers name path priority wclass now) r y = r.next_id == y
touches (cancels id now) r y = id == y
touches (runs id now) r y = id == y
touches (completes id now) r y = id == y
touches (stops id now) r y = id == y
touches (fails id message now) r y = id == y
touches (prunes is_old) r y = elim (lookup y r.entries) [
  | none ↦ false
  | some e ↦ is_pruned is_old e
]

change-none :
    (id : ℕ) (f : WorkloadEntry → WorkloadEntry) (r : WorkloadRegistry)
    → lookup id r.entries ≡ none
    → change id f r ≡ r
change-none id f r missing = ground (arith, missing)

change-some :
    (id : ℕ) (f : WorkloadEntry → WorkloadEntry) (r : WorkloadRegistry) (e : WorkloadEntry)
    → lookup id r.entries ≡ some e
    → change id f r ≡ record r { entries = put id (f e) r.entries }
change-some id f r e there = ground (arith, there)

change-other :
    (id y : ℕ) (f : WorkloadEntry → WorkloadEntry) (r : WorkloadRegistry)
    → (id == y) ≡ false
    → lookup y (change id f r).entries ≡ lookup y r.entries
change-other id y f r other = elim (Option-cases (lookup id r.entries)) [
  | inl missing ↦ ap (λ (q : WorkloadRegistry). lookup y q.entries) (change-none id f r missing)
  | inr (e, there) ↦
      ap (λ (q : WorkloadRegistry). lookup y q.entries) (change-some id f r e there)
      ∙ lookup-put id y (f e) r.entries
      ∙ rw other refl
]

-- Take any registry without a key twice, and any call. An entry that the call is not about stays as
-- it is: registering adds its own new id only, cancelling and changing the state of a workload, also
-- when it fails, change that workload only, and pruning removes only entries that have ended and are
-- old.
pub apply-Isolated :
    (x : Call) (r : WorkloadRegistry) (y : ℕ)
    → Distinct r.entries
    → touches x r y ≡ false
    → lookup y (apply x r).entries ≡ lookup y r.entries
unfolding register_workload cancel set_running set_completed set_failed set_cancelled prune_old
apply-Isolated (registers name path priority wclass now) r y d h =
    lookup-put r.next_id y _ r.entries ∙ rw h refl
apply-Isolated (cancels id now) r y d h = change-other id y _ r h
apply-Isolated (runs id now) r y d h = change-other id y _ r h
apply-Isolated (completes id now) r y d h = change-other id y _ r h
apply-Isolated (stops id now) r y d h = change-other id y _ r h
apply-Isolated (fails id message now) r y d h = change-other id y _ r h
apply-Isolated (prunes is_old) r y d h = ground (arith, lookup-prune is_old y r.entries d, h)

-- An entry under its own id, which has been given out.
abbrev pub InUse : ℕ → ℕ → WorkloadEntry → Type 0
InUse next k e = (0 < k) × (k < next) × (e.id ≡ k)

pub record Numbered (r : WorkloadRegistry) : Type 0 where
  pub distinct : Distinct r.entries
  pub in_use : Each (InUse r.next_id) r.entries

prune-Distinct :
    (is_old : ℕ → Bool) (m : Map WorkloadEntry) → Distinct m → Distinct (prune is_old m)
unfolding prune
prune-Distinct is_old [] d = tt
prune-Distinct is_old ((k, e) ∷ m) d =
    let off : lookup k (prune is_old m) ≡ none = ground (arith, lookup-prune is_old k m d.1, d.0) in
    elim (Bool-cases (is_pruned is_old e)) [
      | inl gone ↦ rw gone (prune-Distinct is_old m d.1)
      | inr kept ↦ rw kept (off, prune-Distinct is_old m d.1)
    ]

prune-Each :
    (P : ℕ → WorkloadEntry → Type 0) (is_old : ℕ → Bool) (m : Map WorkloadEntry)
    → Each P m
    → Each P (prune is_old m)
unfolding prune
prune-Each P is_old [] d = tt
prune-Each P is_old ((k, e) ∷ m) d = elim (Bool-cases (is_pruned is_old e)) [
  | inl gone ↦ rw gone (prune-Each P is_old m d.1)
  | inr kept ↦ rw kept (d.0, prune-Each P is_old m d.1)
]

change-Numbered :
    (id : ℕ) (f : WorkloadEntry → WorkloadEntry) (r : WorkloadRegistry)
    → ((e : WorkloadEntry) → (f e).id ≡ e.id)
    → Numbered r
    → Numbered (change id f r) × ((change id f r).next_id ≡ r.next_id)
change-Numbered id f r same h = elim (Option-cases (lookup id r.entries)) [
  | inl missing ↦
      subst (λ q. Numbered q × (q.next_id ≡ r.next_id)) (sym (change-none id f r missing)) (h, refl)
  | inr (e, there) ↦
      let (low, high, own) = Each-lookup (InUse r.next_id) id e r.entries h.in_use there in
      subst (λ q. Numbered q × (q.next_id ≡ r.next_id)) (sym (change-some id f r e there))
        (
          record {
            distinct = put-Distinct id (f e) r.entries h.distinct;
            in_use =
                Each-put (InUse r.next_id) id (f e) r.entries h.in_use (low, high, same e ∙ own);
          },
          refl,
        )
]

-- What a call leaves, if the ids have not run out.
abbrev Counts : WorkloadRegistry → WorkloadRegistry → Type 0
Counts r q = Numbered q × (q.next_id ≤ r.next_id + 1) × (r.next_id ≤ q.next_id)

changed-Counts :
    (id : ℕ) (f : WorkloadEntry → WorkloadEntry) (r : WorkloadRegistry)
    → ((e : WorkloadEntry) → (f e).id ≡ e.id)
    → Numbered r
    → Counts r (change id f r)
changed-Counts id f r same h =
    let (n, e) = change-Numbered id f r same h in (n, omega (arith, e), omega (arith, e))

apply-Counts :
    (x : Call) (r : WorkloadRegistry)
    → 0 < r.next_id
    → r.next_id + 1 < u64_mod
    → Numbered r
    → Counts r (apply x r)
unfolding register_workload cancel set_running set_completed set_failed set_cancelled prune_old
apply-Counts (registers name path priority wclass now) r some_id room h =
    let exact : add64 r.next_id 1 ≡ r.next_id + 1 = omega (arith, room) in
    rw exact (
      record {
        distinct = put-Distinct r.next_id _ r.entries h.distinct;
        in_use =
            Each-put (InUse (r.next_id + 1)) r.next_id _ r.entries
              (Each-map (InUse r.next_id) (InUse (r.next_id + 1))
                (λ k e (low, high, own). (low, omega (arith, high), own)) r.entries h.in_use)
              (some_id, omega arith, refl);
      },
      omega arith,
      omega arith,
    )
apply-Counts (cancels id now) r some_id room h =
    changed-Counts id (cancelled_entry now) r (λ e. ground arith) h
apply-Counts (runs id now) r some_id room h = changed-Counts id _ r (λ e. refl) h
apply-Counts (completes id now) r some_id room h = changed-Counts id _ r (λ e. refl) h
apply-Counts (stops id now) r some_id room h = changed-Counts id _ r (λ e. refl) h
apply-Counts (fails id message now) r some_id room h = changed-Counts id _ r (λ e. refl) h
apply-Counts (prunes is_old) r some_id room h = (
  record {
    distinct = prune-Distinct is_old r.entries h.distinct;
    in_use = prune-Each (InUse r.next_id) is_old r.entries h.in_use;
  },
  omega arith,
  omega arith,
)

runs-Numbered :
    (xs : List Call) (r : WorkloadRegistry)
    → 0 < r.next_id
    → r.next_id + length xs < u64_mod
    → Numbered r
    → Numbered (run xs r)
runs-Numbered [] r some_id room h = h
runs-Numbered (x ∷ xs) r some_id room h =
    let (n, up, low) = apply-Counts x r some_id (omega (arith, room)) h in
    runs-Numbered xs (apply x r) (omega (arith, some_id, low)) (omega (arith, room, up)) n

-- After any sequence of fewer than 2^64 - 1 calls on a new registry, no id stands twice, every entry
-- stands under its own id, which is not 0, and the next id is greater than every id in the registry:
-- a registration never replaces a workload.
pub run-Numbered :
    (calls : List Call) → length calls + 1 < u64_mod → Numbered (run calls empty_registry)
unfolding empty_registry
run-Numbered calls room =
    runs-Numbered calls empty_registry (omega arith) (omega (arith, room))
      (record { distinct = tt; in_use = tt })
