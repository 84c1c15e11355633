-- ===== src/Residency/Methods/Calls.antt =====
-- The public methods of src/model/ModelResidencyManager.cpp as one step, and histories of calls.
use hetero_accel.Base.{
  ℕ, ◌+◌, ◌-◌, ◌%◌, ◌^◌, ◌≤◌, ◌<◌, ◌≡◌, refl, sym, ap, ◌∙◌, subst, ◌≢◌, inl, inr, Bool, true,
  Option, some, List, [], ◌∷◌, arith, ◌==◌, ==→≡, Bool-cases, Option-cases, All, u64_mod, u32_mod,
  is_positive,
}
use hetero_accel.Base.Map.{lookup, total, Each-lookup}
use hetero_accel.Residency.Types.{Budget, AcceleratorMemory, Record, Manager}
use hetero_accel.Residency.{store}
use hetero_accel.Residency.Methods.{
  Call, ensures, prefetches, pins, unpins, evicts, releases, pin, unpin, evict, release_all,
  new_manager, step, run, set_prefetch_enabled, sets_prefetch,
}
use hetero_accel.Residency.Inv.{IsValid, SameSetup, SameSetup-refl, evict_locked-Evicts}
use hetero_accel.Residency.Load.{IsHeld, IsHeld-IsSound, IsUpdate, update-IsHeld, update-others}
use hetero_accel.Residency.Methods.Serves.{Pinned, pinned_busy, Serves, noted-Serves}
use hetero_accel.Residency.Methods.Ensure.{ensure_resident-Answers, prefetch-Answers}

-- The regions that a call names do not wrap the budget.
abbrev pub Sized : ℕ → Call → Type 0
Sized budget (ensures region target w) = region.size + budget < u64_mod
Sized budget (prefetches region target w) = region.size + budget < u64_mod
Sized budget _ = Unit {0}

-- The calls after which a pinned region may be gone: its own unpin, and the release of everything.
abbrev pub Spares : ℕ → Call → Type 0
Spares id (unpins j) = id ≢ j
Spares id releases = ⊥
Spares id _ = Unit {0}

-- No pin raises the largest `int`.
abbrev pub Countable : (dev : AcceleratorMemory) → Manager dev → Call → Type 0
Countable dev m (pins j) = (r : Record) → lookup j m.records ≡ some r → r.pins + 1 ≢ 2 ^ 31
Countable dev m _ = Unit {0}

module _ (dev : AcceleratorMemory) where
  -- A change of the pin count alone.
  repin-IsUpdate :
      (m : Manager dev) (r : Record) (n : ℕ)
      → IsHeld dev m r
      → IsUpdate dev m (store dev (record r { pins = n }) m) r (record r { pins = n })
  unfolding store
  repin-IsUpdate m r n h =
      let ok = IsHeld-IsSound dev h in
      record {
        setup = record { budget = refl; device = refl };
        written = refl;
        region = refl;
        sound = record {
          key = refl;
          shape = ok.shape;
          idle = ok.idle;
          on_device = ok.on_device;
          fits = ok.fits;
        };
        ram = refl;
        accel = refl;
        within = h.valid.within;
      }

  found-IsHeld :
      (m : Manager dev) (id : ℕ) (r : Record)
      → IsValid dev m
      → lookup id m.records ≡ some r
      → IsHeld dev m r × (r.region.id ≡ id)
  found-IsHeld m id r v e =
      let ok = Each-lookup _ id r m.records v.sound e in
      (record { valid = v; stored = subst (λ k. lookup k m.records ≡ some r) ok.key e }, sym ok.key)

  repin-Pinned :
      (m : Manager dev) (r : Record) (n id : ℕ) (bytes : Option (List ℕ))
      → IsHeld dev m r
      → (id ≡ r.region.id → is_positive r.pins ≡ true → is_positive n ≡ true)
      → Pinned dev m id bytes
      → Pinned dev (store dev (record r { pins = n }) m) id bytes
  repin-Pinned m r n id bytes h more (x, p) = elim (Bool-cases (id == r.region.id)) [
    | inr other ↦ (
      x,
      record {
        stored = update-others dev (repin-IsUpdate m r n h) id x other p.stored;
        pinned = p.pinned;
        present = p.present;
        buffer = p.buffer;
      },
    )
    | inl same ↦
        let e = ==→≡ id r.region.id same in
        let e' : x ≡ r = ground (arith, e, p.stored, h.stored) in
        let u = update-IsHeld dev h (repin-IsUpdate m r n h) in
        (
          record r { pins = n },
          record {
            stored =
                subst
                  (λ k.
                    lookup k (store dev (record r { pins = n }) m).records
                    ≡ some (record r { pins = n }))
                  (sym e) u.stored;
            pinned = more e (ground (arith, e', p.pinned));
            present = ground (arith, e', p.present);
            buffer = ground (arith, e', p.buffer);
          },
        )
  ]

  -- A pin keeps every pinned region, unless the count that it raises is the largest.
  pin_keeps :
      (m : Manager dev) (id : ℕ)
      → IsValid dev m
      → IsValid dev (pin dev m id)
        × SameSetup dev m (pin dev m id)
        × ((j : ℕ) (b : Option (List ℕ))
            → Countable dev m (pins id)
            → Pinned dev m j b
            → Pinned dev (pin dev m id) j b)
  unfolding pin
  pin_keeps m id v = elim (Option-cases (lookup id m.records)) [
    | inl e ↦
        let same : pin dev m id ≡ m = ground (arith, e) in
        rw same (v, SameSetup-refl dev m, λ j b c p. p)
    | inr (r, e) ↦
        let (h, _) = found-IsHeld m id r v e in
        let n = (r.pins + 1) % u32_mod in
        let to : pin dev m id ≡ store dev (record r { pins = n }) m = ground (arith, e) in
        rw to (
          (update-IsHeld dev h (repin-IsUpdate m r n h)).valid,
          (repin-IsUpdate m r n h).setup,
          λ j b c p. repin-Pinned m r n j b h (λ _ on. ground (arith, on, c r e)) p,
        )
  ]

  -- An unpin keeps every other pinned region.
  unpin_keeps :
      (m : Manager dev) (id : ℕ)
      → IsValid dev m
      → IsValid dev (unpin dev m id)
        × SameSetup dev m (unpin dev m id)
        × ((j : ℕ) (b : Option (List ℕ))
            → j ≢ id
            → Pinned dev m j b
            → Pinned dev (unpin dev m id) j b)
  unfolding unpin
  unpin_keeps m id v = elim (Option-cases (lookup id m.records)) [
    | inl e ↦
        let same : unpin dev m id ≡ m = ground (arith, e) in
        rw same (v, SameSetup-refl dev m, λ j b n p. p)
    | inr (r, e) ↦ elim (Bool-cases (is_positive r.pins)) [
      | inr free ↦
          let same : unpin dev m id ≡ m = ground (arith, e, free) in
          rw same (v, SameSetup-refl dev m, λ j b n p. p)
      | inl held ↦
          let (h, key) = found-IsHeld m id r v e in
          let to : unpin dev m id ≡ store dev (record r { pins = r.pins - 1 }) m =
            ground (arith, e, held) in
          rw to (
            (update-IsHeld dev h (repin-IsUpdate m r (r.pins - 1) h)).valid,
            (repin-IsUpdate m r (r.pins - 1) h).setup,
            λ j b n p. repin-Pinned m r (r.pins - 1) j b h (λ e' _. absurd (n (e' ∙ key))) p,
          )
    ]
  ]

  release_all-IsValid :
      (m : Manager dev) → IsValid dev (release_all dev m) × SameSetup dev m (release_all dev m)
  unfolding release_all total
  release_all-IsValid m = (
    record {
      distinct = tt;
      sound = tt;
      ram_counted = refl;
      accel_counted = refl;
      within = omega arith;
    },
    record { budget = refl; device = ground arith },
  )

  evict-Serves : (m : Manager dev) (id : ℕ) → IsValid dev m → Serves dev m (evict dev m id).1
  unfolding evict
  evict-Serves m id v =
      let e = evict_locked-Evicts dev m id v in
      record {
        valid = e.valid;
        setup = e.setup;
        keeps = λ j b (x, p). (
          x,
          record {
            stored = e.busy_kept j x (pinned_busy dev x p.pinned) p.stored;
            pinned = p.pinned;
            present = p.present;
            buffer = p.buffer;
          },
        );
      }

  set_prefetch_enabled-Serves :
      (m : Manager dev) (on : Bool) → IsValid dev m → Serves dev m (set_prefetch_enabled dev on m)
  unfolding set_prefetch_enabled
  set_prefetch_enabled-Serves m on v = noted-Serves dev m _ v refl refl refl refl refl

  step-IsValid :
      (m : Manager dev) (c : Call)
      → IsValid dev m
      → Sized m.budget.ram_bytes c
      → IsValid dev (step dev m c) × ((step dev m c).budget ≡ m.budget)
  unfolding step
  step-IsValid m (ensures region target w) v fits =
      let (s, _) = ensure_resident-Answers dev m region target w v fits in (s.valid, s.setup.budget)
  step-IsValid m (prefetches region target w) v fits =
      let (s, _) = prefetch-Answers dev m region target w v fits in (s.valid, s.setup.budget)
  step-IsValid m (pins id) v fits = let (ok, s, _) = pin_keeps m id v in (ok, s.budget)
  step-IsValid m (unpins id) v fits = let (ok, s, _) = unpin_keeps m id v in (ok, s.budget)
  step-IsValid m (evicts id) v fits = let s = evict-Serves m id v in (s.valid, s.setup.budget)
  step-IsValid m (sets_prefetch on) v fits =
      let s = set_prefetch_enabled-Serves m on v in (s.valid, s.setup.budget)
  step-IsValid m releases v fits = let (ok, s) = release_all-IsValid m in (ok, s.budget)

  -- On a valid manager, a pinned region that is in RAM is still pinned and in RAM with the same
  -- buffer after every public call but its own unpin and release_all, for calls whose regions do
  -- not wrap the budget, and if no count that is the largest `int` is raised by one.
  pub step-Pinned :
      (m : Manager dev) (c : Call) (id : ℕ) (bytes : Option (List ℕ))
      → IsValid dev m
      → Sized m.budget.ram_bytes c
      → Spares id c
      → Countable dev m c
      → Pinned dev m id bytes
      → Pinned dev (step dev m c) id bytes
  unfolding step
  step-Pinned m (ensures region target w) id bytes v fits other count p =
      (ensure_resident-Answers dev m region target w v fits).0.keeps id bytes p
  step-Pinned m (prefetches region target w) id bytes v fits other count p =
      (prefetch-Answers dev m region target w v fits).0.keeps id bytes p
  step-Pinned m (pins j) id bytes v fits other count p = (pin_keeps m j v).2 id bytes count p
  step-Pinned m (unpins j) id bytes v fits other count p = (unpin_keeps m j v).2 id bytes other p
  step-Pinned m (evicts j) id bytes v fits other count p = (evict-Serves m j v).keeps id bytes p
  step-Pinned m (sets_prefetch on) id bytes v fits other count p =
      (set_prefetch_enabled-Serves m on v).keeps id bytes p
  step-Pinned m releases id bytes v fits other count p = absurd other

  run-from-IsValid :
      (b : ℕ) (m : Manager dev) (cs : List Call)
      → m.budget.ram_bytes ≡ b
      → IsValid dev m
      → All (Sized b) cs
      → IsValid dev (run dev m cs) × ((run dev m cs).budget.ram_bytes ≡ b)
  unfolding run
  run-from-IsValid b m [] e v fits = (v, e)
  run-from-IsValid b m (c ∷ cs) e v fits =
      let (v', e') = step-IsValid m c v (rw e fits.0) in
      run-from-IsValid b (step dev m c) cs (ap (λ (x : Budget). x.ram_bytes) e' ∙ e) v' fits.1

  pub new_manager-IsValid :
      (budget : Budget) (device : Option dev.State) → IsValid dev (new_manager dev budget device)
  unfolding new_manager total
  new_manager-IsValid budget device = record {
    distinct = tt;
    sound = tt;
    ram_counted = refl;
    accel_counted = refl;
    within = omega arith;
  }

  -- After any list of public calls from the constructor, with regions whose size and the RAM
  -- budget do not wrap, the manager is valid (keys are distinct and those of the regions, each
  -- record holds the buffers of its state and none is left in transfer, both byte counters are the
  -- sums of the sizes of the buffers held) and the RAM counter is within the budget.
  pub run-new_manager-IsValid :
      (budget : Budget) (device : Option dev.State) (cs : List Call)
      → All (Sized budget.ram_bytes) cs
      → let m = run dev (new_manager dev budget device) cs in
        IsValid dev m × (m.telemetry.resident_ram_bytes ≤ budget.ram_bytes)
  unfolding new_manager
  run-new_manager-IsValid budget device cs fits =
      let (v, e) =
        run-from-IsValid budget.ram_bytes (new_manager dev budget device) cs refl
          (new_manager-IsValid budget device) fits in
      (v, omega (arith, v.within, e))
