-- ===== src/Residency/Methods/Serves.antt =====
-- What every public method owes its callers: a valid state, and pinned regions left in RAM.
use hetero_accel.Base.{
  ℕ, ◌+◌, ◌<◌, ◌≡◌, refl, sym, ap, ◌∙◌, subst, inl, inr, Bool, true, Option, some, List, arith,
  ◌==◌, ==→≡, ==_self, Bool-cases, Option-cases, u64_mod, is_positive,
}
use hetero_accel.Base.Map.{
  lookup, put, lookup-put, put-Distinct, total-put_new, Each-lookup, Each-put,
}
use hetero_accel.Residency.Types.{Region, AcceleratorMemory, Record, Manager}
use hetero_accel.Residency.{in_ram, busy, fresh_record, store, get_or_create}
use hetero_accel.Residency.Inv.{IsValid, ram_size, accel_size, SameSetup, SameSetup-trans}
use hetero_accel.Residency.Load.{IsHeld, IsHeld-IsSound, Transfers, update-Transfers}

module _ (dev : AcceleratorMemory) where
  -- The region `id` is pinned and in RAM with this buffer.
  pub record IsPinned (m : Manager dev) (id : ℕ) (bytes : Option (List ℕ)) (r : Record)
      : Type 0 where
    pub stored : lookup id m.records ≡ some r
    pub pinned : is_positive r.pins ≡ true
    pub present : in_ram r.state ≡ true
    pub buffer : r.ram ≡ bytes

  abbrev pub Pinned : Manager dev → ℕ → Option (List ℕ) → Type 0
  Pinned m id bytes = (r : Record) × IsPinned m id bytes r

  pub record Serves (m m' : Manager dev) : Type 0 where
    pub valid : IsValid dev m'
    pub setup : SameSetup dev m m'
    pub keeps : (id : ℕ) (bytes : Option (List ℕ)) → Pinned m id bytes → Pinned m' id bytes

  pub Serves-trans : {m m' m'' : Manager dev} → Serves m m' → Serves m' m'' → Serves m m''
  Serves-trans s t = record {
    valid = t.valid;
    setup = SameSetup-trans dev s.setup t.setup;
    keeps = λ id b p. t.keeps id b (s.keeps id b p);
  }

  pub pinned_busy : (r : Record) → is_positive r.pins ≡ true → busy r ≡ true
  unfolding busy
  pinned_busy r h = ground arith

  pub Transfers-Serves :
      {m : Manager dev} {r : Record} {out : Bool × Record × Manager dev}
      → IsHeld dev m r
      → Transfers dev m r out
      → Serves m out.2
  Transfers-Serves {m} {r} {out} h t = record {
    valid = t.held.valid;
    setup = t.setup;
    keeps = λ id b (x, p). elim (Bool-cases (id == r.region.id)) [
      | inr other ↦ (
        x,
        record {
          stored = t.busy_kept id x (other, pinned_busy x p.pinned) p.stored;
          pinned = p.pinned;
          present = p.present;
          buffer = p.buffer;
        },
      )
      | inl same ↦
          let e : id ≡ r.region.id = ==→≡ id r.region.id same in
          let same_record : x ≡ r = ground (arith, e, p.stored, h.stored) in
          let (ram, on) = t.ram_kept (ground (arith, same_record, p.present)) in
          let id' : out.1.region.id ≡ id = ap (λ (y : Region). y.id) t.region ∙ sym e in
          (
            out.1,
            record {
              stored = subst (λ k. lookup k out.2.records ≡ some out.1) id' t.held.stored;
              pinned = ground (arith, same_record, p.pinned, t.pins);
              present = on;
              buffer = ram ∙ ground (arith, same_record, p.buffer);
            },
          )
    ];
  }

  -- A manager that differs only in its error text and in counters that nothing is measured by.
  pub noted-Serves :
      (m m' : Manager dev)
      → IsValid dev m
      → m'.records ≡ m.records
      → m'.budget ≡ m.budget
      → m'.accelerator ≡ m.accelerator
      → m'.telemetry.resident_ram_bytes ≡ m.telemetry.resident_ram_bytes
      → m'.telemetry.resident_accelerator_bytes ≡ m.telemetry.resident_accelerator_bytes
      → Serves m m'
  noted-Serves m m' v same budget device ram accel = record {
    valid = record {
      distinct = rw same v.distinct;
      sound = rw (same, budget, device) v.sound;
      ram_counted = rw (same, ram) v.ram_counted;
      accel_counted = rw (same, accel) v.accel_counted;
      within = rw (ram, budget) v.within;
    };
    setup = record { budget = budget; device = rw device };
    keeps = λ id b (x, p). (
      x,
      record {
        stored = rw same p.stored;
        pinned = p.pinned;
        present = p.present;
        buffer = p.buffer;
      },
    );
  }

  -- A region that the manager can ever hold: its size and the budget do not wrap.
  abbrev pub Fits : Manager dev → Region → Type 0
  Fits m region = region.size + m.budget.ram_bytes < u64_mod

  pub get_or_create-Serves :
      (m : Manager dev) (region : Region)
      → IsValid dev m
      → Fits m region
      → let out = get_or_create dev m region in
        Serves m out.1 × IsHeld dev out.1 out.0 × (out.0.region.id ≡ region.id)
  unfolding get_or_create fresh_record
  get_or_create-Serves m region v fits = elim (Option-cases (lookup region.id m.records)) [
    | inr (r, e) ↦
        let ok = Each-lookup _ region.id r m.records v.sound e in
        rw (e, get_or_create)
          (
            noted-Serves m m v refl refl refl refl refl,
            record { valid = v; stored = subst (λ k. lookup k m.records ≡ some r) ok.key e },
            sym ok.key,
          )
    | inl e ↦
        let new : Record = fresh_record region in
        let valid : IsValid dev (record m { records = put region.id new m.records }) = record {
          distinct = put-Distinct region.id new m.records v.distinct;
          sound =
              Each-put _ region.id new m.records v.sound
                (record { key = refl; shape = refl; idle = refl; on_device = refl; fits = fits });
          ram_counted =
              omega (arith, v.ram_counted, total-put_new ram_size region.id new m.records e);
          accel_counted =
              omega (arith, v.accel_counted, total-put_new accel_size region.id new m.records e);
          within = v.within;
        } in
        rw (e, get_or_create)
          (
            record {
              valid = valid;
              setup = record { budget = refl; device = refl };
              keeps = λ id b (x, p). (
                x,
                record {
                  stored = rw lookup-put (ground (arith, p.stored, e, ==→≡ region.id id));
                  pinned = p.pinned;
                  present = p.present;
                  buffer = p.buffer;
                },
              );
            },
            record { valid = valid; stored = rw lookup-put (ground (arith, ==_self region.id)) },
            refl,
          )
  ]

  -- The time stamp of a served request, which may also set the prefetch mark.
  pub stamp-Transfers :
      (m : Manager dev) (r r' : Record)
      → IsHeld dev m r
      → r'.region ≡ r.region
      → r'.state ≡ r.state
      → r'.ram ≡ r.ram
      → r'.accel ≡ r.accel
      → r'.pins ≡ r.pins
      → r'.transferring ≡ r.transferring
      → Transfers dev m r (true, r', store dev r' m)
  unfolding store
  stamp-Transfers m r r' h region state ram accel pins idle =
      let ok = IsHeld-IsSound dev h in
      update-Transfers dev true h
        (record {
          setup = record { budget = refl; device = refl };
          written = rw region;
          region = region;
          sound = record {
            key = rw region;
            shape = rw (state, ram, accel) ok.shape;
            idle = rw idle ok.idle;
            on_device = rw accel ok.on_device;
            fits = rw region ok.fits;
          };
          ram = rw (ram, region);
          accel = rw (accel, region);
          within = h.valid.within;
        })
        pins (λ x. (ram, rw state x))
