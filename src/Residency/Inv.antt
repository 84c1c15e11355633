-- ===== src/Residency/Inv.antt =====
-- The well-formedness of the manager between calls, and its preservation by eviction and by
-- writing a record back.
use hetero_accel.Base.{
  ℕ, suc, ◌+◌, ◌≤◌, ◌<◌, ◌≡◌, refl, ap, ◌∙◌, inl, inr, Bool, true, false, not, ◌&&◌, none, some,
  arith, ◌==◌, if◌then◌else◌, is_some, ==→≡, Bool-cases, Option-cases, length, u64_mod,
}
use hetero_accel.Base.Map.{
  lookup, put, erase, Distinct, Each, total, lookup-erase, put-Distinct, erase-Distinct,
  total-put_old, total-erase, length-erase, total-get, Each-lookup, Each-put, Each-erase,
}
use hetero_accel.Residency.Types.{
  ResidencyState, not_resident, resident_in_ram, resident_in_accelerator, error, Budget,
  AcceleratorMemory, Record, Manager,
}
use hetero_accel.Residency.{busy, free_accel, free_ram, drop_record, evict_locked}

-- Which buffers a record holds in each state; the states of a transfer are never seen between calls.
abbrev pub well_shaped : ResidencyState → Bool → Bool → Bool
well_shaped not_resident false false = true
well_shaped resident_in_ram true false = true
well_shaped resident_in_accelerator true true = true
well_shaped error false false = true
well_shaped _ _ _ = false

abbrev pub ram_size : Record → ℕ
ram_size r = if is_some r.ram then r.region.size else 0

abbrev pub accel_size : Record → ℕ
accel_size r = if is_some r.accel then r.region.size else 0

-- A record under its key, with the manager's RAM budget and whether it has a device.
pub record IsSound (budget : ℕ) (device : Bool) (k : ℕ) (r : Record) : Type 0 where
  pub key : k ≡ r.region.id
  pub shape : well_shaped r.state (is_some r.ram) (is_some r.accel) ≡ true
  pub idle : r.transferring ≡ false
  pub on_device : (is_some r.accel && not device) ≡ false
  pub fits : r.region.size + budget < u64_mod

module _ (dev : AcceleratorMemory) where
  pub record IsValid (m : Manager dev) : Type 0 where
    pub distinct : Distinct m.records
    pub sound : Each (IsSound m.budget.ram_bytes (is_some m.accelerator)) m.records
    pub ram_counted : m.telemetry.resident_ram_bytes ≡ total ram_size m.records
    pub accel_counted : m.telemetry.resident_accelerator_bytes ≡ total accel_size m.records
    pub within : m.telemetry.resident_ram_bytes ≤ m.budget.ram_bytes

  -- What no step changes: the budget and whether there is a device.
  pub record SameSetup (m m' : Manager dev) : Type 0 where
    pub budget : m'.budget ≡ m.budget
    pub device : is_some m'.accelerator ≡ is_some m.accelerator

  -- A record written back in place of a stored one, with the counters moved by the difference.
  pub store-IsValid :
      (m m' : Manager dev) (id : ℕ) (r r' : Record)
      → IsValid m
      → SameSetup m m'
      → lookup id m.records ≡ some r
      → m'.records ≡ put id r' m.records
      → IsSound m.budget.ram_bytes (is_some m.accelerator) id r'
      → m'.telemetry.resident_ram_bytes + ram_size r ≡ m.telemetry.resident_ram_bytes + ram_size r'
      → m'.telemetry.resident_accelerator_bytes + accel_size r
        ≡ m.telemetry.resident_accelerator_bytes + accel_size r'
      → m'.telemetry.resident_ram_bytes ≤ m'.budget.ram_bytes
      → IsValid m'
  store-IsValid m m' id r r' v s found written ok ram accel within = record {
    distinct = rw written (put-Distinct _ r' m.records v.distinct);
    sound = rw (written, s.budget, s.device) (Each-put _ _ r' m.records v.sound ok);
    ram_counted =
        rw written (omega (arith, v.ram_counted, total-put_old ram_size _ r' r m.records found));
    accel_counted =
        rw written
          (omega (arith, v.accel_counted, total-put_old accel_size _ r' r m.records found));
    within = within;
  }

  pub SameSetup-refl : (m : Manager dev) → SameSetup m m
  SameSetup-refl m = record { budget = refl; device = refl }

  pub SameSetup-trans :
      {m m' m'' : Manager dev} → SameSetup m m' → SameSetup m' m'' → SameSetup m m''
  SameSetup-trans s t = record { budget = t.budget ∙ s.budget; device = t.device ∙ s.device }

  -- The counters after a stored record is dropped.
  drop_record-counts :
      (m : Manager dev) (id : ℕ) (r : Record)
      → IsValid m
      → lookup id m.records ≡ some r
      → SameSetup m (drop_record dev m id r)
        × ((drop_record dev m id r).records ≡ erase id m.records)
        × ((drop_record dev m id r).telemetry.resident_ram_bytes + ram_size r
            ≡ m.telemetry.resident_ram_bytes)
        × ((drop_record dev m id r).telemetry.resident_accelerator_bytes + accel_size r
            ≡ m.telemetry.resident_accelerator_bytes)
  unfolding drop_record free_accel free_ram
  drop_record-counts m id r v found =
      let ok = Each-lookup _ id r m.records v.sound found in
      let a = total-get accel_size id r m.records found in
      let b = total-get ram_size id r m.records found in
      (
        record { budget = ground arith; device = ground arith },
        ground arith,
        ground (arith, ok.on_device, v.ram_counted, b),
        ground (arith, ok.on_device, v.accel_counted, a),
      )

  drop_record-IsValid :
      (m : Manager dev) (id : ℕ) (r : Record)
      → IsValid m
      → lookup id m.records ≡ some r
      → IsValid (drop_record dev m id r)
  drop_record-IsValid m id r v found =
      let (s, e, ram, accel) = drop_record-counts m id r v found in
      record {
        distinct = rw e (erase-Distinct id m.records v.distinct);
        sound = rw (e, s.budget, s.device) (Each-erase _ id m.records v.sound);
        ram_counted =
            rw e (omega (arith, ram, v.ram_counted, total-erase ram_size id r m.records found));
        accel_counted =
            rw e
              (omega (arith, accel, v.accel_counted, total-erase accel_size id r m.records found));
        within = omega (arith, ram, v.within, ap (λ (b : Budget). b.ram_bytes) s.budget);
      }

  -- Records that are busy, or that an operation leaves alone, stay as they are.
  abbrev pub Keeps : (ℕ → Record → Type 0) → Manager dev → Manager dev → Type 0
  Keeps P m m' =
      (j : ℕ) (r : Record) → P j r → lookup j m.records ≡ some r → lookup j m'.records ≡ some r

  pub record Evicts (m : Manager dev) (id : ℕ) (out : Bool × Manager dev) : Type 0 where
    pub valid : IsValid out.1
    pub setup : SameSetup m out.1
    pub others : Keeps (λ j r. (j == id) ≡ false) m out.1
    pub busy_kept : Keeps (λ j r. busy r ≡ true) m out.1
    pub gone : out.0 ≡ true → lookup id out.1.records ≡ none
    pub smaller :
        (r : Record)
        → lookup id m.records ≡ some r
        → busy r ≡ false
        → (out.0 ≡ true) × (suc (length out.1.records) ≡ length m.records)

  -- On a valid manager, evict_locked leaves a valid manager with the same budget and device,
  -- changes no other record and no busy one, removes the record where it returns true, and returns
  -- true for every stored record that is not busy, which leaves one record less.
  pub evict_locked-Evicts :
      (m : Manager dev) (id : ℕ) → IsValid m → Evicts m id (evict_locked dev m id)
  unfolding evict_locked
  evict_locked-Evicts m id v = elim (Option-cases (lookup id m.records)) [
    | inl e ↦
        rw (e, evict_locked)
          (record {
            valid = v;
            setup = SameSetup-refl m;
            others = λ j r h f. f;
            busy_kept = λ j r h f. f;
            gone = λ h. e;
            smaller = λ r f b. ground (arith, e, f);
          })
    | inr (r, e) ↦ elim (Bool-cases (busy r)) [
      | inl b ↦
          rw (e, evict_locked, b)
            (record {
              valid = v;
              setup = SameSetup-refl m;
              others = λ j r' h f. f;
              busy_kept = λ j r' h f. f;
              gone = λ h. cc;
              smaller = λ r' f b'. ground (arith, e, f, b, b');
            })
      | inr b ↦
          let (s, same, _, _) = drop_record-counts m id r v e in
          rw (e, evict_locked, b)
            (record {
              valid = drop_record-IsValid m id r v e;
              setup = s;
              others = λ j r' h f. rw same (ground (arith, lookup-erase id j m.records v.distinct));
              busy_kept = λ j r' h f.
                  rw same (ground (arith, ==→≡ id j, lookup-erase id j m.records v.distinct));
              gone = λ h. rw same (ground (arith, lookup-erase id id m.records v.distinct));
              smaller = λ r' f b'. (refl, rw same (length-erase id r m.records e));
            })
    ]
  ]
