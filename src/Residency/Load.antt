-- ===== src/Residency/Load.antt =====
-- `loadToRamLocked`: a load that fails leaves a valid state and an honest record; a load that
-- succeeds leaves the source's bytes in the record, within the RAM budget.
use hetero_accel.Base.{
  ℕ, ◌+◌, ◌≤◌, ◌≡◌, refl, sym, ap, subst, inl, inr, Bool, true, false, some, List, arith, ◌==◌,
  is_some, ==→≡, ==_self, Bool-cases, Option-cases,
}
use hetero_accel.Base.Map.{lookup, put, lookup-put, Each-lookup}
use hetero_accel.Residency.Types.{
  Region, loading_to_ram, resident_in_ram, LastError, AcceleratorMemory, Record, Manager, World,
}
use hetero_accel.Residency.{
  in_ram, busy, store, make_ram_room, loaded, load_failed, read_source, load_to_ram,
}
use hetero_accel.Residency.Inv.{
  IsSound, IsValid, ram_size, accel_size, SameSetup, SameSetup-trans, Keeps, store-IsValid,
}
use hetero_accel.Residency.Room.{MakesRoom, make_ram_room-MakesRoom}

module _ (dev : AcceleratorMemory) where
  -- The record `r` is stored under its region's id, in a valid state.
  pub record IsHeld (m : Manager dev) (r : Record) : Type 0 where
    pub valid : IsValid dev m
    pub stored : lookup r.region.id m.records ≡ some r

  -- A transfer of the held record `r`: it is still held, with its region, pins and RAM bytes, and
  -- no other busy record has changed.
  pub record Transfers (m : Manager dev) (r : Record) (out : Bool × Record × Manager dev)
      : Type 0 where
    pub held : IsHeld out.2 out.1
    pub setup : SameSetup dev m out.2
    pub region : out.1.region ≡ r.region
    pub pins : out.1.pins ≡ r.pins
    pub ram_kept : in_ram r.state ≡ true → (out.1.ram ≡ r.ram) × (in_ram out.1.state ≡ true)
    pub busy_kept : Keeps dev (λ j x. ((j == r.region.id) ≡ false) × (busy x ≡ true)) m out.2

  pub IsHeld-IsSound :
      {m : Manager dev} {r : Record}
      → IsHeld m r
      → IsSound m.budget.ram_bytes (is_some m.accelerator) r.region.id r
  IsHeld-IsSound {m} {r} h = Each-lookup _ r.region.id r m.records h.valid.sound h.stored

  -- A new value `r'` of the held record, and what it must satisfy to be written back.
  pub record IsUpdate (m m' : Manager dev) (r r' : Record) : Type 0 where
    pub setup : SameSetup dev m m'
    pub written : m'.records ≡ put r.region.id r' m.records
    pub region : r'.region ≡ r.region
    pub sound : IsSound m.budget.ram_bytes (is_some m.accelerator) r.region.id r'
    pub ram :
        m'.telemetry.resident_ram_bytes + ram_size r ≡ m.telemetry.resident_ram_bytes + ram_size r'
    pub accel :
        m'.telemetry.resident_accelerator_bytes + accel_size r
        ≡ m.telemetry.resident_accelerator_bytes + accel_size r'
    pub within : m'.telemetry.resident_ram_bytes ≤ m'.budget.ram_bytes

  pub update-IsHeld :
      {m m' : Manager dev} {r r' : Record} → IsHeld m r → IsUpdate m m' r r' → IsHeld m' r'
  update-IsHeld {m} {m'} {r} {r'} h u =
      let id : r'.region.id ≡ r.region.id = ap (λ (x : Region). x.id) u.region in
      record {
        valid =
            store-IsValid dev m m' r.region.id r r' h.valid u.setup h.stored u.written u.sound u.ram
              u.accel u.within;
        stored =
            subst (λ k. lookup k m'.records ≡ some r') (sym id)
              (rw (u.written, lookup-put) (ground arith));
      }

  -- Only the held record changes.
  pub update-others :
      {m m' : Manager dev} {r r' : Record}
      → IsUpdate m m' r r'
      → Keeps dev (λ j x. (j == r.region.id) ≡ false) m m'
  update-others {m} {m'} {r} {r'} u j x p f =
      rw (u.written, lookup-put) (ground (arith, ==→≡ r.region.id j))

  pub update-Transfers :
      {m m' : Manager dev} {r r' : Record} (ok : Bool)
      → IsHeld m r
      → IsUpdate m m' r r'
      → r'.pins ≡ r.pins
      → (in_ram r.state ≡ true → (r'.ram ≡ r.ram) × (in_ram r'.state ≡ true))
      → Transfers m r (ok, r', m')
  update-Transfers ok h u pins kept = record {
    held = update-IsHeld h u;
    setup = u.setup;
    region = u.region;
    pins = pins;
    ram_kept = kept;
    busy_kept = λ j x p f. update-others u j x p.0 f;
  }

  load_failed-Transfers :
      (m : Manager dev) (r : Record) (e : LastError)
      → IsHeld m r
      → in_ram r.state ≡ false
      → Transfers m r
          (load_failed dev m (record r { state = loading_to_ram; transferring = true }) e)
  unfolding load_failed store
  load_failed-Transfers m r e h off =
      let ok = IsHeld-IsSound h in
      update-Transfers false h
        (record {
          setup = record { budget = refl; device = refl };
          written = refl;
          region = refl;
          sound = record {
            key = refl;
            shape = ground (arith, ok.shape);
            idle = refl;
            on_device = ok.on_device;
            fits = ok.fits;
          };
          ram = refl;
          accel = refl;
          within = h.valid.within;
        })
        refl (λ x. ground (arith, off, x))

  -- A successful read stores the source's bytes.
  abbrev pub Loads : Record → World → Bool × Record × Manager dev → Type 0
  Loads r w out =
      out.0 ≡ true
      → (out.1.state ≡ resident_in_ram)
        × (out.1.ram ≡ w.read r.region.offset r.region.size)
        × (is_some out.1.ram ≡ true)

  loaded-IsUpdate :
      (m : Manager dev) (r : Record) (bytes : List ℕ)
      → IsHeld m r
      → in_ram r.state ≡ false
      → m.telemetry.resident_ram_bytes + r.region.size ≤ m.budget.ram_bytes
      → let done = loaded dev m (record r { state = loading_to_ram; transferring = true }) bytes in
        IsUpdate m (store dev done.0 done.1) r done.0
  unfolding loaded store
  loaded-IsUpdate m r bytes h off room =
      let ok = IsHeld-IsSound h in
      record {
        setup = record { budget = refl; device = refl };
        written = refl;
        region = refl;
        sound = record {
          key = refl;
          shape = ground (arith, ok.shape);
          idle = refl;
          on_device = ok.on_device;
          fits = ok.fits;
        };
        ram = ground (arith, ok.shape, ok.fits);
        accel = refl;
        within = ground (arith, ok.fits);
      }

  read_source-Transfers :
      (m : Manager dev) (r : Record) (w : World)
      → IsHeld m r
      → in_ram r.state ≡ false
      → m.telemetry.resident_ram_bytes + r.region.size ≤ m.budget.ram_bytes
      → let out = read_source dev m (record r { state = loading_to_ram; transferring = true }) w in
        Transfers m r out × Loads r w out
  unfolding read_source load_failed loaded
  read_source-Transfers m r w h off room = elim (Bool-cases w.host_allocates) [
    | inr no_memory ↦ rw (no_memory, read_source) (load_failed-Transfers m r _ h off, λ x. cc)
    | inl memory ↦ elim (Option-cases (w.read r.region.offset r.region.size)) [
      | inl no_data ↦ rw (memory, read_source, no_data) (load_failed-Transfers m r _ h off, λ x. cc)
      | inr (bytes, e) ↦
          rw (memory, read_source, e)
            (
              update-Transfers true h (loaded-IsUpdate m r bytes h off room) refl
                  (λ x. ground (arith, off, x)),
              λ x. (refl, refl, refl),
            )
    ]
  ]

  -- What happens before the record itself is touched.
  pub record Prepares (m : Manager dev) (r : Record) (m' : Manager dev) : Type 0 where
    pub held : IsHeld m' r
    pub setup : SameSetup dev m m'
    pub busy_kept : Keeps dev (λ j x. ((j == r.region.id) ≡ false) × (busy x ≡ true)) m m'

  pub prepared-Transfers :
      {m m' : Manager dev} {r : Record} (ok : Bool) → Prepares m r m' → Transfers m r (ok, r, m')
  prepared-Transfers ok p = record {
    held = p.held;
    setup = p.setup;
    region = refl;
    pins = refl;
    ram_kept = λ x. (refl, x);
    busy_kept = p.busy_kept;
  }

  pub prepare-Transfers :
      {m m' : Manager dev} {r : Record} {out : Bool × Record × Manager dev}
      → Prepares m r m'
      → Transfers m' r out
      → Transfers m r out
  prepare-Transfers p t = record {
    held = t.held;
    setup = SameSetup-trans dev p.setup t.setup;
    region = t.region;
    pins = t.pins;
    ram_kept = t.ram_kept;
    busy_kept = λ j x h f. t.busy_kept j x h (p.busy_kept j x h f);
  }

  -- A new error text or failure count changes nothing else.
  pub noted-Prepares :
      (m m' : Manager dev) (r : Record)
      → IsHeld m r
      → m'.records ≡ m.records
      → m'.budget ≡ m.budget
      → m'.accelerator ≡ m.accelerator
      → m'.telemetry.resident_ram_bytes ≡ m.telemetry.resident_ram_bytes
      → m'.telemetry.resident_accelerator_bytes ≡ m.telemetry.resident_accelerator_bytes
      → Prepares m r m'
  noted-Prepares m m' r h same budget device ram accel = record {
    held = record {
      valid = record {
        distinct = rw same h.valid.distinct;
        sound = rw (same, budget, device) h.valid.sound;
        ram_counted = rw (same, ram) h.valid.ram_counted;
        accel_counted = rw (same, accel) h.valid.accel_counted;
        within = rw (ram, budget) h.valid.within;
      };
      stored = rw same h.stored;
    };
    setup = record { budget = budget; device = rw device };
    busy_kept = λ j x p f. rw same f;
  }

  room-Prepares :
      (m : Manager dev) (r : Record) (out : Bool × Manager dev)
      → IsHeld m r
      → MakesRoom dev m r.region.size r.region.id out
      → Prepares m r out.1
  room-Prepares m r out h k = record {
    held = record {
      valid = k.valid;
      stored = k.skipped r.region.id r (==_self r.region.id) h.stored;
    };
    setup = k.setup;
    busy_kept = λ j x p f. k.busy_kept j x p.1 f;
  }

  -- For a record held in a valid manager and not yet in RAM, load_to_ram leaves the manager valid
  -- and the record held under its region with its pins, changes no other busy record, and where it
  -- returns true the record is resident in RAM with exactly what the data source returned for the
  -- region's offset and size.
  pub load_to_ram-Transfers :
      (m : Manager dev) (r : Record) (w : World)
      → IsHeld m r
      → in_ram r.state ≡ false
      → Transfers m r (load_to_ram dev m r w) × Loads r w (load_to_ram dev m r w)
  unfolding load_to_ram
  load_to_ram-Transfers m r w h off = elim (Bool-cases w.cancel_before_ram) [
    | inl stop ↦
        rw (stop, load_to_ram)
          (prepared-Transfers false (noted-Prepares m _ r h refl refl refl refl refl), λ x. cc)
    | inr go ↦
        let room = make_ram_room dev m r.region.size r.region.id w.now in
        let k =
          make_ram_room-MakesRoom dev m r.region.size r.region.id w.now (IsHeld-IsSound h).fits
            h.valid in
        let p = room-Prepares m r room h k in
        elim (Bool-cases room.0) [
          | inr full ↦ rw (go, load_to_ram, full) (prepared-Transfers false p, λ x. cc)
          | inl free ↦
              let (t, l) =
                read_source-Transfers room.1 r w p.held off (rw k.setup.budget (k.room free)) in
              rw (go, load_to_ram, free) (prepare-Transfers p t, l)
        ]
  ]
