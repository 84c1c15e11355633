-- ===== src/Residency/Room.antt =====
-- `makeRamRoomLocked`: the loop ends within its fuel, keeps the state valid, never evicts a busy
-- record or the one that room is made for, and on success leaves the room asked for.
use hetero_accel.Base.{
  ℕ, zero, suc, ◌+◌, ◌≤◌, ◌<◌, ◌≡◌, refl, inl, inr, Bool, true, false, some, arith, ltb, ◌==◌, ==→≡,
  Bool-cases, length, u64_mod, add64,
}
use hetero_accel.Residency.Types.{
  Target, LastError, ram_budget_exhausted, AcceleratorMemory, Manager,
}
use hetero_accel.Residency.{
  busy, pick_lru, fail, evict_locked, ram_room_loop, or_stop, make_ram_room,
}
use hetero_accel.Residency.Victim.{eligible-idle, pick_lru-stored}
use hetero_accel.Residency.Inv.{
  IsValid, SameSetup, SameSetup-refl, SameSetup-trans, Keeps, Evicts, evict_locked-Evicts,
}

module _ (dev : AcceleratorMemory) where
  pub record MakesRoom (m : Manager dev) (needed skip : ℕ) (out : Bool × Manager dev) : Type 0 where
    pub valid : IsValid dev out.1
    pub setup : SameSetup dev m out.1
    pub skipped : Keeps dev (λ j r. (j == skip) ≡ true) m out.1
    pub busy_kept : Keeps dev (λ j r. busy r ≡ true) m out.1
    pub room : out.0 ≡ true → out.1.telemetry.resident_ram_bytes + needed ≤ m.budget.ram_bytes

  pub fail-IsValid : (m : Manager dev) (e : LastError) → IsValid dev m → IsValid dev (fail dev m e)
  fail-IsValid m e v = record {
    distinct = v.distinct;
    sound = v.sound;
    ram_counted = v.ram_counted;
    accel_counted = v.accel_counted;
    within = v.within;
  }

  Room-step :
      (m : Manager dev) (needed skip id : ℕ) (out : Bool × Manager dev)
      → (id == skip) ≡ false
      → Evicts dev m id (evict_locked dev m id)
      → MakesRoom (evict_locked dev m id).1 needed skip out
      → MakesRoom m needed skip out
  Room-step m needed skip id out away e r = record {
    valid = r.valid;
    setup = SameSetup-trans dev e.setup r.setup;
    skipped = λ j x h f. r.skipped j x h (e.others j x (ground (arith, ==→≡ j skip)) f);
    busy_kept = λ j x h f. r.busy_kept j x h (e.busy_kept j x h f);
    room = λ h. rw (← e.setup.budget) (r.room h);
  }

  -- On a valid manager, with more fuel than there are records and a request that does not wrap the
  -- budget, the loop that makes room in RAM ends with a result: the manager is valid, neither the
  -- skipped record nor a busy one has changed, and true means that the bytes asked for fit into
  -- the budget beside those resident.
  pub ram_room_loop-MakesRoom :
      (fuel : ℕ) (m : Manager dev) (needed skip now : ℕ)
      → length m.records < fuel
      → needed + m.budget.ram_bytes < u64_mod
      → IsValid dev m
      → (out : Bool × Manager dev) × (ram_room_loop dev fuel m needed skip now ≡ some out)
        × MakesRoom m needed skip out
  unfolding ram_room_loop
  ram_room_loop-MakesRoom zero m needed skip now h fits v = absurd (omega arith)
  ram_room_loop-MakesRoom (suc fuel) m needed skip now h fits v =
      elim (Bool-cases (ltb m.budget.ram_bytes (add64 m.telemetry.resident_ram_bytes needed))) [
        | inr enough ↦ (
          (true, m),
          rw (enough, ram_room_loop),
          record {
            valid = v;
            setup = SameSetup-refl dev m;
            skipped = λ j x h f. f;
            busy_kept = λ j x h f. f;
            room = λ _. ground (arith, enough, v.within);
          },
        )
        | inl more ↦ elim (Bool-cases (pick_lru Target.ram skip m.records now == 0)) [
          | inl nobody ↦ (
            (false, fail dev m ram_budget_exhausted),
            rw (more, ram_room_loop, nobody),
            record {
              valid = fail-IsValid m _ v;
              setup = record { budget = refl; device = refl };
              skipped = λ j x h f. f;
              busy_kept = λ j x h f. f;
              room = λ e. cc;
            },
          )
          | inr victim ↦
              let id = pick_lru Target.ram skip m.records now in
              let (r, found, allowed) =
                pick_lru-stored Target.ram skip m.records now v.distinct victim in
              let (away, idle) = eligible-idle Target.ram skip id r allowed in
              let e = evict_locked-Evicts dev m id v in
              let (done, less) = e.smaller r found idle in
              let (out, ran, makes) =
                ram_room_loop-MakesRoom fuel (evict_locked dev m id).1 needed skip now
                  (omega (arith, less)) (rw e.setup.budget fits) e.valid in
              (
                out,
                rw (more, ram_room_loop, victim, done) ran,
                Room-step m needed skip id out away e makes,
              )
        ]
      ]

  pub make_ram_room-MakesRoom :
      (m : Manager dev) (needed skip now : ℕ)
      → needed + m.budget.ram_bytes < u64_mod
      → IsValid dev m
      → MakesRoom m needed skip (make_ram_room dev m needed skip now)
  unfolding make_ram_room
  make_ram_room-MakesRoom m needed skip now fits v =
      let (out, ran, makes) =
        ram_room_loop-MakesRoom (suc (length m.records)) m needed skip now (omega arith) fits v in
      rw (ran, or_stop) makes
