-- ===== src/Residency/Methods/AccelRoom.antt =====
-- `makeAccelRoomLocked`: the loop ends within its fuel; a victim keeps its RAM buffer, and neither
-- a busy record nor the one that room is made for loses anything.
use hetero_accel.Base.{
  ℕ, zero, suc, ◌≤◌, ◌<◌, ◌≡◌, refl, inl, inr, Bool, true, false, none, some, arith, ltb, ◌==◌,
  if◌then◌else◌, is_some, ==→≡, Bool-cases, Option-cases, length,
}
use hetero_accel.Base.Map.{total, total-put_old, total-get, total-le-length, Each-lookup}
use hetero_accel.Residency.Types.{
  resident_in_ram, Target, accelerator_budget_exhausted, AcceleratorMemory, Record, Manager,
}
use hetero_accel.Residency.{in_ram, busy, pick_lru, fail, store, free_accel, or_stop}
use hetero_accel.Residency.Methods.{demote, accel_room_loop, make_accel_room}
use hetero_accel.Residency.Victim.{eligible-idle, eligible-reached, pick_lru-stored}
use hetero_accel.Residency.Inv.{
  IsValid, accel_size, SameSetup, SameSetup-refl, SameSetup-trans, Keeps,
}
use hetero_accel.Residency.Room.{fail-IsValid}
use hetero_accel.Residency.Load.{IsHeld, IsHeld-IsSound, IsUpdate, update-IsHeld, update-others}

-- One for a record with a device buffer.
abbrev holds_device : Record → ℕ
holds_device r = if is_some r.accel then 1 else 0

module _ (dev : AcceleratorMemory) where
  pub record MakesAccelRoom (m : Manager dev) (needed skip : ℕ) (out : Bool × Manager dev)
      : Type 0 where
    pub valid : IsValid dev out.1
    pub setup : SameSetup dev m out.1
    pub skipped : Keeps dev (λ j r. (j == skip) ≡ true) m out.1
    pub busy_kept : Keeps dev (λ j r. busy r ≡ true) m out.1
    pub room :
        out.0 ≡ true → (d : dev.State) → out.1.accelerator ≡ some d → needed ≤ dev.available d

  demoted : Record → Record
  demoted r = record r { accel = none; state = resident_in_ram }

  demote-IsUpdate :
      (m : Manager dev) (r : Record)
      → IsHeld dev m r
      → in_ram r.state ≡ true
      → IsUpdate dev m (demote dev m r) r (demoted r)
  unfolding demote free_accel store demoted
  demote-IsUpdate m r h on =
      let ok = IsHeld-IsSound dev h in
      let a = total-get accel_size r.region.id r m.records h.stored in
      record {
        setup = record { budget = ground arith; device = ground arith };
        written = ground arith;
        region = refl;
        sound = record {
          key = refl;
          shape = ground (arith, ok.shape);
          idle = ok.idle;
          on_device = refl;
          fits = ok.fits;
        };
        ram = ground arith;
        accel = ground (arith, ok.on_device, h.valid.accel_counted, a);
        within = ground (arith, h.valid.within);
      }

  Demote-step :
      (m : Manager dev) (needed skip id : ℕ) (r : Record) (out : Bool × Manager dev)
      → (r.region.id == skip) ≡ false
      → busy r ≡ false
      → IsHeld dev m r
      → IsUpdate dev m (demote dev m r) r (demoted r)
      → MakesAccelRoom (demote dev m r) needed skip out
      → MakesAccelRoom m needed skip out
  Demote-step m needed skip id r out away idle h u k = record {
    valid = k.valid;
    setup = SameSetup-trans dev u.setup k.setup;
    skipped = λ j x p f. k.skipped j x p (update-others dev u j x (ground (arith, ==→≡ j skip)) f);
    busy_kept = λ j x p f.
        k.busy_kept j x p
          (update-others dev u j x (ground (arith, ==→≡ j r.region.id, h.stored, f, p, idle)) f);
    room = k.room;
  }

  unchanged :
      (ok : Bool) (m : Manager dev) (needed skip : ℕ)
      → IsValid dev m
      → (ok ≡ true → (d : dev.State) → m.accelerator ≡ some d → needed ≤ dev.available d)
      → MakesAccelRoom m needed skip (ok, m)
  unchanged ok m needed skip v room = record {
    valid = v;
    setup = SameSetup-refl dev m;
    skipped = λ j x p f. f;
    busy_kept = λ j x p f. f;
    room = room;
  }

  refused :
      (m : Manager dev) (needed skip : ℕ)
      → IsValid dev m
      → MakesAccelRoom m needed skip (false, fail dev m accelerator_budget_exhausted)
  refused m needed skip v = record {
    valid = fail-IsValid dev m _ v;
    setup = record { budget = refl; device = refl };
    skipped = λ j x p f. f;
    busy_kept = λ j x p f. f;
    room = λ x. cc;
  }

  -- A demotion leaves one record less with a device buffer.
  fewer :
      {n : ℕ} (m : Manager dev) (r : Record)
      → IsHeld dev m r
      → IsUpdate dev m (demote dev m r) r (demoted r)
      → is_some r.accel ≡ true
      → total holds_device m.records < suc n
      → total holds_device (demote dev m r).records < n
  unfolding demoted
  fewer m r h u there lt = rw u.written (
      ground
        (arith, there, total-put_old holds_device r.region.id (demoted r) r m.records h.stored))

  accel_room_loop-MakesAccelRoom :
      (fuel : ℕ) (m : Manager dev) (needed skip now : ℕ)
      → total holds_device m.records < fuel
      → IsValid dev m
      → (out : Bool × Manager dev) × (accel_room_loop dev fuel m needed skip now ≡ some out)
        × MakesAccelRoom m needed skip out
  unfolding accel_room_loop
  accel_room_loop-MakesAccelRoom zero m needed skip now h v = absurd (omega arith)
  accel_room_loop-MakesAccelRoom (suc fuel) m needed skip now h v =
      elim (Option-cases m.accelerator) [
        | inl no_device ↦ (
          (true, m),
          ground (arith, no_device),
          unchanged true m needed skip v (λ x d e. ground (arith, e, no_device)),
        )
        | inr (d, device) ↦ elim (Bool-cases (ltb (dev.available d) needed)) [
          | inr enough ↦ (
            (true, m),
            ground (arith, device, enough),
            unchanged true m needed skip v (λ x d' e. ground (arith, e, device, enough)),
          )
          | inl more ↦ elim (Bool-cases (pick_lru Target.accelerator skip m.records now == 0)) [
            | inl nobody ↦ (
              (false, fail dev m accelerator_budget_exhausted),
              ground (arith, device, more, nobody),
              refused m needed skip v,
            )
            | inr victim ↦
                let id = pick_lru Target.accelerator skip m.records now in
                let (r, found, allowed) =
                  pick_lru-stored Target.accelerator skip m.records now v.distinct victim in
                let ok = Each-lookup _ id r m.records v.sound found in
                let (away, idle) = eligible-idle Target.accelerator skip id r allowed in
                let there = eligible-reached Target.accelerator skip id r allowed in
                let h' : IsHeld dev m r = record { valid = v; stored = rw (← ok.key) found } in
                let u = demote-IsUpdate m r h' (ground (arith, there)) in
                let u' = update-IsHeld dev h' u in
                let (out, ran, makes) =
                  accel_room_loop-MakesAccelRoom fuel (demote dev m r) needed skip now
                    (fewer m r h' u (ground (arith, there, ok.shape)) (omega arith)) u'.valid in
                (
                  out,
                  ground (arith, device, more, victim, found, there, ok.shape, ran),
                  Demote-step m needed skip id r out (ground (arith, away, ok.key)) idle h' u makes,
                )
          ]
        ]
      ]

  pub make_accel_room-MakesAccelRoom :
      (m : Manager dev) (needed skip now : ℕ)
      → IsValid dev m
      → MakesAccelRoom m needed skip (make_accel_room dev m needed skip now)
  unfolding make_accel_room
  make_accel_room-MakesAccelRoom m needed skip now v =
      let enough = total-le-length holds_device (λ r. ground arith) m.records in
      let (out, ran, makes) =
        accel_room_loop-MakesAccelRoom (suc (length m.records)) m needed skip now
          (omega (arith, enough)) v in
      rw (ran, or_stop) makes
