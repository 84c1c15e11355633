-- ===== src/Residency/Methods/Upload.antt =====
-- `uploadLocked`: an upload that fails leaves the region in RAM with its buffer; one that succeeds
-- leaves it on the accelerator, and its RAM buffer in place.
use hetero_accel.Base.{
  ℕ, ◌≤◌, ◌≡◌, refl, sym, ◌⊎◌, inl, inr, Bool, true, false, not, ◌&&◌, none, some, List, [], ◌∷◌,
  arith, is_some, ==_self, Bool-cases, Option-cases,
}
use hetero_accel.Base.Map.{Map, Each, total}
use hetero_accel.Residency.Types.{
  loading_to_accelerator, resident_in_accelerator, cancelled_before_upload, accelerator_unavailable,
  AcceleratorMemory, Record, Manager, World,
}
use hetero_accel.Residency.{in_ram, in_accelerator, fail, count_failure, store}
use hetero_accel.Residency.Methods.{
  make_accel_room, upload_failed, uploaded, copy_to_device, upload,
}
use hetero_accel.Residency.Methods.AccelRoom.{MakesAccelRoom, make_accel_room-MakesAccelRoom}
use hetero_accel.Residency.Inv.{IsSound, ram_size, accel_size}
use hetero_accel.Residency.Load.{
  IsHeld, IsHeld-IsSound, Transfers, Prepares, update-Transfers, prepared-Transfers,
  prepare-Transfers, noted-Prepares,
}

module _ (dev : AcceleratorMemory) where
  abbrev pub Uploads : Bool × Record × Manager dev → Type 0
  Uploads out = out.0 ≡ true → out.1.state ≡ resident_in_accelerator

  abbrev room_of : Manager dev → Record → World → Bool × Manager dev
  room_of m r w = make_accel_room dev m r.region.size r.region.id w.now

  -- The device is there and available, nothing is cancelled, and room is made.
  abbrev pub is_tried : Manager dev → Record → World → Bool
  is_tried m r w = elim m.accelerator [
    | none ↦ false
    | some d ↦ dev.is_available d && not w.cancel_before_upload && (room_of m r w).0
  ]

  abbrev at_pointer : Record → dev.State → List ℕ → ℕ → Bool × dev.State
  at_pointer r d bytes ptr = dev.upload (dev.allocate d r.region.size).1 bytes ptr r.region.size

  -- A copy of the bytes that failed or succeeded on the device `d`: without a pointer nothing else
  -- is done, a pointer whose copy fails is given back, and one whose copy succeeds is the record's.
  abbrev pub Attempt : Record → dev.State → List ℕ → Bool × Record × Manager dev → Type 0
  Attempt r d bytes out =
      (((dev.allocate d r.region.size).0 ≡ none)
        × (out.0 ≡ false)
        × (out.1.accel ≡ r.accel)
        × (out.2.accelerator ≡ some (dev.allocate d r.region.size).1))
      ⊎ ((ptr : ℕ) × ((dev.allocate d r.region.size).0 ≡ some ptr)
          × ((((at_pointer r d bytes ptr).0 ≡ false)
                × (out.0 ≡ false)
                × (out.1.accel ≡ r.accel)
                × (out.2.accelerator ≡ some (dev.release (at_pointer r d bytes ptr).1 ptr)))
              ⊎ (((at_pointer r d bytes ptr).0 ≡ true)
                  × (out.0 ≡ true)
                  × (out.1.accel ≡ some ptr)
                  × (out.2.accelerator ≡ some (at_pointer r d bytes ptr).1))))

  -- What is asked of the device: nothing, or one copy of the RAM buffer.
  abbrev pub Copies : Manager dev → Record → World → Bool × Record × Manager dev → Type 0
  Copies m r w out =
      ((is_tried m r w ≡ false) × (out.0 ≡ false) × (out.1 ≡ r))
      ⊎ ((is_tried m r w ≡ true)
          × ((d : dev.State) × (bytes : List ℕ) × ((room_of m r w).1.accelerator ≡ some d)
              × (r.ram ≡ some bytes)
              × Attempt r d bytes out))

  -- Between the two halves of an upload the record is `r`, marked as in transfer.
  abbrev marked : Record → Record
  marked r = record r { state = loading_to_accelerator; transferring = true }

  total_accel-le :
      (b : ℕ) (d : Bool) (m : Map Record)
      → Each (IsSound b d) m
      → total accel_size m ≤ total ram_size m
  unfolding total
  total_accel-le b d [] e = omega arith
  total_accel-le b d ((k, r) ∷ m) e = ground (arith, e.0.shape, total_accel-le b d m e.1)

  upload_failed-Transfers :
      (m : Manager dev) (r : Record) (d : dev.State)
      → IsHeld dev m r
      → is_some m.accelerator ≡ true
      → in_ram r.state ≡ true
      → in_accelerator r.state ≡ false
      → let out = upload_failed dev (record m { accelerator = some d }) (marked r) in
        Transfers dev m r out × Uploads out
  unfolding upload_failed store
  upload_failed-Transfers m r d h device on off =
      let ok = IsHeld-IsSound dev h in
      (
        update-Transfers dev false h
            (record {
              setup = record { budget = refl; device = sym device };
              written = refl;
              region = refl;
              sound = record {
                key = refl;
                shape = ground (arith, ok.shape);
                idle = refl;
                on_device = ok.on_device;
                fits = ok.fits;
              };
              ram = refl;
              accel = refl;
              within = h.valid.within;
            })
            refl (λ x. (refl, refl)),
        λ x. cc,
      )

  uploaded-Transfers :
      (m : Manager dev) (r : Record) (d : dev.State) (ptr : ℕ)
      → IsHeld dev m r
      → is_some m.accelerator ≡ true
      → in_ram r.state ≡ true
      → in_accelerator r.state ≡ false
      → let out = uploaded dev (record m { accelerator = some d }) (marked r) ptr in
        Transfers dev m r out × Uploads out
  unfolding uploaded store
  uploaded-Transfers m r d ptr h device on off =
      let ok = IsHeld-IsSound dev h in
      let below = total_accel-le _ _ m.records h.valid.sound in
      (
        update-Transfers dev true h
            (record {
              setup = record { budget = refl; device = sym device };
              written = refl;
              region = refl;
              sound = record {
                key = refl;
                shape = ground (arith, ok.shape);
                idle = refl;
                on_device = ground (arith, device);
                fits = ok.fits;
              };
              ram = refl;
              accel = ground (
                arith, ok.shape, ok.fits, below, h.valid.ram_counted, h.valid.accel_counted,
                h.valid.within,
              );
              within = h.valid.within;
            })
            refl (λ x. (refl, refl)),
        λ x. refl,
      )

  copy_to_device-Transfers :
      (m : Manager dev) (r : Record) (d : dev.State) (bytes : List ℕ)
      → IsHeld dev m r
      → is_some m.accelerator ≡ true
      → in_ram r.state ≡ true
      → in_accelerator r.state ≡ false
      → let out = copy_to_device dev m (marked r) d bytes in Transfers dev m r out × Uploads out
  unfolding copy_to_device
  copy_to_device-Transfers m r d bytes h device on off =
      elim (Option-cases (dev.allocate d r.region.size).0) [
        | inl full ↦ rw (full, copy_to_device) (upload_failed-Transfers m r _ h device on off)
        | inr (ptr, place) ↦
            elim (Bool-cases
              (dev.upload (dev.allocate d r.region.size).1 bytes ptr r.region.size).0) [
                | inr broken ↦
                    rw (place, copy_to_device, broken)
                      (upload_failed-Transfers m r _ h device on off)
                | inl copied ↦
                    rw (place, copy_to_device, copied)
                      (uploaded-Transfers m r _ ptr h device on off)
              ]
      ]

  copy_to_device-Attempt :
      (m : Manager dev) (r : Record) (d : dev.State) (bytes : List ℕ)
      → Attempt r d bytes (copy_to_device dev m (marked r) d bytes)
  unfolding copy_to_device upload_failed uploaded
  copy_to_device-Attempt m r d bytes = elim (Option-cases (dev.allocate d r.region.size).0) [
    | inl full ↦ inl (full, ground (arith, full), ground (arith, full), ground (arith, full))
    | inr (ptr, place) ↦ inr (
      ptr,
      place,
      elim (Bool-cases (at_pointer r d bytes ptr).0) [
        | inr broken ↦ inl (
          broken,
          ground (arith, place, broken),
          ground (arith, place, broken),
          ground (arith, place, broken),
        )
        | inl copied ↦ inr (
          copied,
          ground (arith, place, copied),
          ground (arith, place, copied),
          ground (arith, place, copied),
        )
      ],
    )
  ]

  abbrev unavailable : Manager dev → Manager dev
  unavailable m = count_failure dev (fail dev m accelerator_unavailable)

  quits :
      {m : Manager dev} {r : Record} (w : World) (m' : Manager dev)
      → is_tried m r w ≡ false
      → Prepares dev m r m'
      → Transfers dev m r (false, r, m') × Uploads (false, r, m') × Copies m r w (false, r, m')
  quits w m' no_try p = (prepared-Transfers dev false p, λ x. cc, inl (no_try, refl, refl))

  room-Prepares :
      (m : Manager dev) (r : Record) (out : Bool × Manager dev)
      → IsHeld dev m r
      → MakesAccelRoom dev m r.region.size r.region.id out
      → Prepares dev m r out.1
  room-Prepares m r out h k = record {
    held = record {
      valid = k.valid;
      stored = k.skipped r.region.id r (==_self r.region.id) h.stored;
    };
    setup = k.setup;
    busy_kept = λ j x p f. k.busy_kept j x p.1 f;
  }

  -- The part of an upload behind its guards.
  upload_go :
      (m : Manager dev) (r : Record) (w : World) (d : dev.State) (bytes : List ℕ)
      → IsHeld dev m r
      → in_ram r.state ≡ true
      → in_accelerator r.state ≡ false
      → m.accelerator ≡ some d
      → dev.is_available d ≡ true
      → r.ram ≡ some bytes
      → w.cancel_before_upload ≡ false
      → let out = upload dev m r w in Transfers dev m r out × Uploads out × Copies m r w out
  unfolding upload
  upload_go m r w d bytes h on off device up e go =
      let room = room_of m r w in
      let k = make_accel_room-MakesAccelRoom dev m r.region.size r.region.id w.now h.valid in
      let p = room-Prepares m r room h k in
      elim (Bool-cases room.0) [
        | inr full ↦
            let e' : upload dev m r w ≡ (false, r, room.1) =
              ground (arith, device, up, e, go, full) in
            let no_try : is_tried m r w ≡ false = ground (arith, device, full) in
            rw e' (quits w room.1 no_try p)
        | inl free ↦ elim (Option-cases room.1.accelerator) [
          | inl lost ↦ absurd (ground (arith, device, lost, k.setup.device))
          | inr (d', device') ↦
              let e' : upload dev m r w ≡ copy_to_device dev room.1 (marked r) d' bytes =
                ground (arith, device, up, e, go, free, device') in
              let (t, u) =
                copy_to_device-Transfers room.1 r d' bytes p.held (ground (arith, device')) on
                  off in
              let tries : is_tried m r w ≡ true = ground (arith, device, up, go, free) in
              rw e' (
                prepare-Transfers dev p t,
                u,
                inr (tries, (d', bytes, device', e, copy_to_device-Attempt room.1 r d' bytes)),
              )
        ]
      ]

  -- For a record held in a valid manager, in RAM and not on the accelerator, upload leaves the
  -- manager valid and the record held with its RAM buffer and in RAM, also where the device is
  -- missing, full, or fails the copy. If a device is there and available, the call is not cancelled
  -- and room can be made, then one copy of the RAM buffer is tried, and upload returns true exactly
  -- if the device has a pointer for it and copies; then the record holds the pointer and is resident
  -- on the accelerator. If the copy fails, the pointer is given back to the device and the record's
  -- device pointer is as before. In all other cases upload returns false with the record unchanged.
  pub upload-Transfers :
      (m : Manager dev) (r : Record) (w : World)
      → IsHeld dev m r
      → in_ram r.state ≡ true
      → in_accelerator r.state ≡ false
      → let out = upload dev m r w in Transfers dev m r out × Uploads out × Copies m r w out
  unfolding upload
  upload-Transfers m r w h on off = elim (Option-cases m.accelerator) [
    | inl gone ↦
        let e : upload dev m r w ≡ (false, r, unavailable m) = ground (arith, gone) in
        let no_try : is_tried m r w ≡ false = ground (arith, gone) in
        rw e (quits w (unavailable m) no_try (noted-Prepares dev m _ r h refl refl refl refl refl))
    | inr (d, device) ↦ elim (Bool-cases (dev.is_available d)) [
      | inr down ↦
          let e : upload dev m r w ≡ (false, r, unavailable m) = ground (arith, device, down) in
          let no_try : is_tried m r w ≡ false = ground (arith, device, down) in
          rw e
            (quits w (unavailable m) no_try (noted-Prepares dev m _ r h refl refl refl refl refl))
      | inl up ↦ elim (Option-cases r.ram) [
        | inl empty ↦ absurd (ground (arith, empty, (IsHeld-IsSound dev h).shape))
        | inr (bytes, e) ↦ elim (Bool-cases w.cancel_before_upload) [
          | inl stop ↦
              let cancelled : Manager dev = fail dev m cancelled_before_upload in
              let e' : upload dev m r w ≡ (false, r, cancelled) =
                ground (arith, device, up, e, stop) in
              let no_try : is_tried m r w ≡ false = ground (arith, device, stop) in
              rw e' (quits w cancelled no_try (noted-Prepares dev m _ r h refl refl refl refl refl))
          | inr go ↦ upload_go m r w d bytes h on off device up e go
        ]
      ]
    ]
  ]
