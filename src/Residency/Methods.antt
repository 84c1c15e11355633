-- ===== src/Residency/Methods.antt =====
-- The upload half and the public methods of src/model/ModelResidencyManager.cpp.
pub mod AccelRoom
pub mod Upload
pub mod Bring
pub mod Serves
pub mod Ensure
pub mod Calls
mod Tests
use hetero_accel.Base.{
  ℕ, zero, suc, ◌+◌, ◌-◌, ◌*◌, ◌/◌, ◌%◌, ◌^◌, ◌≤◌, ◌<◌, min, max, ◌≡◌, refl, sym, ap, ◌∙◌, subst,
  ◌≢◌, ◌⊎◌, inl, inr, Bool, true, false, not, ◌&&◌, ◌||◌, Option, none, some, List, [], ◌∷◌, ◌++◌,
  map, arith, ltb, leb, ◌==◌, if◌then◌else◌, is_some, one_if, ==→≡, ==_self, ltb-false, or-false,
  Bool-cases, Option-cases, length, All, length-append, take, take-take, drop, length-take,
  drop-append, take-append, append_assoc, length-drop, u64_mod, u32_mod, is_positive, add64, mul64,
}
use hetero_accel.Base.Map.{
  Map, lookup, put, erase, Distinct, Each, total, lookup-put, lookup-erase, put-Distinct,
  erase-Distinct, total-put_old, total-put_new, total-erase, length-erase, total-get,
  total-le-length, Each-map, Each-lookup, Each-put, Each-erase,
}
use hetero_accel.Residency.Types.{
  Region, ResidencyState, not_resident, resident_in_ram, loading_to_accelerator,
  resident_in_accelerator, Target, Budget, no_error, invalid_region, already_transferring,
  accelerator_unavailable, no_ram_buffer, cancelled_before_upload, device_failed,
  accelerator_budget_exhausted, AcceleratorMemory, Record, Manager, World,
}
use hetero_accel.Residency.{
  in_ram, in_accelerator, reached, pick_lru, fail, count_failure, store, get_or_create, free_accel,
  evict_locked, or_stop, load_to_ram,
}

pub data Call : Type 0 where
  ensures prefetches : Region → Target → World → Call
  pins unpins evicts : ℕ → Call
  sets_prefetch : Bool → Call
  releases : Call

module _ (dev : AcceleratorMemory) where
  -- One victim goes back to RAM.
  pub demote : Manager dev → Record → Manager dev
  unfolding free_accel store
  demote m r =
      let freed = free_accel dev m r in
      let t = freed.telemetry in
      store dev (record r { accel = none; state = resident_in_ram })
        (record freed { telemetry = record t { eviction_count = add64 t.eviction_count 1 } })

  -- The loop of `makeAccelRoomLocked`. A victim without a device buffer would leave the loop as it
  -- was, so that the next round is the same.
  pub accel_room_loop : ℕ → Manager dev → ℕ → ℕ → ℕ → Option (Bool × Manager dev)
  accel_room_loop zero m needed skip now = none
  accel_room_loop (suc fuel) m needed skip now = elim m.accelerator [
    | none ↦ some (true, m)
    | some d ↦ elim (ltb (dev.available d) needed) [
      | false ↦ some (true, m)
      | true ↦ elim (pick_lru Target.accelerator skip m.records now == 0) [
        | true ↦ some (false, fail dev m accelerator_budget_exhausted)
        | false ↦ elim (lookup (pick_lru Target.accelerator skip m.records now) m.records) [
          | none ↦ some (true, m)
          | some r ↦ elim r.accel [
            | none ↦ accel_room_loop fuel m needed skip now
            | some ptr ↦ accel_room_loop fuel (demote m r) needed skip now
          ]
        ]
      ]
    ]
  ]

  pub make_accel_room : Manager dev → ℕ → ℕ → ℕ → Bool × Manager dev
  unfolding accel_room_loop
  make_accel_room m needed skip now =
      or_stop dev m (accel_room_loop (suc (length m.records)) m needed skip now)

  -- Keeps the RAM state honest.
  pub upload_failed : Manager dev → Record → Bool × Record × Manager dev
  unfolding store
  upload_failed m r =
      let kept = record r { state = resident_in_ram; transferring = false } in
      (false, kept, store dev kept (count_failure dev (fail dev m device_failed)))

  pub uploaded : Manager dev → Record → ℕ → Bool × Record × Manager dev
  unfolding store
  uploaded m r ptr =
      let size = r.region.size in
      let t = m.telemetry in
      let resident = add64 t.resident_accelerator_bytes size in
      let r' = record r {
        accel = some ptr;
        state = resident_in_accelerator;
        transferring = false;
      } in
      (
        true,
        r',
        store dev r' (record m {
          telemetry = record t {
            bytes_to_accelerator = add64 t.bytes_to_accelerator size;
            resident_accelerator_bytes = resident;
            peak_accelerator_bytes =
                if ltb t.peak_accelerator_bytes resident
                then resident
                else t.peak_accelerator_bytes;
          };
        }),
      )

  -- Allocation on the device and the copy, with the device `d` and the host bytes.
  pub copy_to_device : Manager dev → Record → dev.State → List ℕ → Bool × Record × Manager dev
  unfolding upload_failed uploaded
  copy_to_device m r d bytes =
      let (place, d') = dev.allocate d r.region.size in
      elim place [
        | none ↦ upload_failed (record m { accelerator = some d' }) r
        | some ptr ↦
            let (copied, d'') = dev.upload d' bytes ptr r.region.size in
            if copied
            then uploaded (record m { accelerator = some d'' }) r ptr
            else upload_failed (record m { accelerator = some (dev.release d'' ptr) }) r
      ]

  pub upload : Manager dev → Record → World → Bool × Record × Manager dev
  unfolding make_accel_room copy_to_device
  upload m r w = elim m.accelerator [
    | none ↦ (false, r, count_failure dev (fail dev m accelerator_unavailable))
    | some d ↦
        if not (dev.is_available d)
        then (false, r, count_failure dev (fail dev m accelerator_unavailable))
        else elim r.ram [
          | none ↦ (false, r, count_failure dev (fail dev m no_ram_buffer))
          | some bytes ↦
              if w.cancel_before_upload
              then (false, r, fail dev m cancelled_before_upload)
              else let (room, m') = make_accel_room m r.region.size r.region.id w.now in
                if not room then (false, r, m') else elim m'.accelerator [
                  | none ↦ (false, r, m')
                  | some d' ↦
                      copy_to_device m'
                        (record r { state = loading_to_accelerator; transferring = true }) d' bytes
                ]
        ]
  ]

  -- Step 1: the region in RAM.
  pub into_ram : Manager dev → Record → World → Bool × Record × Manager dev
  unfolding load_to_ram
  into_ram m r w = if in_ram r.state then (true, r, m) else load_to_ram dev m r w

  -- Step 2: if the accelerator is asked for, the upload.
  pub into_target : Target → World → Bool × Record × Manager dev → Bool × Record × Manager dev
  unfolding upload
  into_target target w (false, r, m) = (false, r, m)
  into_target Target.ram w (true, r, m) = (true, r, m)
  into_target Target.accelerator w (true, r, m) =
      if in_accelerator r.state then (true, r, m) else upload m r w

  -- The two steps that `ensureResident` and `prefetch` share, for a record that is not in transfer.
  pub bring : Manager dev → Record → Target → World → Bool × Record × Manager dev
  unfolding into_ram into_target
  bring m r target w = into_target target w (into_ram m r w)

  pub touched : Record → ℕ → Record
  touched r now = record r { last_used = now }

  pub ensure_resident : Manager dev → Region → Target → World → Bool × Manager dev
  unfolding get_or_create bring store touched
  ensure_resident m region target w =
      if region.size == 0
      then (false, fail dev m invalid_region)
      else let (r, m') = get_or_create dev m region in
        if reached target r.state
        then (true, store dev (touched r w.now) m')
        else if r.transferring
        then (false, fail dev m' already_transferring)
        else let (done, r', m'') = bring m' r target w in
          if done then (true, store dev (touched r' w.now) m'') else (false, m'')

  pub count_hit : Manager dev → Manager dev
  count_hit m = record m {
    telemetry = record (m.telemetry) { prefetch_hits = add64 m.telemetry.prefetch_hits 1 };
  }

  pub count_miss : Manager dev → Manager dev
  count_miss m = record m {
    telemetry = record (m.telemetry) {
      prefetch_misses = add64 m.telemetry.prefetch_misses 1;
      prefetch_count = add64 m.telemetry.prefetch_count 1;
    };
  }

  pub prefetch : Manager dev → Region → Target → World → Bool × Manager dev
  unfolding get_or_create bring store touched count_hit count_miss
  prefetch m region target w =
      if not m.prefetch_enabled || (region.size == 0)
      then (false, m)
      else let (r, m') = get_or_create dev m region in
        if reached target r.state
        then (true, count_hit m')
        else if r.transferring
        then (false, count_miss m')
        else let (done, r', m'') = bring (count_miss m') r target w in
          if done
          then (true, store dev (record (touched r' w.now) { prefetched = true }) m'')
          else (false, m'')

  pub set_prefetch_enabled : Bool → Manager dev → Manager dev
  set_prefetch_enabled enabled m = record m { prefetch_enabled = enabled }

  -- The increment wraps at 32 bits.
  pub pin : Manager dev → ℕ → Manager dev
  unfolding store
  pin m id = elim (lookup id m.records) [
    | none ↦ m
    | some r ↦ store dev (record r { pins = (r.pins + 1) % u32_mod }) m
  ]

  pub unpin : Manager dev → ℕ → Manager dev
  unfolding store
  unpin m id = elim (lookup id m.records) [
    | none ↦ m
    | some r ↦ if is_positive r.pins then store dev (record r { pins = r.pins - 1 }) m else m
  ]

  pub is_resident : Manager dev → ℕ → Target → Bool
  is_resident m id target = elim (lookup id m.records) [
    | none ↦ false
    | some r ↦ reached target r.state
  ]

  pub state_of : Manager dev → ℕ → ResidencyState
  state_of m id = elim (lookup id m.records) [ none ↦ not_resident | some r ↦ r.state ]

  pub ram_pointer : Manager dev → ℕ → Option (List ℕ)
  ram_pointer m id = elim (lookup id m.records) [
    | none ↦ none
    | some r ↦ if in_ram r.state then r.ram else none
  ]

  pub evict : Manager dev → ℕ → Bool × Manager dev
  unfolding evict_locked
  evict m id = evict_locked dev m id

  -- Gives every device buffer back.
  pub release_buffers : Map Record → dev.State → dev.State
  release_buffers [] d = d
  release_buffers ((id, r) ∷ rest) d =
      release_buffers rest (elim r.accel [ none ↦ d | some ptr ↦ dev.release d ptr ])

  pub release_all : Manager dev → Manager dev
  unfolding release_buffers
  release_all m = record m {
    accelerator = elim m.accelerator [ none ↦ none | some d ↦ some (release_buffers m.records d) ];
    records = [];
    telemetry = record (m.telemetry) { resident_ram_bytes = 0; resident_accelerator_bytes = 0 };
  }

  -- The constructor.
  unfoldable pub new_manager : Budget → Option dev.State → Manager dev
  new_manager budget accelerator = record {
    budget = budget;
    accelerator = accelerator;
    prefetch_enabled = true;
    records = [];
    telemetry = record {
      bytes_read_from_disk = 0;
      bytes_to_ram = 0;
      bytes_to_accelerator = 0;
      eviction_count = 0;
      prefetch_count = 0;
      prefetch_hits = 0;
      prefetch_misses = 0;
      resident_ram_bytes = 0;
      resident_accelerator_bytes = 0;
      peak_ram_bytes = 0;
      peak_accelerator_bytes = 0;
      transfer_failures = 0;
    };
    last_error = no_error;
  }

  pub step : Manager dev → Call → Manager dev
  unfolding ensure_resident prefetch pin unpin evict release_all set_prefetch_enabled
  step m (ensures region target w) = (ensure_resident m region target w).1
  step m (prefetches region target w) = (prefetch m region target w).1
  step m (pins id) = pin m id
  step m (unpins id) = unpin m id
  step m (evicts id) = (evict m id).1
  step m (sets_prefetch enabled) = set_prefetch_enabled enabled m
  step m releases = release_all m

  pub run : Manager dev → List Call → Manager dev
  run m [] = m
  run m (c ∷ cs) = run (step m c) cs
