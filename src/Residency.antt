-- ===== src/Residency.antt =====
-- src/model/ModelResidencyManager.cpp: file → RAM → accelerator residency of model regions.
-- Every public method holds the mutex from end to end, so a method is one function from the state
-- to its result and the new state. A `Record&` is the record's value beside the key under which
-- each change is written back.
pub mod Types
pub mod Device
pub mod Methods
pub mod Victim
pub mod Inv
pub mod Room
pub mod Load
use hetero_accel.Base.{
  ℕ, zero, suc, ◌+◌, ◌-◌, Bool, true, false, not, ◌&&◌, ◌||◌, Option, none, some, List, [], ◌∷◌,
  if◌then◌else◌, ltb, leb, ◌==◌, is_some, length, add64, max, is_positive,
}
use hetero_accel.Base.Map.{Map, lookup, put, erase}
use Types.{
  Region, ResidencyState, not_resident, loading_to_ram, resident_in_ram, loading_to_accelerator,
  resident_in_accelerator, evicting, error, Target, Budget, Telemetry, LastError, no_error,
  invalid_region, already_transferring, cancelled_before_ram, ram_allocation_failed, source_failed,
  accelerator_unavailable, no_ram_buffer, cancelled_before_upload, device_failed,
  ram_budget_exhausted, cannot_evict, accelerator_budget_exhausted, AcceleratorMemory, Record,
  Manager, World,
}

abbrev pub in_ram : ResidencyState → Bool
in_ram resident_in_ram = true
in_ram resident_in_accelerator = true
in_ram _ = false

abbrev pub in_accelerator : ResidencyState → Bool
in_accelerator resident_in_accelerator = true
in_accelerator _ = false

-- At or above the requested target.
abbrev pub reached : Target → ResidencyState → Bool
reached Target.ram s = in_ram s
reached Target.accelerator s = in_accelerator s

pub fresh_record : Region → Record
fresh_record region = record {
  region = region;
  state = not_resident;
  ram = none;
  accel = none;
  refs = 0;
  pins = 0;
  last_used = 0;
  transferring = false;
  prefetched = false;
}

-- `if (total >= size) total -= size; else total = 0;`
abbrev pub less_bytes : ℕ → ℕ → ℕ
less_bytes counted size = if leb size counted then counted - size else 0

-- Pinned, referenced or in transfer: never evicted.
pub busy : Record → Bool
busy r = is_positive r.pins || is_positive r.refs || r.transferring

-- One round of the scan in `pickLruLocked`, on (victim_id, oldest, found).
pub pick_round : Target → ℕ → ℕ → Record → ℕ × ℕ × Bool → ℕ × ℕ × Bool
unfolding busy
pick_round target skip id r (victim, oldest, found) =
    if id == skip || busy r || not (reached target r.state)
    then (victim, oldest, found)
    else if not found || ltb r.last_used oldest
    then (id, r.last_used, true)
    else (victim, oldest, found)

pub pick_scan : Target → ℕ → Map Record → ℕ × ℕ × Bool → ℕ × ℕ × Bool
unfolding pick_round
pick_scan target skip [] best = best
pick_scan target skip ((id, r) ∷ rest) best =
    pick_scan target skip rest (pick_round target skip id r best)

-- The victim's id; 0 where nothing qualifies.
pub pick_lru : Target → ℕ → Map Record → ℕ → ℕ
unfolding pick_scan
pick_lru target skip records now = (pick_scan target skip records (0, now, false)).0

module _ (dev : AcceleratorMemory) where
  abbrev pub fail : Manager dev → LastError → Manager dev
  fail m e = record m { last_error = e }

  abbrev pub count_failure : Manager dev → Manager dev
  count_failure m = record m {
    telemetry = record (m.telemetry) { transfer_failures = add64 m.telemetry.transfer_failures 1 };
  }

  pub store : Record → Manager dev → Manager dev
  store r m = record m { records = put r.region.id r m.records }

  pub get_or_create : Manager dev → Region → Record × Manager dev
  unfolding fresh_record
  get_or_create m region = elim (lookup region.id m.records) [
    | some r ↦ (r, m)
    | none ↦
        (fresh_record region, record m { records = put region.id (fresh_record region) m.records })
  ]

  -- The accelerator part of an eviction, also one round of `makeAccelRoomLocked`.
  pub free_accel : Manager dev → Record → Manager dev
  free_accel m r = elim r.accel [
    | none ↦ m
    | some ptr ↦ elim m.accelerator [
      | none ↦ m
      | some d ↦ record m {
        accelerator = some (dev.release d ptr);
        telemetry = record (m.telemetry) {
          resident_accelerator_bytes =
              less_bytes m.telemetry.resident_accelerator_bytes r.region.size;
        };
      }
    ]
  ]

  pub free_ram : Manager dev → Record → Manager dev
  free_ram m r = elim r.ram [
    | none ↦ m
    | some bytes ↦ record m {
      telemetry = record (m.telemetry) {
        resident_ram_bytes = less_bytes m.telemetry.resident_ram_bytes r.region.size;
      };
    }
  ]

  pub drop_record : Manager dev → ℕ → Record → Manager dev
  unfolding free_accel free_ram
  drop_record m id r =
      let freed = free_ram (free_accel m r) r in
      record freed {
        records = erase id freed.records;
        telemetry = record (freed.telemetry) {
          eviction_count = add64 freed.telemetry.eviction_count 1;
        };
      }

  pub evict_locked : Manager dev → ℕ → Bool × Manager dev
  unfolding busy drop_record
  evict_locked m id = elim (lookup id m.records) [
    | none ↦ (true, m)
    | some r ↦ if busy r then (false, m) else (true, drop_record m id r)
  ]

  -- The loop of `makeRamRoomLocked`; `none` means that the fuel ran out.
  pub ram_room_loop : ℕ → Manager dev → ℕ → ℕ → ℕ → Option (Bool × Manager dev)
  ram_room_loop zero m needed skip now = none
  ram_room_loop (suc fuel) m needed skip now =
      elim (ltb m.budget.ram_bytes (add64 m.telemetry.resident_ram_bytes needed)) [
        | false ↦ some (true, m)
        | true ↦ elim (pick_lru Target.ram skip m.records now == 0) [
          | true ↦ some (false, fail m ram_budget_exhausted)
          | false ↦ elim (evict_locked m (pick_lru Target.ram skip m.records now)).0 [
            | false ↦ some (
              false,
              fail (evict_locked m (pick_lru Target.ram skip m.records now)).1 cannot_evict,
            )
            | true ↦
                ram_room_loop fuel (evict_locked m (pick_lru Target.ram skip m.records now)).1
                  needed skip now
          ]
        ]
      ]

  abbrev pub or_stop : Manager dev → Option (Bool × Manager dev) → Bool × Manager dev
  or_stop m none = (false, m)
  or_stop m (some r) = r

  -- Each round evicts a record, so one more round than there are records is enough.
  pub make_ram_room : Manager dev → ℕ → ℕ → ℕ → Bool × Manager dev
  unfolding ram_room_loop
  make_ram_room m needed skip now =
      or_stop m (ram_room_loop (suc (length m.records)) m needed skip now)

  -- The read has succeeded: the buffer becomes the record's, and the bytes are counted.
  pub loaded : Manager dev → Record → List ℕ → Record × Manager dev
  loaded m r bytes =
      let size = r.region.size in
      let t = m.telemetry in
      let resident = add64 t.resident_ram_bytes size in
      (
        record r { ram = some bytes; state = resident_in_ram; transferring = false },
        record m {
          telemetry = record t {
            bytes_read_from_disk = add64 t.bytes_read_from_disk size;
            bytes_to_ram = add64 t.bytes_to_ram size;
            resident_ram_bytes = resident;
            peak_ram_bytes = if ltb t.peak_ram_bytes resident then resident else t.peak_ram_bytes;
          };
        },
      )

  pub load_failed : Manager dev → Record → LastError → Bool × Record × Manager dev
  unfolding store
  load_failed m r e =
      let failed = record r { state = error; transferring = false } in
      (false, failed, store failed (count_failure (fail m e)))

  pub read_source : Manager dev → Record → World → Bool × Record × Manager dev
  unfolding load_failed loaded store
  read_source m r w = elim w.host_allocates [
    | false ↦ load_failed m r (ram_allocation_failed r.region.identifier)
    | true ↦ elim (w.read r.region.offset r.region.size) [
      | none ↦ load_failed m r source_failed
      | some bytes ↦ (true, (loaded m r bytes).0, store (loaded m r bytes).0 (loaded m r bytes).1)
    ]
  ]

  pub load_to_ram : Manager dev → Record → World → Bool × Record × Manager dev
  unfolding make_ram_room read_source
  load_to_ram m r w =
      if w.cancel_before_ram
      then (false, r, fail m cancelled_before_ram)
      else let (room, m') = make_ram_room m r.region.size r.region.id w.now in
        if not room
        then (false, r, m')
        else read_source m' (record r { state = loading_to_ram; transferring = true }) w
