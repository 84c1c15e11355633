-- ===== src/Residency/Methods/Tests.antt =====
-- Histories of the residency manager over the host-RAM device.
use hetero_accel.Base.{ℕ, ◌≤◌, ◌≡◌, refl, Bool, true, false, none, some, List, [], ◌∷◌, arith}
use hetero_accel.Base.Map.{lookup, Each, total}
use hetero_accel.Residency.Types.{
  Region, generic, not_resident, resident_in_ram, Target, Budget, Record, Manager, World, no_error,
}
use hetero_accel.Residency.Device.{host, new_host_memory}
use hetero_accel.Residency.{pick_lru, evict_locked, load_to_ram, ram_room_loop}
use hetero_accel.Residency.Victim.{eligible, pick_lru-IsOldest}
use hetero_accel.Residency.Inv.{IsValid, Evicts, evict_locked-Evicts}
use hetero_accel.Residency.Room.{MakesRoom, ram_room_loop-MakesRoom}
use hetero_accel.Residency.Load.{IsHeld, Transfers, Loads, load_to_ram-Transfers}
use hetero_accel.Residency.Methods.{
  Call, ensures, prefetches, pins, unpins, evicts, releases, new_manager, step, run,
  ensure_resident, prefetch, upload, sets_prefetch,
}
use hetero_accel.Residency.Methods.Upload.{Uploads, Copies, upload-Transfers}
use hetero_accel.Residency.Methods.Serves.{Pinned}
use hetero_accel.Residency.Methods.Ensure.{Answers, ensure_resident-Answers, prefetch-Answers}
use hetero_accel.Residency.Methods.Calls.{step-Pinned, run-new_manager-IsValid, Countable}

abbrev small : Budget
small = record { ram_bytes = 100; accelerator_bytes = 100; prefetch_bytes = 0 }

abbrev region : ℕ → ℕ → Region
region id size = record {
  id = id;
  offset = 0;
  size = size;
  identifier = "r";
  kind = generic;
  layer = 0;
  tensor = 0;
}

abbrev world : ℕ → World
world now = record {
  now = now;
  cancel_before_ram = false;
  cancel_before_upload = false;
  host_allocates = true;
  read = λ offset size. some (1 ∷ 2 ∷ []);
}

abbrev stored : ℕ → ℕ → ℕ → ℕ → Record
stored id size n used = record {
  region = region id size;
  state = resident_in_ram;
  ram = some (1 ∷ 2 ∷ []);
  accel = none;
  refs = 0;
  pins = n;
  last_used = used;
  transferring = false;
  prefetched = false;
}

abbrev loaded_manager : Manager host
loaded_manager = record {
  budget = small;
  accelerator = some (new_host_memory 50 (some 9 ∷ []));
  prefetch_enabled = true;
  records = (1, stored 1 40 1 5) ∷ (2, stored 2 30 0 6) ∷ (3, stored 3 20 0 4) ∷ [];
  telemetry = record {
    bytes_read_from_disk = 90;
    bytes_to_ram = 90;
    bytes_to_accelerator = 0;
    eviction_count = 0;
    prefetch_count = 0;
    prefetch_hits = 0;
    prefetch_misses = 0;
    resident_ram_bytes = 90;
    resident_accelerator_bytes = 0;
    peak_ram_bytes = 90;
    peak_accelerator_bytes = 0;
    transfer_failures = 0;
  };
  last_error = no_error;
}

loaded-IsValid : IsValid host loaded_manager
unfolding lookup total
loaded-IsValid = record {
  distinct = (refl, (refl, (refl, tt)));
  sound = (
    record { key = refl; shape = refl; idle = refl; on_device = refl; fits = omega arith },
    (
      record { key = refl; shape = refl; idle = refl; on_device = refl; fits = omega arith },
      (record { key = refl; shape = refl; idle = refl; on_device = refl; fits = omega arith }, tt),
    ),
  );
  ram_counted = refl;
  accel_counted = refl;
  within = omega arith;
}

loaded-IsHeld : IsHeld host loaded_manager (stored 2 30 0 6)
unfolding lookup
loaded-IsHeld = record { valid = loaded-IsValid; stored = refl }

abbrev history : List Call
history =
    ensures (region 1 60) Target.accelerator (world 1)
    ∷ sets_prefetch false
    ∷ pins 1
    ∷ prefetches (region 2 30) Target.ram (world 2)
    ∷ ensures (region 3 40) Target.ram (world 3)
    ∷ unpins 1
    ∷ evicts 2
    ∷ releases
    ∷ []

run-new_manager-IsValid_example :
    let m = run host (new_manager host small (some (new_host_memory 80 (some 9 ∷ [])))) history in
    IsValid host m × (m.telemetry.resident_ram_bytes ≤ 100)
run-new_manager-IsValid_example =
    run-new_manager-IsValid host small (some (new_host_memory 80 (some 9 ∷ []))) history
      (omega arith)

ensure_resident-Answers_example :
    Answers host loaded_manager 4 Target.ram
      (ensure_resident host loaded_manager (region 4 30) Target.ram (world 9))
ensure_resident-Answers_example =
    ensure_resident-Answers host loaded_manager (region 4 30) Target.ram (world 9) loaded-IsValid
      (omega arith)

prefetch-Answers_example :
    Answers host loaded_manager 4 Target.ram
      (prefetch host loaded_manager (region 4 30) Target.ram (world 9))
prefetch-Answers_example =
    prefetch-Answers host loaded_manager (region 4 30) Target.ram (world 9) loaded-IsValid
      (omega arith)

one_pin : Countable host loaded_manager (pins 1)
unfolding lookup
one_pin r e = ground (arith, e)

step-Pinned_example : Pinned host (step host loaded_manager (pins 1)) 1 (some (1 ∷ 2 ∷ []))
unfolding lookup
step-Pinned_example =
    step-Pinned host loaded_manager (pins 1) 1 (some (1 ∷ 2 ∷ [])) loaded-IsValid tt tt one_pin
      (stored 1 40 1 5, record { stored = refl; pinned = refl; present = refl; buffer = refl })

pick_lru-IsOldest_example :
    (r : Record) × (lookup (pick_lru Target.ram 4 loaded_manager.records 9) loaded_manager.records
      ≡ some r)
    × (eligible Target.ram 4 (pick_lru Target.ram 4 loaded_manager.records 9) r ≡ true)
    × Each
        (λ id r'. eligible Target.ram 4 id r' ≡ true → r.last_used ≤ r'.last_used)
        loaded_manager.records
unfolding pick_lru
pick_lru-IsOldest_example =
    pick_lru-IsOldest Target.ram 4 loaded_manager.records 9 loaded-IsValid.distinct refl

evict_locked-Evicts_example : Evicts host loaded_manager 2 (evict_locked host loaded_manager 2)
evict_locked-Evicts_example = evict_locked-Evicts host loaded_manager 2 loaded-IsValid

ram_room_loop-MakesRoom_example :
    (out : Bool × Manager host) × (ram_room_loop host 4 loaded_manager 60 4 9 ≡ some out)
    × MakesRoom host loaded_manager 60 4 out
ram_room_loop-MakesRoom_example =
    ram_room_loop-MakesRoom host 4 loaded_manager 60 4 9 (omega arith) (omega arith) loaded-IsValid

upload-Transfers_example :
    let out = upload host loaded_manager (stored 2 30 0 6) (world 9) in
    Transfers host loaded_manager (stored 2 30 0 6) out
    × Uploads host out
    × Copies host loaded_manager (stored 2 30 0 6) (world 9) out
upload-Transfers_example =
    upload-Transfers host loaded_manager (stored 2 30 0 6) (world 9) loaded-IsHeld refl refl

absent : Record
absent = record {
  region = region 5 50;
  state = not_resident;
  ram = none;
  accel = none;
  refs = 0;
  pins = 0;
  last_used = 0;
  transferring = false;
  prefetched = false;
}

empty_slot : Manager host
empty_slot = record (new_manager host small none) { records = (5, absent) ∷ [] }

empty_slot-IsHeld : IsHeld host empty_slot absent
unfolding empty_slot absent new_manager lookup total
empty_slot-IsHeld = record {
  valid = record {
    distinct = (refl, tt);
    sound = (
      record { key = refl; shape = refl; idle = refl; on_device = refl; fits = omega arith },
      tt,
    );
    ram_counted = refl;
    accel_counted = refl;
    within = omega arith;
  };
  stored = refl;
}

load_to_ram-Transfers_example :
    Transfers host empty_slot absent (load_to_ram host empty_slot absent (world 9))
    × Loads host absent (world 9) (load_to_ram host empty_slot absent (world 9))
unfolding absent
load_to_ram-Transfers_example =
    load_to_ram-Transfers host empty_slot absent (world 9) empty_slot-IsHeld refl
