-- ===== src/Residency/Device.antt =====
-- src/model/HostAcceleratorMemory.cpp: the host-RAM stand-in for device memory. What `new` returns
-- is a list of pointers still to come, `none` for a failure, and a failure for ever at its end.
pub mod Copies
mod Tests
use hetero_accel.Base.{
  ℕ, zero, suc, ◌+◌, ◌-◌, ◌*◌, ◌/◌, ◌%◌, ◌^◌, ◌≤◌, ◌<◌, min, max, ◌≡◌, refl, sym, ap, ◌∙◌, subst,
  ◌≢◌, ◌⊎◌, inl, inr, Bool, true, false, not, ◌&&◌, ◌||◌, Option, none, some, List, [], ◌∷◌, ◌++◌,
  map, arith, ltb, leb, ◌==◌, if◌then◌else◌, is_some, one_if, ==→≡, ==_self, ltb-false, or-false,
  Bool-cases, Option-cases, length, All, length-append, take, take-take, drop, length-take,
  drop-append, take-append, append_assoc, length-drop, u64_mod, u32_mod, add64, mul64,
}
use hetero_accel.Base.Map.{
  Map, lookup, put, erase, Distinct, Each, total, lookup-put, lookup-erase, put-Distinct,
  erase-Distinct, total-put_old, total-put_new, total-erase, length-erase, total-get,
  total-le-length, Each-map, Each-lookup, Each-put, Each-erase,
}
use hetero_accel.Residency.Types.{AcceleratorMemory}

pub data DeviceError : Type 0 where
  no_error zero_size budget_exceeded host_allocation_failed upload_failure invalid_upload :
      DeviceError

-- A block's size and its bytes, none for one that was never written.
pub record Block : Type 0 where
  pub size : ℕ
  pub bytes : List (Option ℕ)

pub record HostMemory : Type 0 where
  pub capacity : ℕ
  pub used : ℕ
  pub fail_next_upload : Bool
  pub last_error : DeviceError
  pub allocs : Map Block
  pub heap : List (Option ℕ)

pub new_host_memory : ℕ → List (Option ℕ) → HostMemory
new_host_memory capacity heap = record {
  capacity = capacity;
  used = 0;
  fail_next_upload = false;
  last_error = no_error;
  allocs = [];
  heap = heap;
}

pub available : HostMemory → ℕ
available d = if ltb d.used d.capacity then d.capacity - d.used else 0

pub set_fail_next_upload : Bool → HostMemory → HostMemory
set_fail_next_upload fail d = record d { fail_next_upload = fail }

next_pointer : List (Option ℕ) → Option ℕ
next_pointer [] = none
next_pointer (p ∷ ps) = p

rest_of : List (Option ℕ) → List (Option ℕ)
rest_of [] = []
rest_of (p ∷ ps) = ps

-- What `new uint8_t[n]` holds.
abbrev pub unset : ℕ → List (Option ℕ)
unset zero = []
unset (suc n) = none ∷ unset n

pub allocate : HostMemory → ℕ → Option ℕ × HostMemory
unfolding next_pointer rest_of
allocate d bytes =
    if bytes == 0
    then (none, record d { last_error = zero_size })
    else if ltb d.capacity (add64 d.used bytes)
    then (none, record d { last_error = budget_exceeded })
    else elim (next_pointer d.heap) [
      | none ↦ (none, record d { last_error = host_allocation_failed; heap = rest_of d.heap })
      | some p ↦ (
        some p,
        record d {
          last_error = no_error;
          heap = rest_of d.heap;
          allocs = put p (record { size = bytes; bytes = unset bytes }) d.allocs;
          used = add64 d.used bytes;
        },
      )
    ]

pub release : HostMemory → ℕ → HostMemory
release d ptr = elim (lookup ptr d.allocs) [
  | none ↦ d
  | some b ↦ record d { used = (d.used + u64_mod - b.size) % u64_mod; allocs = erase ptr d.allocs }
]

-- `memcpy` of a number of bytes into a block: its first bytes are overwritten, and the others stay.
abbrev pub copy : ℕ → List ℕ → List (Option ℕ) → List (Option ℕ)
copy zero source old = old
copy (suc n) source [] = []
copy (suc n) [] (x ∷ old) = none ∷ copy n [] old
copy (suc n) (a ∷ source) (x ∷ old) = some a ∷ copy n source old

-- The source pointer is never null where the manager calls this.
pub upload : HostMemory → List ℕ → ℕ → ℕ → Bool × HostMemory
upload d source destination bytes =
    if d.fail_next_upload
    then (false, record d { fail_next_upload = false; last_error = upload_failure })
    else elim (lookup destination d.allocs) [
      | none ↦ (false, record d { last_error = invalid_upload })
      | some b ↦ if ltb b.size bytes then (false, record d { last_error = invalid_upload }) else (
        true,
        record d {
          last_error = no_error;
          allocs = put destination (record b { bytes = copy bytes source b.bytes }) d.allocs;
        },
      )
    ]

pub download : HostMemory → ℕ → ℕ → Option (List (Option ℕ))
download d source bytes = elim (lookup source d.allocs) [
  | none ↦ none
  | some b ↦ if ltb b.size bytes then none else some (take bytes b.bytes)
]

abbrev pub host : AcceleratorMemory
host = record {
  State = HostMemory;
  is_available = λ d. true;
  available = available;
  allocate = allocate;
  release = release;
  upload = upload;
}

-- The bytes in use are those of the blocks handed out, and within the capacity; and a block has as
-- many bytes as its size says.
pub record IsCounted (d : HostMemory) : Type 0 where
  pub distinct : Distinct d.allocs
  pub counted : d.used ≡ total (λ (b : Block). b.size) d.allocs
  pub cells : Each (λ p (b : Block). length b.bytes ≡ b.size) d.allocs
  pub within : d.used ≤ d.capacity
  pub word : d.capacity < u64_mod

-- `new` returns no pointer that is still in use.
abbrev FreshPointer : HostMemory → Type 0
FreshPointer d = (p : ℕ) → next_pointer d.heap ≡ some p → lookup p d.allocs ≡ none

length-unset : (n : ℕ) → length (unset n) ≡ n
length-unset zero = refl
length-unset (suc n) = ap suc (length-unset n)

abbrev HasCells : ℕ → Block → Type 0
HasCells p b = length b.bytes ≡ b.size

-- On a counted device whose next pointer is not in use, a request that does not wrap keeps the
-- bytes in use the sum of the blocks and within the capacity, and yields the host's next pointer
-- if the size is not zero and fits into what is available, and nothing otherwise.
allocate-IsCounted :
    (d : HostMemory) (bytes : ℕ)
    → IsCounted d
    → FreshPointer d
    → bytes + d.capacity < u64_mod
    → IsCounted (allocate d bytes).1
      × ((allocate d bytes).0
          ≡ (if ltb 0 bytes && leb bytes (available d) then next_pointer d.heap else none))
unfolding allocate available
allocate-IsCounted d bytes c fresh fits = elim (Option-cases (next_pointer d.heap)) [
  | inl e ↦ (
    record {
      distinct = ground (arith, e, c.distinct);
      counted = ground (arith, e, c.counted);
      cells = ground (arith, e, c.cells);
      within = ground (arith, e, c.within);
      word = ground (arith, e, c.word);
    },
    ground (arith, e, c.within),
  )
  | inr (p, e) ↦
      let block : Block = record { size = bytes; bytes = unset bytes } in
      let more = total-put_new (λ (b : Block). b.size) p block d.allocs (fresh p e) in
      (
        record {
          distinct = ground (arith, e, c.distinct, put-Distinct p block d.allocs c.distinct);
          counted = ground (arith, e, c.counted, more, c.within);
          cells =
              ground (
                arith,
                e,
                c.cells,
                Each-put HasCells p block d.allocs c.cells (length-unset bytes),
              );
          within = ground (arith, e, c.within);
          word = ground (arith, e, c.word);
        },
        ground (arith, e, c.within),
      )
]

-- On a counted device, release keeps the bytes in use the sum of the blocks and within the
-- capacity, leaves no block at the pointer, and gives back exactly the size of the block that was
-- there.
release-IsCounted :
    (d : HostMemory) (ptr : ℕ)
    → IsCounted d
    → IsCounted (release d ptr)
      × (lookup ptr (release d ptr).allocs ≡ none)
      × ((b : Block) → lookup ptr d.allocs ≡ some b → (release d ptr).used + b.size ≡ d.used)
unfolding release
release-IsCounted d ptr c = elim (Option-cases (lookup ptr d.allocs)) [
  | inl e ↦
      let same : release d ptr ≡ d = ground (arith, e) in
      rw same (c, e, λ b f. ground (arith, e, f))
  | inr (b, e) ↦
      let less = total-erase (λ (b : Block). b.size) ptr b d.allocs e in
      let small = total-get (λ (b : Block). b.size) ptr b d.allocs e in
      (
        record {
          distinct = ground (arith, e, erase-Distinct ptr d.allocs c.distinct);
          counted = ground (arith, e, less, small, c.counted, c.within, c.word);
          cells = ground (arith, e, Each-erase HasCells ptr d.allocs c.cells);
          within = ground (arith, e, small, c.counted, c.within, c.word);
          word = ground (arith, e, c.word);
        },
        ground (arith, e, lookup-erase ptr ptr d.allocs c.distinct),
        λ b' f. ground (arith, e, f, small, c.counted, c.within, c.word),
      )
]
