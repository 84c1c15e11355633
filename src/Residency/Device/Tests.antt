-- ===== src/Residency/Device/Tests.antt =====
-- Runs of src/model/HostAcceleratorMemory.cpp.
use hetero_accel.Base.{
  ℕ, ◌+◌, ◌≤◌, ◌≡◌, refl, ◌≢◌, true, false, ◌&&◌, none, some, [], ◌∷◌, arith, ltb, leb,
  if◌then◌else◌, length, take,
}
use hetero_accel.Base.Map.{lookup, put, erase, total}
use hetero_accel.Residency.Device.Copies.{overwritten, download-upload}
use hetero_accel.Residency.Device.{
  HostMemory, Block, no_error, IsCounted, available, allocate, release, upload, download,
  next_pointer, allocate-IsCounted, release-IsCounted,
}

abbrev card : HostMemory
card = record {
  capacity = 100;
  used = 4;
  fail_next_upload = false;
  last_error = no_error;
  allocs = (7, record { size = 4; bytes = some 1 ∷ some 2 ∷ some 3 ∷ none ∷ [] }) ∷ [];
  heap = some 8 ∷ [];
}

card-IsCounted : IsCounted card
unfolding lookup total
card-IsCounted = record {
  distinct = (refl, tt);
  counted = refl;
  cells = (refl, tt);
  within = omega arith;
  word = omega arith;
}

allocate-IsCounted_example :
    IsCounted (allocate card 50).1
    × ((allocate card 50).0
        ≡ (if ltb 0 50 && leb 50 (available card) then next_pointer card.heap else none))
allocate-IsCounted_example = allocate-IsCounted card 50 card-IsCounted card_fresh (omega arith)
  where
    card_fresh : (p : ℕ) → next_pointer card.heap ≡ some p → lookup p card.allocs ≡ none
    card_fresh p e = unfold next_pointer lookup in ground (arith, e)

release-IsCounted_example :
    IsCounted (release card 7)
    × (lookup 7 (release card 7).allocs ≡ none)
    × ((b : Block) → lookup 7 card.allocs ≡ some b → (release card 7).used + b.size ≡ card.used)
release-IsCounted_example = release-IsCounted card 7 card-IsCounted

download-upload_example :
    let d' = (upload card (9 ∷ 8 ∷ 7 ∷ []) 7 2).1 in
    let b : Block = record { size = 4; bytes = some 1 ∷ some 2 ∷ some 3 ∷ none ∷ [] } in
    ((upload card (9 ∷ 8 ∷ 7 ∷ []) 7 2).0 ≡ true)
    × IsCounted d'
    × ((n : ℕ)
        → n ≤ 4
        → (download d' 7 n ≡ some (take n (overwritten 2 (9 ∷ 8 ∷ 7 ∷ []) b)))
          × (length (take n (overwritten 2 (9 ∷ 8 ∷ 7 ∷ []) b)) ≡ n))
    × ((other n : ℕ) → 7 ≢ other → download d' other n ≡ download card other n)
unfolding lookup
download-upload_example =
    download-upload card (9 ∷ 8 ∷ 7 ∷ []) 7 2
      (record { size = 4; bytes = some 1 ∷ some 2 ∷ some 3 ∷ none ∷ [] }) card-IsCounted refl refl
      (omega arith) (omega arith)

-- A shorter upload leaves the rest of the block as it was.
partly_written :
    download (upload card (9 ∷ 8 ∷ 7 ∷ []) 7 2).1 7 4 ≡ some (some 9 ∷ some 8 ∷ some 3 ∷ none ∷ [])
unfolding upload download lookup put
partly_written = refl

-- A full card gives nothing, and a freed block can be had again.
full_card : (allocate card 97).0 ≡ none
unfolding allocate
full_card = refl

refilled : (allocate (release card 7) 100).0 ≡ some 8
unfolding allocate release lookup erase next_pointer
refilled = refl
