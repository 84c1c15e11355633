-- ===== src/Residency/Device/Copies.antt =====
-- src/model/HostAcceleratorMemory.cpp: what `upload` writes and `download` reads.
use hetero_accel.Base.{
  ℕ, zero, suc, ◌≤◌, ◌≡◌, refl, ap, ◌∙◌, ◌≢◌, true, false, Option, some, List, [], ◌∷◌, ◌++◌, map,
  arith, ==→≡, ==_self, length, take, drop, length-take,
}
use hetero_accel.Base.Map.{
  lookup, put, lookup-put, put-Distinct, total-put_old, Each-lookup, Each-put,
}
use hetero_accel.Residency.Device.{
  HostMemory, Block, IsCounted, copy, upload, download, HasCells, no_error,
}

copy-lem :
    (n : ℕ) (source : List ℕ) (old : List (Option ℕ))
    → n ≤ length source
    → n ≤ length old
    → copy n source old ≡ map some (take n source) ++ drop n old
copy-lem zero source old h k = refl
copy-lem (suc n) [] old h k = ground (arith, h)
copy-lem (suc n) (a ∷ source) [] h k = ground (arith, k)
copy-lem (suc n) (a ∷ source) (x ∷ old) h k =
    ap (◌∷◌ (some a)) (copy-lem n source old (omega (arith, h)) (omega (arith, k)))

length-copy :
    (n : ℕ) (source : List ℕ) (old : List (Option ℕ)) → length (copy n source old) ≡ length old
length-copy zero source old = refl
length-copy (suc n) source [] = refl
length-copy (suc n) [] (x ∷ old) = ap suc (length-copy n [] old)
length-copy (suc n) (a ∷ source) (x ∷ old) = ap suc (length-copy n source old)

-- The block after an upload: the bytes of the source, then what stood behind them.
abbrev pub overwritten : ℕ → List ℕ → Block → List (Option ℕ)
overwritten bytes source b = map some (take bytes source) ++ drop bytes b.bytes

-- Take a counted device on which no upload failure is pending, a block that is at least as long as
-- the number of bytes, and a source that is too. Then upload succeeds and leaves the device
-- counted. A download of any number of bytes up to the size of the block gives that many bytes,
-- first those uploaded and behind them those that stood there before; and a download from any
-- other pointer gives what it gave before.
pub download-upload :
    (d : HostMemory) (source : List ℕ) (ptr bytes : ℕ) (b : Block)
    → IsCounted d
    → d.fail_next_upload ≡ false
    → lookup ptr d.allocs ≡ some b
    → bytes ≤ b.size
    → bytes ≤ length source
    → let d' = (upload d source ptr bytes).1 in
      ((upload d source ptr bytes).0 ≡ true)
      × IsCounted d'
      × ((n : ℕ)
          → n ≤ b.size
          → (download d' ptr n ≡ some (take n (overwritten bytes source b)))
            × (length (take n (overwritten bytes source b)) ≡ n))
      × ((other n : ℕ) → ptr ≢ other → download d' other n ≡ download d other n)
unfolding upload download
download-upload d source ptr bytes b c ready live small long =
    let cells : length b.bytes ≡ b.size = Each-lookup HasCells ptr b d.allocs c.cells live in
    let b' : Block = record b { bytes = copy bytes source b.bytes } in
    let wrote : copy bytes source b.bytes ≡ overwritten bytes source b =
      copy-lem bytes source b.bytes long (omega (arith, small, cells)) in
    let same : length (copy bytes source b.bytes) ≡ b.size =
      length-copy bytes source b.bytes ∙ cells in
    let to : upload d source ptr bytes
        ≡ (true, record d { last_error = no_error; allocs = put ptr b' d.allocs }) =
      ground (arith, ready, live, small) in
    let old = total-put_old (λ (x : Block). x.size) ptr b' b d.allocs live in
    rw to (
      refl,
      record {
        distinct = put-Distinct ptr b' d.allocs c.distinct;
        counted = omega (arith, old, c.counted);
        cells = Each-put HasCells ptr b' d.allocs c.cells same;
        within = c.within;
        word = c.word;
      },
      λ n le. (
        ground (arith, lookup-put ptr ptr b' d.allocs, ==_self ptr, le, wrote),
        length-take n (overwritten bytes source b) (omega (arith, le, ap length wrote, same)),
      ),
      λ other n apart. ground (arith, lookup-put ptr other b' d.allocs, ==→≡ ptr other, apart),
    )
