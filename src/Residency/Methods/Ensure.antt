-- ===== src/Residency/Methods/Ensure.antt =====
-- `ensureResident` and `prefetch`: the state stays valid whatever the data source, the device and
-- the cancel flag do, and true is returned only for a region that is where it was asked to be.
use hetero_accel.Base.{
  ℕ, ◌+◌, ◌<◌, ◌≡◌, refl, ap, ◌∙◌, subst, inl, inr, Bool, true, false, not, ◌||◌, arith, ◌==◌,
  if◌then◌else◌, Bool-cases, u64_mod,
}
use hetero_accel.Residency.Types.{
  Region, Target, invalid_region, AcceleratorMemory, Record, Manager, World,
}
use hetero_accel.Residency.{reached, fail, store, get_or_create}
use hetero_accel.Residency.Methods.{
  touched, bring, ensure_resident, prefetch, count_hit, count_miss, is_resident,
}
use hetero_accel.Residency.Inv.{IsValid}
use hetero_accel.Residency.Load.{IsHeld, IsHeld-IsSound, Transfers, noted-Prepares}
use hetero_accel.Residency.Methods.Bring.{bring-Transfers, Transfers-trans}
use hetero_accel.Residency.Methods.Serves.{
  Serves, Serves-trans, noted-Serves, Transfers-Serves, get_or_create-Serves, stamp-Transfers,
}

module _ (dev : AcceleratorMemory) where
  -- The call serves its callers, and true means that the region is at the target.
  abbrev pub Answers : Manager dev → ℕ → Target → Bool × Manager dev → Type 0
  Answers m id target out =
      Serves dev m out.1 × (out.0 ≡ true → is_resident dev out.1 id target ≡ true)

  held_resident :
      (m : Manager dev) (r : Record) (id : ℕ) (target : Target)
      → IsHeld dev m r
      → r.region.id ≡ id
      → reached target r.state ≡ true
      → is_resident dev m id target ≡ true
  unfolding is_resident
  held_resident m r id target h e on =
      subst (λ k. is_resident dev m k target ≡ true) e (ground (arith, h.stored, on))

  -- After the record has been found or made: `m` holds `r`, and `m'` is what the early counts made.
  answer_stamped :
      (m : Manager dev) (r r' s : Record) (ok : Bool) (target : Target) (id : ℕ) (m' : Manager dev)
      → IsHeld dev m r
      → r.region.id ≡ id
      → Transfers dev m r (ok, r', m')
      → (ok ≡ true → reached target r'.state ≡ true)
      → Transfers dev m' r' (true, s, store dev s m')
      → s.state ≡ r'.state
      → Answers m id target (if ok then (true, store dev s m') else (false, m'))
  answer_stamped m r r' s false target id m' h e t on u same = (Transfers-Serves dev h t, λ x. cc)
  answer_stamped m r r' s true target id m' h e t on u same =
      let all = Transfers-trans dev t u in
      (
        Transfers-Serves dev h all,
        λ x.
            held_resident _ s id target all.held (ap (λ (y : Region). y.id) all.region ∙ e)
              (rw same (on refl)),
      )

  -- On a valid manager and a region whose size and the RAM budget do not wrap, ensure_resident
  -- leaves a valid manager with the same budget and device and with every pinned region still in
  -- RAM in its buffer, and it returns true only if is_resident then holds of the region at the
  -- target, whatever the data source, the device, the host allocation and the cancel flag do.
  pub ensure_resident-Answers :
      (m : Manager dev) (region : Region) (target : Target) (w : World)
      → IsValid dev m
      → region.size + m.budget.ram_bytes < u64_mod
      → Answers m region.id target (ensure_resident dev m region target w)
  unfolding ensure_resident touched
  ensure_resident-Answers m region target w v fits = elim (Bool-cases (region.size == 0)) [
    | inl empty ↦
        let e : ensure_resident dev m region target w ≡ (false, fail dev m invalid_region) =
          ground (arith, empty) in
        rw e (noted-Serves dev m _ v refl refl refl refl refl, λ x. cc)
    | inr sized ↦
        let r = (get_or_create dev m region).0 in
        let m' = (get_or_create dev m region).1 in
        let (s, h, id) = get_or_create-Serves dev m region v fits in
        elim (Bool-cases (reached target r.state)) [
          | inl there ↦
              let e : ensure_resident dev m region target w
                  ≡ (true, store dev (touched dev r w.now) m') =
                ground (arith, sized, there) in
              let u =
                stamp-Transfers dev m' r (touched dev r w.now) h refl refl refl refl refl refl in
              rw e (
                Serves-trans dev s (Transfers-Serves dev h u),
                λ x. held_resident _ (touched dev r w.now) region.id target u.held id there,
              )
          | inr absent ↦
              let out = bring dev m' r target w in
              let (t, on) = bring-Transfers dev m' r target w h in
              let e : ensure_resident dev m region target w ≡ (
                  if out.0
                  then (true, store dev (touched dev out.1 w.now) out.2)
                  else (false, out.2)) =
                ground (arith, sized, absent, (IsHeld-IsSound dev h).idle) in
              let (s', on') =
                answer_stamped m' r out.1 (touched dev out.1 w.now) out.0 target region.id out.2 h
                  id t on
                  (stamp-Transfers dev out.2 out.1 (touched dev out.1 w.now) t.held refl refl refl
                    refl refl refl)
                  refl in
              rw e (Serves-trans dev s s', on')
        ]
  ]

  -- On a valid manager and a region whose size and the RAM budget do not wrap, prefetch leaves a valid
  -- manager with the same budget and device and with every pinned region still in RAM in its buffer,
  -- and it returns true only if is_resident then holds of the region at the target.
  pub prefetch-Answers :
      (m : Manager dev) (region : Region) (target : Target) (w : World)
      → IsValid dev m
      → region.size + m.budget.ram_bytes < u64_mod
      → Answers m region.id target (prefetch dev m region target w)
  unfolding prefetch touched count_hit count_miss
  prefetch-Answers m region target w v fits =
      elim (Bool-cases (not m.prefetch_enabled || (region.size == 0))) [
        | inl off ↦
            let e : prefetch dev m region target w ≡ (false, m) = ground (arith, off) in
            rw e (noted-Serves dev m m v refl refl refl refl refl, λ x. cc)
        | inr go ↦
            let r = (get_or_create dev m region).0 in
            let m' = (get_or_create dev m region).1 in
            let (s, h, id) = get_or_create-Serves dev m region v fits in
            elim (Bool-cases (reached target r.state)) [
              | inl there ↦
                  let e : prefetch dev m region target w ≡ (true, count_hit dev m') =
                    ground (arith, go, there) in
                  let hit = noted-Prepares dev m' (count_hit dev m') r h refl refl refl refl refl in
                  rw e (
                    Serves-trans dev s
                        (noted-Serves dev m' (count_hit dev m') h.valid refl refl refl refl refl),
                    λ x. held_resident _ r region.id target hit.held id there,
                  )
              | inr absent ↦
                  let missed = count_miss dev m' in
                  let miss = noted-Prepares dev m' missed r h refl refl refl refl refl in
                  let s'' = noted-Serves dev m' missed h.valid refl refl refl refl refl in
                  let out = bring dev missed r target w in
                  let (t, on) = bring-Transfers dev missed r target w miss.held in
                  let stamped : Record = record out.1 { last_used = w.now; prefetched = true } in
                  let e : prefetch dev m region target w
                      ≡ (if out.0 then (true, store dev stamped out.2) else (false, out.2)) =
                    ground (arith, go, absent, (IsHeld-IsSound dev h).idle) in
                  let (s', on') =
                    answer_stamped missed r out.1 stamped out.0 target region.id out.2 miss.held id
                      t on
                      (stamp-Transfers dev out.2 out.1 stamped t.held refl refl refl refl refl refl)
                      refl in
                  rw e (Serves-trans dev s (Serves-trans dev s'' s'), on')
            ]
      ]
