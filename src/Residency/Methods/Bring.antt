-- ===== src/Residency/Methods/Bring.antt =====
-- The two steps that `ensureResident` and `prefetch` share: the load and the upload.
use hetero_accel.Base.{
  ℕ, ◌≡◌, refl, sym, ◌∙◌, subst, inl, inr, Bool, true, false, arith, ◌==◌, Bool-cases,
}
use hetero_accel.Residency.Types.{Region, Target, AcceleratorMemory, Record, Manager, World}
use hetero_accel.Residency.{reached, in_ram, in_accelerator, load_to_ram}
use hetero_accel.Residency.Methods.{into_ram, into_target, upload, bring}
use hetero_accel.Residency.Inv.{SameSetup-trans}
use hetero_accel.Residency.Load.{
  IsHeld, Transfers, prepared-Transfers, noted-Prepares, load_to_ram-Transfers,
}
use hetero_accel.Residency.Methods.Upload.{upload-Transfers}

module _ (dev : AcceleratorMemory) where
  pub Transfers-trans :
      {m m' : Manager dev} {r r' : Record} {ok : Bool} {out : Bool × Record × Manager dev}
      → Transfers dev m r (ok, r', m')
      → Transfers dev m' r' out
      → Transfers dev m r out
  Transfers-trans {m} {m'} {r} {r'} s t = record {
    held = t.held;
    setup = SameSetup-trans dev s.setup t.setup;
    region = t.region ∙ s.region;
    pins = t.pins ∙ s.pins;
    ram_kept = λ x. let (a, b) = s.ram_kept x in let (c, d) = t.ram_kept b in (c ∙ a, d);
    busy_kept = λ j x p f. t.busy_kept j x (moved j p.0, p.1) (s.busy_kept j x p f);
  }
    where
      moved : (j : ℕ) → (j == r.region.id) ≡ false → (j == r'.region.id) ≡ false
      moved j h = subst (λ (x : Region). (j == x.id) ≡ false) (sym s.region) h

  into_ram-Transfers :
      (m : Manager dev) (r : Record) (w : World)
      → IsHeld dev m r
      → let out = into_ram dev m r w in
        Transfers dev m r out × (out.0 ≡ true → in_ram out.1.state ≡ true)
  unfolding into_ram
  into_ram-Transfers m r w h = elim (Bool-cases (in_ram r.state)) [
    | inl there ↦
        let e : into_ram dev m r w ≡ (true, r, m) = ground (arith, there) in
        rw e (
          prepared-Transfers dev true (noted-Prepares dev m m r h refl refl refl refl refl),
          λ x. there,
        )
    | inr absent ↦
        let e : into_ram dev m r w ≡ load_to_ram dev m r w = ground (arith, absent) in
        let (t, l) = load_to_ram-Transfers dev m r w h absent in rw e (t, λ x. rw (l x).0)
  ]

  into_target-Transfers :
      (m : Manager dev) (r : Record) (target : Target) (w : World)
      (out : Bool × Record × Manager dev)
      → Transfers dev m r out
      → (out.0 ≡ true → in_ram out.1.state ≡ true)
      → let end = into_target dev target w out in
        Transfers dev m r end × (end.0 ≡ true → reached target end.1.state ≡ true)
  unfolding into_target
  into_target-Transfers m r target w (false, r', m') t on = (t, λ x. cc)
  into_target-Transfers m r Target.ram w (true, r', m') t on = (t, on)
  into_target-Transfers m r Target.accelerator w (true, r', m') t on =
      elim (Bool-cases (in_accelerator r'.state)) [
        | inl there ↦
            let e : into_target dev Target.accelerator w (true, r', m') ≡ (true, r', m') =
              ground (arith, there) in
            rw e (t, λ x. there)
        | inr absent ↦
            let e : into_target dev Target.accelerator w (true, r', m') ≡ upload dev m' r' w =
              ground (arith, absent) in
            let (u, l, _) = upload-Transfers dev m' r' w t.held (on refl) absent in
            rw e (Transfers-trans t u, λ x. rw (l x))
      ]

  -- Either the record ends where it was asked to be, or the call reports failure.
  pub bring-Transfers :
      (m : Manager dev) (r : Record) (target : Target) (w : World)
      → IsHeld dev m r
      → let out = bring dev m r target w in
        Transfers dev m r out × (out.0 ≡ true → reached target out.1.state ≡ true)
  unfolding bring
  bring-Transfers m r target w h =
      let (t, on) = into_ram-Transfers m r w h in into_target-Transfers m r target w _ t on
