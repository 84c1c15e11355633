-- ===== src/Residency/Victim.antt =====
-- What `pickLruLocked` picks.
use hetero_accel.Base.{
  ℕ, ◌≤◌, ◌≡◌, refl, ◌∙◌, ◌⊎◌, inl, inr, Bool, true, false, not, ◌||◌, none, some, [], ◌∷◌, arith,
  ◌==◌, ==→≡,
}
use hetero_accel.Base.Map.{Map, lookup, Distinct, Each, Each-map}
use hetero_accel.Residency.Types.{Target, Record}
use hetero_accel.Residency.{reached, busy, pick_round, pick_scan, pick_lru}

-- The scan may pick this entry: another region, not busy, resident where room is needed.
abbrev pub eligible : Target → ℕ → ℕ → Record → Bool
unfolding busy
eligible target skip id r = not (id == skip || busy r || not (reached target r.state))

-- An eligible record is another than the skipped one, and not busy.
pub eligible-idle :
    (target : Target) (skip id : ℕ) (r : Record)
    → eligible target skip id r ≡ true
    → ((id == skip) ≡ false) × (busy r ≡ false)
unfolding eligible busy
eligible-idle target skip id r h = ground arith

pub eligible-reached :
    (target : Target) (skip id : ℕ) (r : Record)
    → eligible target skip id r ≡ true
    → reached target r.state ≡ true
unfolding eligible busy
eligible-reached target skip id r h = ground arith

record IsVictim (target : Target) (skip : ℕ) (m : Map Record) (v : ℕ) (oldest : ℕ) (r : Record)
    : Type 0 where
  pub stored : lookup v m ≡ some r
  pub allowed : eligible target skip v r ≡ true
  pub age : r.last_used ≡ oldest

pick_round_cases :
    (target : Target) (skip id : ℕ) (r : Record) (best : ℕ × ℕ × Bool)
    → (pick_round target skip id r best ≡ best)
      ⊎ ((pick_round target skip id r best ≡ (id, r.last_used, true))
          × (eligible target skip id r ≡ true))
unfolding pick_round busy
pick_round_cases target skip id r (v, o, f) = ground arith

-- The scan ends with what it began with, or with an entry that it may pick.
abbrev Picked : Target → ℕ → Map Record → ℕ × ℕ × Bool → ℕ × ℕ × Bool → Type 0
Picked target skip m best end =
    (end ≡ best) ⊎ ((r : Record) × IsVictim target skip m end.0 end.1 r × (end.2 ≡ true))

Picked-cons :
    (target : Target) (skip id : ℕ) (r : Record) (m : Map Record) (best end : ℕ × ℕ × Bool)
    → lookup id m ≡ none
    → Picked target skip m (pick_round target skip id r best) end
    → Picked target skip ((id, r) ∷ m) best end
unfolding lookup
Picked-cons target skip id r m best end fresh (inl e) =
    elim (pick_round_cases target skip id r best) [
      | inl same ↦ inl (e ∙ same)
      | inr (new, ok) ↦
          let f = e ∙ new in
          inr (
            r,
            record {
              stored = ground (arith, f);
              allowed = ground (arith, f);
              age = ground (arith, f);
            },
            ground (arith, f),
          )
    ]
Picked-cons target skip id r m (v, o, f) (v', o', f') fresh (inr (r', p, e)) = inr (
  r',
  record { stored = ground (arith, p.stored, ==→≡ id v'); allowed = p.allowed; age = p.age },
  e,
)

pick_scan-Picked :
    (target : Target) (skip : ℕ) (m : Map Record) (best : ℕ × ℕ × Bool)
    → Distinct m
    → Picked target skip m best (pick_scan target skip m best)
unfolding pick_scan
pick_scan-Picked target skip [] best d = inl refl
pick_scan-Picked target skip ((id, r) ∷ m) best d =
    Picked-cons target skip id r m best _ d.0
      (pick_scan-Picked target skip m (pick_round target skip id r best) d.1)

-- A victim exists, is not the skipped region, and is neither pinned nor referenced nor in transfer.
pub pick_lru-stored :
    (target : Target) (skip : ℕ) (m : Map Record) (now : ℕ)
    → Distinct m
    → (pick_lru target skip m now == 0) ≡ false
    → (r : Record) × (lookup (pick_lru target skip m now) m ≡ some r)
      × (eligible target skip (pick_lru target skip m now) r ≡ true)
unfolding pick_lru
pick_lru-stored target skip m now d h = elim (pick_scan-Picked target skip m (0, now, false) d) [
  | inl e ↦ absurd (ground (arith, e))
  | inr (r, p, e) ↦ (r, p.stored, p.allowed)
]

-- How far the scan has come: once something is found, later picks are only older.
abbrev Bounds : Target → ℕ → ℕ → Record → ℕ × ℕ × Bool → Type 0
Bounds target skip id r end =
    eligible target skip id r ≡ true → (end.2 ≡ true) × (end.1 ≤ r.last_used)

pick_scan_older :
    (target : Target) (skip : ℕ) (m : Map Record) (best : ℕ × ℕ × Bool)
    → best.2 ≡ true
    → ((pick_scan target skip m best).2 ≡ true) × ((pick_scan target skip m best).1 ≤ best.1)
unfolding pick_scan pick_round
pick_scan_older target skip [] best h = (h, omega arith)
pick_scan_older target skip ((id, r) ∷ m) (v, o, f) h =
    ground (arith, pick_scan_older target skip m (pick_round target skip id r (v, o, f)))

pick_scan-Bounds :
    (target : Target) (skip : ℕ) (m : Map Record) (best : ℕ × ℕ × Bool)
    → Each (λ id r. Bounds target skip id r (pick_scan target skip m best)) m
unfolding pick_scan pick_round eligible
pick_scan-Bounds target skip [] best = tt
pick_scan-Bounds target skip ((id, r) ∷ m) (v, o, f) = (
  λ h. ground (arith, pick_scan_older target skip m (pick_round target skip id r (v, o, f))),
  pick_scan-Bounds target skip m (pick_round target skip id r (v, o, f)),
)

-- In records with distinct keys, a victim other than 0 is stored and eligible (not the skipped id,
-- not pinned, referenced or in transfer, resident at the target), and no eligible record was last
-- used before it.
pub pick_lru-IsOldest :
    (target : Target) (skip : ℕ) (m : Map Record) (now : ℕ)
    → Distinct m
    → (pick_lru target skip m now == 0) ≡ false
    → (r : Record) × (lookup (pick_lru target skip m now) m ≡ some r)
      × (eligible target skip (pick_lru target skip m now) r ≡ true)
      × Each (λ id r'. eligible target skip id r' ≡ true → r.last_used ≤ r'.last_used) m
unfolding pick_lru
pick_lru-IsOldest target skip m now d h = elim (pick_scan-Picked target skip m (0, now, false) d) [
  | inl e ↦ absurd (ground (arith, e))
  | inr (r, p, e) ↦ (
    r,
    p.stored,
    p.allowed,
    Each-map _ _ (λ id r' b ok. omega (arith, p.age, (b ok).1)) m
        (pick_scan-Bounds target skip m (0, now, false)),
  )
]
