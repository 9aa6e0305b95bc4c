-- ===== src/Deploy/Probe/Lock/Moves.antt =====
-- What one step of a thread does to the invariant.
use nf_orchestrator.Prelude.{
  ℕ, ◌+◌, ◌*◌, ◌≤◌, ◌<◌, ◌≡◌, refl, ◌⊎◌, inl, inr, true, false, List, ◌∷◌, Option, none, some,
  arith, leb, option, if◌then◌else◌, Bool-cases,
}
use nf_orchestrator.Host.{Host, Probe}
use nf_orchestrator.Deploy.Probe.Lock.{
  Shared, Call, Pc, outside, waiting, answered, is_usable, Move, call, acquire, read, reuse, renew,
  launch, finish, stamp, store, release, leave,
}
use nf_orchestrator.Deploy.Probe.Lock.Invariant.{critical, shared_launches, Paced, Kept, Fits}

module _ (h : Host) where
  -- A step goes on as it was, takes the lock or gives it back.
  pub Move-locked :
      {m m' : Shared} {p p' : Pc}
      → Move h m p m' p'
      → ((critical p' ≡ critical p) × (m'.locked ≡ m.locked))
        ⊎ (((critical p ≡ false) × (critical p' ≡ true) × (m.locked ≡ false) × (m'.locked ≡ true))
            ⊎ ((critical p ≡ true) × (critical p' ≡ false) × (m'.locked ≡ false)))
  Move-locked (call max_age timeout) = inl (refl, refl)
  Move-locked (acquire unlocked) = inr (inl (refl, refl, unlocked, refl))
  Move-locked read = inl (refl, refl)
  Move-locked (reuse usable) = inl (refl, refl)
  Move-locked (renew old) = inl (refl, refl)
  Move-locked launch = inl (refl, refl)
  Move-locked (finish s e) = inl (refl, refl)
  Move-locked stamp = inl (refl, refl)
  Move-locked store = inl (refl, refl)
  Move-locked release = inr (inr (refl, refl, refl))
  Move-locked leave = inl (refl, refl)

  pub Move-now : {m m' : Shared} {p p' : Pc} → Move h m p m' p' → m'.now ≡ m.now
  Move-now (call max_age timeout) = refl
  Move-now (acquire unlocked) = refl
  Move-now read = refl
  Move-now (reuse usable) = refl
  Move-now (renew old) = refl
  Move-now launch = refl
  Move-now (finish s e) = refl
  Move-now stamp = refl
  Move-now store = refl
  Move-now release = refl
  Move-now leave = refl

  -- A thread without the lock changes neither the kept answer nor what was started.
  pub Move-outside :
      {m m' : Shared} {p p' : Pc}
      → Move h m p m' p'
      → critical p ≡ false
      → (m'.probe ≡ m.probe) × (m'.launched ≡ m.launched)
  Move-outside (call max_age timeout) f = (refl, refl)
  Move-outside (acquire unlocked) f = (refl, refl)
  Move-outside leave f = (refl, refl)
  Move-outside mv f = absurd (ground arith)

shared_launches-cons :
    (age max_age : ℕ) (launched : List ℕ)
    → shared_launches age (max_age ∷ launched) * age ≡ (
        if leb age max_age
        then shared_launches age launched * age + age
        else shared_launches age launched * age)
shared_launches-cons age max_age launched = elim (Bool-cases (leb age max_age)) [
  | inl yes' ↦ rw (yes') (omega arith)
  | inr no' ↦ rw (no') refl
]

-- What the test of the kept answer says, either way.
usable_lem :
    (began now : ℕ) (c : Call) (at : ℕ) (p : Probe) (probe : Option (ℕ × Probe))
    → is_usable now c.max_age (some (at, p)) ≡ true
    → some (at, p) ≡ probe
    → c.called_at ≤ now
    → option (began ≤ now) (λ (at, p). at ≤ now) probe
    → (c.called_at ≤ at + c.max_age) × (at ≤ now)
usable_lem began now c at p none usable same early past = absurd (ground arith)
usable_lem began now c at p (some (at', p')) usable same early past = ground arith

unusable_lem :
    (age began now max_age : ℕ) (launched : List ℕ) (probe : Option (ℕ × Probe))
    → 0 < age
    → is_usable now max_age probe ≡ false
    → Kept age began launched probe
    → began ≤ now
    → age ≤ max_age
    → Paced age began launched now
unusable_lem age began now max_age launched none pos old kept begun wide = rw (kept) (omega arith)
unusable_lem age began now max_age launched (some (at, p)) pos old kept begun wide = ground arith

module _ (h : Host) (age began : ℕ) where
  pub Fits-outside :
      (now : ℕ) (probe probe' : Option (ℕ × Probe)) (launched launched' : List ℕ) (q : Pc)
      → critical q ≡ false
      → Fits age began now probe launched q
      → Fits age began now probe' launched' q
  Fits-outside now probe probe' launched launched' outside f fits = fits
  Fits-outside now probe probe' launched launched' (waiting c) f fits = fits
  Fits-outside now probe probe' launched launched' (answered c at p) f fits = fits
  Fits-outside now probe probe' launched launched' q f fits = absurd (ground arith)

  -- A thread's own step.
  pub Move-Fits :
      {m m' : Shared} {p p' : Pc}
      → 0 < age
      → Move h m p m' p'
      → Fits age began m.now m.probe m.launched p
      → (m.locked ≡ false → Kept age began m.launched m.probe)
      → option (began ≤ m.now) (λ (at, p). at ≤ m.now) m.probe
      → Paced age began m.launched (m.now + age)
      → began ≤ m.now
      → Fits age began m'.now m'.probe m'.launched p'
  Move-Fits pos (call max_age timeout) fits free past paced begun = omega arith
  Move-Fits pos (acquire unlocked) fits free past paced begun = (fits, free unlocked)
  Move-Fits pos read (early, kept) free past paced begun = (early, refl, kept)
  Move-Fits {m} pos (reuse {c} {at} {p} usable) (early, same, kept) free past paced begun =
      let (fresh, back) = usable_lem began m.now c at p m.probe usable same early past in
      (fresh, back, kept)
  Move-Fits {m} pos (renew {c} old) (early, same, kept) free past paced begun = (
    early,
    unusable_lem age began m.now c.max_age m.launched m.probe pos (rw same at old) kept begun,
  )
  Move-Fits pos launch (early, apart) free past paced begun = early
  Move-Fits pos (finish s e) fits free past paced begun = fits
  Move-Fits pos stamp fits free past paced begun = (fits, omega arith, paced)
  Move-Fits pos store (early, back, apart) free past paced begun = (omega arith, back, apart)
  Move-Fits pos release (early, back, kept) free past paced begun = (early, back)
  Move-Fits pos leave fits free past paced begun = tt

  -- What is shared behind a step.
  pub Move-shared :
      {m m' : Shared} {p p' : Pc}
      → Move h m p m' p'
      → Fits age began m.now m.probe m.launched p
      → (critical p ≡ true → m.locked ≡ true)
      → (m.locked ≡ false → Kept age began m.launched m.probe)
      → option (began ≤ m.now) (λ (at, p). at ≤ m.now) m.probe
      → Paced age began m.launched (m.now + age)
      → (m'.locked ≡ false → Kept age began m'.launched m'.probe)
        × option (began ≤ m'.now) (λ (at, p). at ≤ m'.now) m'.probe
        × Paced age began m'.launched (m'.now + age)
  Move-shared {m} (launch {c}) (early, apart) held free past paced = (
    λ f. absurd (ground (arith, held refl)),
    past,
    ground (arith, shared_launches-cons age c.max_age m.launched),
  )
  Move-shared store (early, back, apart) held free past paced =
      (λ f. absurd (ground (arith, held refl)), back, paced)
  Move-shared release (early, back, kept) held free past paced = (λ f. kept, past, paced)
  Move-shared (acquire unlocked) fits held free past paced =
      (λ f. absurd (ground arith), past, paced)
  Move-shared (call max_age timeout) fits held free past paced = (free, past, paced)
  Move-shared read fits held free past paced = (free, past, paced)
  Move-shared (reuse usable) fits held free past paced = (free, past, paced)
  Move-shared (renew old) fits held free past paced = (free, past, paced)
  Move-shared (finish s e) fits held free past paced = (free, past, paced)
  Move-shared stamp fits held free past paced = (free, past, paced)
  Move-shared leave fits held free past paced = (free, past, paced)
