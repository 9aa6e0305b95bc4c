-- ===== src/Deploy/Probe/Lock/Preserved.antt =====
-- The invariant holds at the start and behind every step.
use nf_orchestrator.Prelude.{
  ℕ, ◌+◌, ◌≤◌, ◌<◌, ◌≡◌, refl, ◌⊎◌, inl, inr, true, false, List, Option, none, some, arith, ◌==◌,
  option, Bool-cases, ==_iff,
}
use nf_orchestrator.Host.{Host, Probe}
use nf_orchestrator.Deploy.Probe.Lock.{
  Shared, Pc, outside, waiting, entered, looking, launching, measuring, measured, stamped,
  returning, answered, Move, System, set_pc, Step, pick, tick, initial, Reach, start, later,
}
use nf_orchestrator.Deploy.Probe.Lock.Invariant.{critical, Fits, Inv}
use nf_orchestrator.Deploy.Probe.Lock.Moves.{
  Move-locked, Move-now, Move-outside, Fits-outside, Move-Fits, Move-shared,
}

pub set_pc-cases :
    (pc : ℕ → Pc) (i : ℕ) (p : Pc) (j : ℕ)
    → ((i ≡ j) × (set_pc pc i p j ≡ p)) ⊎ (((i == j) ≡ false) × (set_pc pc i p j ≡ pc j))
set_pc-cases pc i p j = elim (Bool-cases (i == j)) [
  | inl same ↦ inl ((==_iff i j).0 same, rw (same) refl)
  | inr other ↦ inr (other, rw (other) refl)
]

module _ (age began : ℕ) where
  initial-Inv : Inv age began (initial began).shared (initial began).pc
  initial-Inv = record {
    unique = λ i j p q. absurd (ground arith);
    held = λ i p. absurd (ground arith);
    owned = λ l. absurd (ground arith);
    fits = λ i. tt;
    free = λ f. refl;
    past = omega arith;
    paced = omega arith;
    begun = omega arith;
  }

module _ (h : Host) (age began : ℕ) (pos : 0 < age) where
  -- Another thread's facts outlast a step.
  Fits-other :
      {m m' : Shared} {p p' : Pc} (q : Pc)
      → Move h m p m' p'
      → (critical p ≡ true → critical q ≡ false)
      → Fits age began m.now m.probe m.launched q
      → Fits age began m'.now m'.probe m'.launched q
  Fits-other {m} {m'} {p} q mv alone fits = elim (Bool-cases (critical p)) [
    | inl inside ↦ rw (Move-now h mv) (
        Fits-outside h age began m.now m.probe m'.probe m.launched m'.launched q (alone inside)
          fits)
    | inr out ↦
        let (same, as_many) = Move-outside h mv out in rw (Move-now h mv, same, as_many) fits
  ]

  module _ (m : Shared) (pc : ℕ → Pc) (i : ℕ) {m' : Shared} {p p' : Pc} (mv : Move h m p m' p')
      (e : pc i ≡ p) (inv : Inv age began m pc) where
    -- A thread behind the step that is inside was inside, or has just taken a lock that was free.
    inside_before :
        (j : ℕ)
        → critical (set_pc pc i p' j) ≡ true
        → (critical (pc j) ≡ true) ⊎ ((i ≡ j) × (m.locked ≡ false))
    inside_before j inside = elim (set_pc-cases pc i p' j) [
      | inl (same, u) ↦ ground (arith, Move-locked h mv)
      | inr (other, u) ↦ inl (rw (← u) inside)
    ]

    alone : (j : ℕ) → (i == j) ≡ false → critical p ≡ true → critical (pc j) ≡ false
    alone j other inside = elim (Bool-cases (critical (pc j))) [
      | inl there ↦ absurd (ground (arith, inv.unique i j (rw e inside) there))
      | inr away ↦ away
    ]

    Move-unique :
        (j k : ℕ) → critical (set_pc pc i p' j) ≡ true → critical (set_pc pc i p' k) ≡ true → j ≡ k
    Move-unique j k a b =
        ground (arith, inside_before j a, inside_before k b, inv.unique j k, inv.held j, inv.held k)

    Fits-set_pc : (j : ℕ) → Fits age began m'.now m'.probe m'.launched (set_pc pc i p' j)
    Fits-set_pc j = elim (set_pc-cases pc i p' j) [
      | inl (same, u) ↦ rw u (
          Move-Fits h age began pos mv (rw e at (inv.fits i)) inv.free inv.past inv.paced inv.begun)
      | inr (other, u) ↦ rw u (Fits-other (pc j) mv (alone j other) (inv.fits j))
    ]

    own : set_pc pc i p' i ≡ p'
    own = elim (set_pc-cases pc i p' i) [
      | inl (same, u) ↦ u
      | inr (other, u) ↦ absurd (ground arith)
    ]

    Move-held : (j : ℕ) → critical (set_pc pc i p' j) ≡ true → m'.locked ≡ true
    Move-held j inside = elim (set_pc-cases pc i p' j) [
      | inl (same, u) ↦ ground (arith, Move-locked h mv, inv.held i)
      | inr (other, u) ↦ ground (arith, Move-locked h mv, inv.held j, alone j other)
    ]

    Move-owned : m'.locked ≡ true → (j : ℕ) × (critical (set_pc pc i p' j) ≡ true)
    Move-owned locked = elim (Move-locked h mv) [
      | inl (same, kept) ↦
          let (j, inside) = inv.owned (rw (← kept) locked) in
          (
            j,
            elim (set_pc-cases pc i p' j) [
              | inl (own_step, u) ↦ ground arith
              | inr (other, u) ↦ ground arith
            ],
          )
      | inr (inl (out, inside, was_free, now_locked)) ↦ (i, ground (arith, own))
      | inr (inr (inside, out, now_free)) ↦ absurd (ground arith)
    ]

    Move-Inv : Inv age began m' (set_pc pc i p')
    Move-Inv =
        let (free, past, paced) =
          Move-shared h age began mv (rw e at (inv.fits i)) (λ c. inv.held i (rw e c)) inv.free
            inv.past inv.paced in
        record {
          unique = Move-unique;
          held = Move-held;
          owned = Move-owned;
          fits = Fits-set_pc;
          free = free;
          past = past;
          paced = paced;
          begun = rw (Move-now h mv) inv.begun;
        }

  -- Time passes.
  Fits-tick :
      (now d : ℕ) (probe : Option (ℕ × Probe)) (launched : List ℕ) (q : Pc)
      → Fits age began now probe launched q
      → Fits age began (now + d) probe launched q
  Fits-tick now d probe launched outside fits = fits
  Fits-tick now d probe launched (waiting c) fits = omega arith
  Fits-tick now d probe launched (entered c) (early, kept) = (omega arith, kept)
  Fits-tick now d probe launched (looking c cached) (early, same, kept) = (omega arith, same, kept)
  Fits-tick now d probe launched (launching c) (early, apart) =
      (omega arith, λ wide. omega (arith, apart wide))
  Fits-tick now d probe launched (measuring c) fits = omega arith
  Fits-tick now d probe launched (measured c p) fits = omega arith
  Fits-tick now d probe launched (stamped c at p) (early, back, apart) = (early, omega arith, apart)
  Fits-tick now d probe launched (returning c at p) (early, back, kept) = (early, omega arith, kept)
  Fits-tick now d probe launched (answered c at p) (early, back) = (early, omega arith)

  past-tick :
      (now d : ℕ) (probe : Option (ℕ × Probe))
      → option (began ≤ now) (λ (at, p). at ≤ now) probe
      → option (began ≤ now + d) (λ (at, p). at ≤ now + d) probe
  past-tick now d none past = omega arith
  past-tick now d (some (at, p)) past = omega arith

  -- Every step keeps the invariant.
  Step-Inv : {s t : System} → Step h s t → Inv age began s.shared s.pc → Inv age began t.shared t.pc
  Step-Inv {s} (pick i mv) inv = Move-Inv s.shared s.pc i mv refl inv
  Step-Inv {s} (tick d) inv = record {
    unique = inv.unique;
    held = inv.held;
    owned = inv.owned;
    free = inv.free;
    fits = λ j. Fits-tick s.shared.now d s.shared.probe s.shared.launched (s.pc j) (inv.fits j);
    past = past-tick s.shared.now d s.shared.probe inv.past;
    paced = omega (arith, inv.paced);
    begun = omega (arith, inv.begun);
  }

  pub Reach-Inv : {s : System} → Reach h began s → Inv age began s.shared s.pc
  Reach-Inv start = initial-Inv age began
  Reach-Inv (later r st) = Step-Inv st (Reach-Inv r)
