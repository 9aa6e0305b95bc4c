-- ===== src/Deploy/Probe/Lock/Invariant.antt =====
-- What holds of the threads in `api_server_probe` and of what they share, at every time.
use nf_orchestrator.Prelude.{
  ℕ, ◌+◌, ◌*◌, ◌≤◌, ◌≡◌, Bool, true, false, List, Option, none, some, leb, option, length, keep,
}
use nf_orchestrator.Host.{Probe}
use nf_orchestrator.Deploy.Probe.Lock.{
  Shared, Pc, outside, waiting, entered, looking, launching, measuring, measured, stamped,
  returning, answered,
}

-- Between the lock and its release.
abbrev pub critical : Pc → Bool
critical outside = false
critical (waiting _) = false
critical (answered _ _ _) = false
critical _ = true

-- The probes started by callers that would have taken an answer of some age.
abbrev pub shared_launches : (age : ℕ) → List ℕ → ℕ
shared_launches age launched = length (keep (λ max_age. leb age max_age) launched)

module _ (age began : ℕ) where
  -- From the start to some time, such probes are at least their age apart.
  abbrev pub Paced : List ℕ → (at : ℕ) → Type 0
  Paced launched at = began + shared_launches age launched * age ≤ at

  -- The same of the kept answer, while no thread is about to replace it.
  abbrev pub Kept : (launched : List ℕ) → Option (ℕ × Probe) → Type 0
  Kept launched none = shared_launches age launched ≡ 0
  Kept launched (some (at, p)) = Paced launched (at + age)

  -- What the local variables of a thread say of what is shared.
  abbrev pub Fits : (now : ℕ) → Option (ℕ × Probe) → List ℕ → Pc → Type 0
  Fits now probe launched outside = Unit
  Fits now probe launched (waiting c) = c.called_at ≤ now
  Fits now probe launched (entered c) = (c.called_at ≤ now) × Kept launched probe
  Fits now probe launched (looking c cached) =
      (c.called_at ≤ now) × (cached ≡ probe) × Kept launched probe
  Fits now probe launched (launching c) =
      (c.called_at ≤ now) × (age ≤ c.max_age → Paced launched now)
  Fits now probe launched (measuring c) = (c.called_at ≤ now)
  Fits now probe launched (measured c p) = (c.called_at ≤ now)
  Fits now probe launched (stamped c at p) =
      (c.called_at ≤ at) × (at ≤ now) × Paced launched (at + age)
  Fits now probe launched (returning c at p) =
      (c.called_at ≤ at + c.max_age) × (at ≤ now) × Kept launched probe
  Fits now probe launched (answered c at p) = (c.called_at ≤ at + c.max_age) × (at ≤ now)

  pub record Inv (m : Shared) (pc : ℕ → Pc) : Type 0 where
    pub unique : (i j : ℕ) → critical (pc i) ≡ true → critical (pc j) ≡ true → i ≡ j
    pub held : (i : ℕ) → critical (pc i) ≡ true → m.locked ≡ true
    pub owned : m.locked ≡ true → (i : ℕ) × (critical (pc i) ≡ true)
    pub fits : (i : ℕ) → Fits m.now m.probe m.launched (pc i)
    pub free : m.locked ≡ false → Kept m.launched m.probe
    pub past : option (began ≤ m.now) (λ (at, p). at ≤ m.now) m.probe
    pub paced : Paced m.launched (m.now + age)
    pub begun : began ≤ m.now
