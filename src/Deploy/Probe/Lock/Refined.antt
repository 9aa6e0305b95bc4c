-- ===== src/Deploy/Probe/Lock/Refined.antt =====
-- From what the threads reach to calls made one after another.
use nf_orchestrator.Prelude.{
  ℕ, ◌≤◌, ◌≡◌, refl, true, false, [], none, arith, Bool-cases, inl, inr, ◌==◌,
}
use nf_orchestrator.Host.{Host}
use nf_orchestrator.Deploy.Probe.Lock.{
  Shared, Call, Pc, outside, waiting, entered, looking, launching, measuring, measured, stamped,
  returning, answered, is_usable, limit, Move, call, acquire, read, reuse, renew, launch, finish,
  stamp, store, release, leave, System, set_pc, Step, pick, tick, Reach,
}
use nf_orchestrator.Deploy.Probe.Lock as Lock
use nf_orchestrator.Deploy.Probe.Lock.Invariant.{critical}
use nf_orchestrator.Deploy.Probe.Lock.Moves.{Move-now, Move-outside}
use nf_orchestrator.Deploy.Probe.Lock.Preserved.{Reach-Inv, set_pc-cases}
use nf_orchestrator.Deploy.Probe.Lock.Linked.{
  Logged, Linked, Linked-Logged, Linked-tick, Follows, Moved, Move-Moved, Grown-outside,
  Linked-outside,
}
use nf_orchestrator.Deploy.Probe.Lock.Serial.{Serial, Serially, start}

module _ (h : Host) where
  record Simulated (began : ℕ) (s : System) (t : Serial) : Type 0 where
    follows : Follows h began s.shared.now s.shared.probe t
    linked : (i : ℕ) → Linked h s.shared.now s.shared.probe t (s.pc i)

  module _ (began : ℕ) (s : System) (r : Reach h began s) (t : Serial) (sim : Simulated began s t)
      (i : ℕ) {m : Shared} {p : Pc} (mv : Move h s.shared (s.pc i) m p) where
    moved : Moved h began m.now m.probe t (critical (s.pc i)) p
    moved =
        Move-Moved h began t mv ((Reach-Inv h 1 began (omega arith) r).fits i) (sim.linked i)
          sim.follows

    waits : (j : ℕ) → (i == j) ≡ false → critical (s.pc j) ≡ true → critical (s.pc i) ≡ false
    waits j other inside = elim (Bool-cases (critical (s.pc i))) [
      | inl there ↦
          absurd (ground (arith, (Reach-Inv h 1 began (omega arith) r).unique i j there inside))
      | inr away ↦ away
    ]

    -- What is known of another thread outlasts the step.
    Linked-other : (j : ℕ) → (i == j) ≡ false → Linked h m.now m.probe moved.after (s.pc j)
    Linked-other j other = elim (Bool-cases (critical (s.pc j))) [
      | inl inside ↦
          let out = waits j other inside in
          rw (Grown-outside h moved.grown out, Move-now h mv, (Move-outside h mv out).0)
            (sim.linked j)
      | inr out ↦ Linked-outside h _ _ _ _ (s.pc j) out moved.grown (sim.linked j)
    ]

    pick-Simulated : Simulated began (record { shared = m; pc = set_pc s.pc i p }) moved.after
    pick-Simulated = record {
      follows = moved.follows;
      linked = λ j. elim (set_pc-cases s.pc i p j) [
        | inl (same, u) ↦ rw u moved.linked
        | inr (other, u) ↦ rw u (Linked-other j other)
      ];
    }

  Step-Simulated :
      (began : ℕ) {s s' : System} (t : Serial)
      → Reach h began s
      → Simulated began s t
      → Step h s s'
      → (t' : Serial) × Simulated began s' t'
  Step-Simulated began {s} t r sim (pick i mv) =
      ((moved began s r t sim i mv).after, pick-Simulated began s r t sim i mv)
  Step-Simulated began {s} t r sim (tick d) = (
    t,
    record {
      follows = record {
        run = sim.follows.run;
        behind = omega (arith, sim.follows.behind);
        same = sim.follows.same;
      };
      linked = λ i. Linked-tick h s.shared.now d s.shared.probe t (s.pc i) (sim.linked i);
    },
  )

  Reach-Simulated : (began : ℕ) {s : System} → Reach h began s → (t : Serial) × Simulated began s t
  Reach-Simulated began Lock.start = (
    record { now = began; probe = none; log = [] },
    record {
      follows = record { run = start; behind = omega arith; same = refl };
      linked = λ i. tt;
    },
  )
  Reach-Simulated began (Lock.later r step) =
      let (t, sim) = Reach-Simulated began r in Step-Simulated began t r sim step

-- However the threads in `api_server_probe` are scheduled, and whatever kubectl comes to, their calls
-- are as if made one after another: some sequence of whole calls, which ends no later than now, leads
-- to the same kept answer, each of them answered as `api_server_probe` does from what those before
-- it kept and begun no earlier than its call, and it holds the call of every thread that has an
-- answer, with that answer.
pub Reach-Serially :
    (h : Host) (began : ℕ) (s : System)
    → Reach h began s
    → (t : Serial) × Serially h began t
      × (t.probe ≡ s.shared.probe)
      × (t.now ≤ s.shared.now)
      × ((i : ℕ) → Logged t.log (s.pc i))
Reach-Serially h began s r =
    let (t, sim) = Reach-Simulated h began r in
    (
      t,
      sim.follows.run,
      sim.follows.same,
      sim.follows.behind,
      λ i. Linked-Logged h s.shared.now s.shared.probe t (s.pc i) (sim.linked i),
    )
