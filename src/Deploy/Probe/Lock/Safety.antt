-- ===== src/Deploy/Probe/Lock/Safety.antt =====
-- What the lock is for: one probe at a time, answers that are fresh, and few probes.
use nf_orchestrator.Prelude.{
  ℕ, ◌+◌, ◌*◌, ◌≤◌, ◌<◌, ◌≡◌, refl, ◌≢◌, ◌⊎◌, inl, inr, Bool, true, false, none, some, arith,
  Option, [], Bool-cases,
}
use nf_orchestrator.Host.{Host, Probe, State}
use nf_orchestrator.Deploy.Probe.Laws.{measure_lem}
use nf_orchestrator.Deploy.Probe.Lock.{
  Shared, Call, Pc, outside, waiting, entered, looking, launching, measuring, measured, stamped,
  returning, answered, is_usable, limit, Move, acquire, read, reuse, renew, launch, finish, stamp,
  store, release, leave, System, Reach,
}
use nf_orchestrator.Deploy.Probe.Lock.Invariant.{critical, shared_launches}
use nf_orchestrator.Deploy.Probe.Lock.Preserved.{Reach-Inv}

-- Whether a thread's kubectl runs.
abbrev pub probes : Pc → Bool
probes (measuring _) = true
probes _ = false

-- However the threads in `api_server_probe` are scheduled, and whatever kubectl comes to, two of
-- them never run their kubectl at the same time.
pub Reach-probes :
    (h : Host) (began : ℕ) (s : System)
    → Reach h began s
    → (i j : ℕ) → probes (s.pc i) ≡ true
    → probes (s.pc j) ≡ true
    → i ≡ j
Reach-probes h began s r i j a b =
    (Reach-Inv h 1 began (omega arith) r).unique i j (ground arith) (ground arith)

-- However the threads are scheduled, an answer that a call returns was kept at a time that, when the
-- call was made, was at most `max_age` past, and is never later than now: a call with a `max_age` of
-- zero gets an answer that was kept no earlier than the call was made.
pub Reach-fresh :
    (h : Host) (began : ℕ) (s : System)
    → Reach h began s
    → (i : ℕ) (c : Call) (at : ℕ) (p : Probe) → s.pc i ≡ answered c at p
    → (c.called_at ≤ at + c.max_age) × (at ≤ s.shared.now)
Reach-fresh h began s r i c at p e = rw e at ((Reach-Inv h 1 began (omega arith) r).fits i)

-- However many threads ask, and whatever kubectl comes to, the probes that are started for callers
-- that would have taken an answer of some age are in their number at most the time since the start,
-- measured in that age, and one more.
pub Reach-paced :
    (h : Host) (age began : ℕ) (s : System)
    → 0 < age
    → Reach h began s
    → began + shared_launches age s.shared.launched * age ≤ s.shared.now + age
Reach-paced h age began s pos r = (Reach-Inv h age began pos r).paced

-- How many steps a call has before it, at most.
abbrev steps_left : Pc → ℕ
steps_left outside = 0
steps_left (answered _ _ _) = 1
steps_left (returning _ _ _) = 2
steps_left (stamped _ _ _) = 3
steps_left (measured _ _) = 4
steps_left (measuring _) = 5
steps_left (launching _) = 6
steps_left (looking _ _) = 7
steps_left (entered _) = 8
steps_left (waiting _) = 9

-- A thread can go on, towards its return.
abbrev pub CanMove : Host → Shared → Pc → Type 0
CanMove h m p = (m' : Shared) × (p' : Pc) × Move h m p m' p' × (steps_left p' < steps_left p)

-- Some state of the process.
abbrev some_state : State
some_state = record {
  looks = 0;
  ran = [];
  probe = none;
  last_success = none;
  versions = none;
  deployments_total = [];
  repairs_total = [];
}

module _ (h : Host) (m : Shared) where
  looking-moves : (c : Call) (cached : Option (ℕ × Probe)) → CanMove h m (looking c cached)
  looking-moves c none = (_, _, renew (ground arith), omega arith)
  looking-moves c (some (at, p)) = elim (Bool-cases (is_usable m.now c.max_age (some (at, p)))) [
    | inl usable ↦ (_, _, reuse usable, omega arith)
    | inr old ↦ (_, _, renew old, omega arith)
  ]

  critical-moves : (q : Pc) → critical q ≡ true → CanMove h m q
  critical-moves (entered c) inside = (_, _, read, omega arith)
  critical-moves (looking c cached) inside = looking-moves c cached
  critical-moves (launching c) inside = (_, _, launch, omega arith)
  critical-moves (measuring c) inside =
      let (p, t, e, ran) = measure_lem h (limit h c.timeout) some_state in
      (_, measured c p, finish some_state (rw e refl), omega arith)
  critical-moves (measured c p) inside = (_, _, stamp, omega arith)
  critical-moves (stamped c at p) inside = (_, _, store, omega arith)
  critical-moves (returning c at p) inside = (_, _, release, omega arith)
  critical-moves q inside = absurd (ground arith)

  moves_or_waits : (q : Pc) → q ≢ outside → CanMove h m q ⊎ (m.locked ≡ true)
  moves_or_waits outside calling = absurd (calling refl)
  moves_or_waits (waiting c) calling = elim (Bool-cases m.locked) [
    | inl locked ↦ inr locked
    | inr free ↦ inl (_, _, acquire free, omega arith)
  ]
  moves_or_waits (answered c at p) calling = inl (_, _, leave, omega arith)
  moves_or_waits q calling = inl (critical-moves q (ground arith))

-- However the threads are scheduled, a thread that has called and not returned never waits for one
-- that is stuck: it can go on itself, or one that holds the lock can. Either step brings that
-- thread nearer its return, of which it is at most nine steps away.
pub Reach-moves :
    (h : Host) (began : ℕ) (s : System)
    → Reach h began s
    → (i : ℕ) → s.pc i ≢ outside
    → CanMove h s.shared (s.pc i)
      ⊎ ((j : ℕ) × (critical (s.pc j) ≡ true) × CanMove h s.shared (s.pc j))
Reach-moves h began s r i calling = elim (moves_or_waits h s.shared (s.pc i) calling) [
  | inl goes ↦ inl goes
  | inr locked ↦
      let (j, inside) = (Reach-Inv h 1 began (omega arith) r).owned locked in
      inr (j, inside, critical-moves h s.shared (s.pc j) inside)
]
