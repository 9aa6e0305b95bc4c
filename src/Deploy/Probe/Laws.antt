-- ===== src/Deploy/Probe/Laws.antt =====
-- The readiness probe: it always answers, and its cache spares the processes it is meant to spare.
use nf_orchestrator.Prelude.{
  ℕ, suc, ◌+◌, ◌-◌, ◌≤◌, ◌≡◌, ◌⊎◌, refl, inl, inr, Bool, true, false, ◌∷◌, Option, none, some,
  arith, length, leb, ltb, ◌==◌, ◌&&◌, option, if◌then◌else◌, Bool-cases, Option-cases,
}
use nf_orchestrator.Errors.{ok}
use nf_orchestrator.Host.{
  Host, Probe, State, Outcome, finished, timed_out, not_started, day_time, monotonic, run_process,
}
use nf_orchestrator.Deploy.Probe.{
  local_seconds, note_success, conclude, probe_command, measure_probe, remeasure, api_server_probe,
  settled_probe,
}

conclude_lem :
    (h : Host) (spawned began : ℕ) (o : Outcome) (s : State)
    → (p : Probe) × (t : State) × (conclude h spawned began o s ≡ (ok p, t)) × (t.ran ≡ s.ran)
unfolding conclude note_success monotonic
conclude_lem h spawned began (timed_out partial) s = (_, _, refl, refl)
conclude_lem h spawned began (not_started e) s = (_, _, refl, refl)
conclude_lem h spawned began (finished code stdout stderr) s = elim (Bool-cases (code == 0)) [
  | inl e ↦ rw (e, conclude) (_, _, refl, refl)
  | inr e ↦ rw (e, conclude) (_, _, refl, refl)
]

pub measure_lem :
    (h : Host) (timeout : ℕ) (s : State)
    → (p : Probe) × (t : State) × (measure_probe h timeout s ≡ (ok p, t))
      × (t.ran ≡ probe_command h ∷ s.ran)
unfolding measure_probe day_time monotonic run_process
measure_lem h timeout s =
    conclude_lem h (h.day_clock s.looks) (h.clock (suc s.looks))
      (h.answer (suc (suc s.looks)) (probe_command h) timeout)
      (record s { looks = suc (suc (suc s.looks)); ran = probe_command h ∷ s.ran })

conclude-looks :
    (h : Host) (spawned began : ℕ) (o : Outcome) (s : State)
    → s.looks ≤ (conclude h spawned began o s).1.looks
unfolding conclude note_success monotonic
conclude-looks h spawned began (timed_out partial) s = omega arith
conclude-looks h spawned began (not_started e) s = omega arith
conclude-looks h spawned began (finished code stdout stderr) s = elim (Bool-cases (code == 0)) [
  | inl e ↦ rw (e, conclude) (omega arith)
  | inr e ↦ rw (e, conclude) (omega arith)
]

-- The looks at the machine go on behind a measurement.
pub measure-looks :
    (h : Host) (timeout : ℕ) (s : State) → s.looks ≤ (measure_probe h timeout s).1.looks
unfolding measure_probe day_time monotonic run_process
measure-looks h timeout s = omega (
  arith,
  conclude-looks h (h.day_clock s.looks) (h.clock (suc s.looks))
      (h.answer (suc (suc s.looks)) (probe_command h) timeout)
      (record s { looks = suc (suc (suc s.looks)); ran = probe_command h ∷ s.ran }),
)

-- A fresh measurement never raises, starts the one process and is kept with the time it was made.
remeasure_lem :
    (h : Host) (timeout : Option ℕ) (s : State)
    → (p : Probe) × (at : ℕ) × (t : State) × (remeasure h timeout s ≡ (ok p, t))
      × (t.ran ≡ probe_command h ∷ s.ran)
      × (t.probe ≡ some (at, p))
unfolding remeasure monotonic
remeasure_lem h timeout s =
    let (p, t, e, ran) =
      measure_lem h (elim timeout [ none ↦ h.config.probe_timeout | some t ↦ t ]) s in
    rw e (p, h.clock t.looks, _, refl, ran, refl)

-- Whether `api_server_probe` may answer from the cache.
abbrev is_fresh : Host → (max_age : ℕ) → State → Bool
is_fresh h max_age s =
    ltb 0 max_age && option false (λ (at, _). leb (h.clock s.looks - at) max_age) s.probe

-- The answer of `api_server_probe` is there in every case, and is what the cache holds then. A
-- cached answer that is not older than `max_age` is reused with no process; otherwise one process
-- is started, also when `max_age` is 0.
pub api_server_probe_lem :
    (h : Host) (max_age : ℕ) (timeout : Option ℕ) (s : State)
    → (p : Probe) × (at : ℕ) × (t : State) × (api_server_probe h max_age timeout s ≡ (ok p, t))
      × (t.probe ≡ some (at, p))
      × (t.ran ≡ (if is_fresh h max_age s then s.ran else probe_command h ∷ s.ran))
unfolding api_server_probe monotonic
api_server_probe_lem h max_age timeout s = elim (Option-cases s.probe) [
  | inl e ↦
      let (p, at, t, r, ran, kept) = remeasure_lem h timeout s in
      (p, at, t, ground arith, kept, ground arith)
  | inr ((at, p), e) ↦ elim (Bool-cases (ltb 0 max_age)) [
    | inl pos ↦ elim (Bool-cases (leb (h.clock s.looks - at) max_age)) [
      | inl fresh ↦ (p, at, record s { looks = suc s.looks }, ground arith, e, ground arith)
      | inr stale ↦
          let (q, at', t, r, ran, kept) =
            remeasure_lem h timeout (record s { looks = suc s.looks }) in
          (q, at', t, ground arith, kept, ground arith)
    ]
    | inr now ↦
        let (q, at', t, r, ran, kept) = remeasure_lem h timeout s in
        (q, at', t, ground arith, kept, ground arith)
  ]
]

-- Asking for a settled answer never raises and starts at most two processes; where the answer is
-- of a probe that never started, it is one that was measured just now, behind a first answer.
pub settled_probe_lem :
    (h : Host) (s : State)
    → (p : Probe) × (t : State) × (settled_probe h s ≡ (ok p, t))
      × (length t.ran ≤ length s.ran + 2)
      × ((p.started ≡ true)
          ⊎ (t.ran ≡ probe_command h ∷ (api_server_probe h h.config.probe_ttl none s).1.ran))
unfolding settled_probe
settled_probe_lem h s =
    let (p, at, t, e, kept, ran) = api_server_probe_lem h h.config.probe_ttl none s in
    let (q, at', u, e', kept', ran') =
      api_server_probe_lem h 0 (some h.config.escalated_probe_timeout) t in
    elim (Bool-cases p.started) [
      | inl started ↦ (p, t, ground arith, ground arith, inl started)
      | inr never ↦ (q, u, ground arith, ground arith, inr (ground arith))
    ]

-- Where the round trip fits in the probe's wall time, the two parts of a probe make up the whole.
local_seconds_split :
    (p : Probe) (rt local : ℕ)
    → p.round_trip ≡ some rt
    → rt ≤ p.seconds
    → local_seconds p ≡ some local
    → local + rt ≡ p.seconds
unfolding local_seconds
local_seconds_split p rt local e le l = ground arith
