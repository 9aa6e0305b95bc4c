-- ===== src/Deploy/Probe/Lock/Turns.antt =====
-- From `api_server_probe`, as the rest of the model takes it, to a turn of the specification.
use nf_orchestrator.Prelude.{
  ℕ, suc, ◌-◌, ◌≤◌, ◌≡◌, refl, ◌∙◌, false, List, ◌∷◌, some, arith, leb, ltb, Bool-cases,
  Option-cases, inl, inr,
}
use nf_orchestrator.Errors.{ok}
use nf_orchestrator.Host.{Host, Probe, State, monotonic}
use nf_orchestrator.Deploy.Probe.{remeasure, api_server_probe}
use nf_orchestrator.Deploy.Probe.Laws.{measure_lem, measure-looks}
use nf_orchestrator.Deploy.Probe.Lock.{Call, is_usable, limit}
use nf_orchestrator.Deploy.Probe.Lock.Serial.{Serial, Turn, reused, renewed}

-- What a process's state says of the calls so far.
abbrev serial : Host → State → List (Call × ℕ × Probe) → Serial
serial h s log = record { now = h.clock s.looks; probe = s.probe; log = log }

-- A call of `api_server_probe` from a state, as a turn.
pub record Turned (h : Host) (c : Call) (s : State) (log : List (Call × ℕ × Probe)) : Type 0 where
  pub probe : Probe
  pub at : ℕ
  pub now : ℕ
  pub after : State
  pub ran : api_server_probe h c.max_age c.timeout s ≡ (ok probe, after)
  pub turn :
      Turn h
        (serial h s log)
        (record { now = now; probe = after.probe; log = (c, at, probe) ∷ log })
  pub back : now ≤ h.clock after.looks

module _ (h : Host) (c : Call) (s : State) (log : List (Call × ℕ × Probe))
    (forward : (i j : ℕ) → i ≤ j → h.clock i ≤ h.clock j)
    (early : c.called_at ≤ h.clock s.looks) where
  -- Behind the test of the kept answer.
  renewed_turn :
      (u : State)
      → s.looks ≤ u.looks
      → is_usable (h.clock s.looks) c.max_age s.probe ≡ false
      → api_server_probe h c.max_age c.timeout s ≡ remeasure h c.timeout u
      → Turned h c s log
  unfolding remeasure monotonic
  renewed_turn u on old falls =
      let (p, t, e, ran) = measure_lem h (limit h c.timeout) u in
      let looked : u.looks ≤ t.looks = rw e at (measure-looks h (limit h c.timeout) u) in
      record {
        probe = p;
        at = h.clock t.looks;
        now = h.clock t.looks;
        after = record t { looks = suc t.looks; probe = some (h.clock t.looks, p) };
        ran = falls ∙ rw e refl;
        turn =
            renewed (h.clock t.looks) u early old (rw e refl)
              (forward s.looks t.looks (omega arith));
        back = forward t.looks (suc t.looks) (omega arith);
      }

  -- Where the clock does not run backwards, `api_server_probe`, in a process in any state and at any
  -- time from its call on, answers, and is one turn of the calls made one after another: the turn
  -- begins with what the process has kept, logs the call with the answer, ends no later than the
  -- next look at the clock, and keeps what the process keeps.
  pub api_server_probe-Turn : Turned h c s log
  unfolding api_server_probe monotonic
  api_server_probe-Turn = elim (Option-cases s.probe) [
    | inl e ↦ renewed_turn s (omega arith) (ground arith) (ground arith)
    | inr ((at, p), e) ↦ elim (Bool-cases (ltb 0 c.max_age)) [
      | inl pos ↦ elim (Bool-cases (leb (h.clock s.looks - at) c.max_age)) [
        | inl fresh ↦ record {
          probe = p;
          at = at;
          now = h.clock s.looks;
          after = record s { looks = suc s.looks };
          ran = ground arith;
          turn = reused early e (ground arith);
          back = forward s.looks (suc s.looks) (omega arith);
        }
        | inr stale ↦
            renewed_turn (record s { looks = suc s.looks }) (omega arith) (ground arith)
              (ground arith)
      ]
      | inr never ↦ renewed_turn s (omega arith) (ground arith) (ground arith)
    ]
  ]
