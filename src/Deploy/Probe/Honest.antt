-- ===== src/Deploy/Probe/Honest.antt =====
-- What the cached probe says of this host's failure to start kubectl is one of the two kinds that
-- `spawn_failure` knows, whatever was measured and whenever.
use nf_orchestrator.Prelude.{ℕ, suc, ◌≡◌, refl, true, Option, none, some, arith, option}
use nf_orchestrator.Text.{Text}
use nf_orchestrator.Errors.{OsError, Result, ok, err, spawn_failure}
use nf_orchestrator.Deploy.Tools.{kubectl}
use nf_orchestrator.Host.{
  Host, Probe, State, Outcome, finished, timed_out, not_started, day_time, monotonic, run_process,
}
use nf_orchestrator.Host.Keeps.{is_spawn_kind, is_honest, HasHonestCache}
use nf_orchestrator.Deploy.Probe.{
  note_success, conclude, measure_probe, remeasure, api_server_probe, settled_probe,
}

-- A call that leaves an honest cache, and returns an honest probe.
abbrev pub ReturnsHonest : Result Probe × State → Type 0
ReturnsHonest (ok p, t) = (is_honest p ≡ true) × HasHonestCache t
ReturnsHonest (err _, t) = ⊥

spawn_failure-kind :
    (tool : Text) (e : OsError)
    → option true (λ x. is_spawn_kind x.kind) (spawn_failure tool e) ≡ true
unfolding spawn_failure
spawn_failure-kind tool e = ground arith

conclude-honest :
    (h : Host) (spawned began : ℕ) (o : Outcome) (s : State)
    → HasHonestCache s
    → ReturnsHonest (conclude h spawned began o s)
unfolding conclude note_success monotonic
conclude-honest h spawned began (timed_out partial) s c = (refl, c)
conclude-honest h spawned began (not_started e) s c = ground (arith, spawn_failure-kind kubectl e)
conclude-honest h spawned began (finished code stdout stderr) s c = ground arith

pub measure-honest :
    (h : Host) (timeout : ℕ) (s : State)
    → HasHonestCache s
    → ReturnsHonest (measure_probe h timeout s)
unfolding measure_probe day_time monotonic run_process
measure-honest h timeout s c = conclude-honest h _ _ (h.answer (suc (suc s.looks)) _ timeout) _ c

remeasure-honest :
    (h : Host) (timeout : Option ℕ) (s : State)
    → HasHonestCache s
    → ReturnsHonest (remeasure h timeout s)
unfolding remeasure monotonic
remeasure-honest h timeout s c =
    ground
      (arith, measure-honest h (elim timeout [ none ↦ h.config.probe_timeout | some t ↦ t ]) s c)

pub api_server_probe-honest :
    (h : Host) (max_age : ℕ) (timeout : Option ℕ) (s : State)
    → HasHonestCache s
    → ReturnsHonest (api_server_probe h max_age timeout s)
unfolding api_server_probe monotonic
api_server_probe-honest h max_age timeout s c = ground (
  arith,
  remeasure-honest h timeout s c,
  remeasure-honest h timeout (record s { looks = suc s.looks }) c,
)

pub settled_probe-honest :
    (h : Host) (s : State) → HasHonestCache s → ReturnsHonest (settled_probe h s)
unfolding settled_probe
settled_probe-honest h s c = ground (
  arith,
  api_server_probe-honest h h.config.probe_ttl none s c,
  api_server_probe-honest h 0 (some h.config.escalated_probe_timeout)
      (api_server_probe h h.config.probe_ttl none s).1,
)
