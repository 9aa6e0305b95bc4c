-- ===== src/Deploy/Probe/Keeps.antt =====
-- Probing runs the probe's own command only, and puts an honest probe into the cache.
use nf_orchestrator.Prelude.{ℕ, ◌≡◌, Bool, true, Option, none, some}
use nf_orchestrator.Errors.{Result, ok, err}
use nf_orchestrator.Host.{
  Host, Probe, State, Command, Outcome, finished, proceed, modify, pure, monotonic, ◌>>=◌, ◌>>◌,
}
use nf_orchestrator.Host.Keeps.{HasHonestCache, Kept, Keeps, keeps_rules}
use nf_orchestrator.Deploy.Probe.Honest.{ReturnsHonest, measure-honest}
use nf_orchestrator.Deploy.Probe.{
  note_success, within, answered_recently, conclude, measure_probe, remeasure, reuse,
  api_server_probe, settled_probe, probe_command,
}

module _ (allowed : Command → Bool) (h : Host) (probing : allowed (probe_command h) ≡ true) where
  pub Keeps-note_success : Keeps allowed (note_success h)
  unfolding note_success
  Keeps-note_success = search keeps_rules

  Keeps-within : (window : ℕ) (last : Option ℕ) → Keeps allowed (within h window last)
  unfolding within
  Keeps-within window none = search keeps_rules
  Keeps-within window (some at) = search keeps_rules

  pub Keeps-answered_recently : Keeps allowed (answered_recently h)
  unfolding answered_recently
  Keeps-answered_recently = search (keeps_rules, Keeps-within)

  Keeps-conclude : (spawned began : ℕ) (o : Outcome) → Keeps allowed (conclude h spawned began o)
  unfolding conclude
  Keeps-conclude spawned began (finished code stdout stderr) =
      search (keeps_rules, Keeps-note_success)
  Keeps-conclude spawned began _ = search keeps_rules

  Keeps-measure_probe : (timeout : ℕ) → Keeps allowed (measure_probe h timeout)
  unfolding measure_probe
  Keeps-measure_probe timeout = search (keeps_rules, Keeps-conclude)

  Kept-stored :
      (r : Result Probe) (s t : State)
      → Kept allowed s t
      → (HasHonestCache s → ReturnsHonest (r, t))
      → Kept allowed s
          (proceed r
            (λ p. monotonic h >>= λ now. modify (λ u. record u { probe = some (now, p) }) >> pure p)
            t).1
  unfolding monotonic
  Kept-stored (ok p) s t kept honest = record {
    counters = kept.counters;
    honest = λ c. (honest c).0;
    commands = kept.commands;
    unasked = kept.unasked;
  }
  Kept-stored (err e) s t kept honest = kept

  Keeps-remeasure : (timeout : Option ℕ) → Keeps allowed (remeasure h timeout)
  unfolding remeasure
  Keeps-remeasure timeout = record {
    at = λ s.
        let wait : ℕ = elim timeout [ none ↦ h.config.probe_timeout | some t ↦ t ] in
        let (r, t) = measure_probe h wait s in
        Kept-stored r s t ((Keeps-measure_probe wait).at s) (measure-honest h wait s);
  }

  Keeps-reuse :
      (max_age : ℕ) (timeout : Option ℕ) (cached : Option (ℕ × Probe))
      → Keeps allowed (reuse h max_age timeout cached)
  unfolding reuse
  Keeps-reuse max_age timeout none = Keeps-remeasure timeout
  Keeps-reuse max_age timeout (some (at, p)) = search (keeps_rules, Keeps-remeasure)

  pub Keeps-api_server_probe :
      (max_age : ℕ) (timeout : Option ℕ) → Keeps allowed (api_server_probe h max_age timeout)
  unfolding api_server_probe
  Keeps-api_server_probe max_age timeout = search (keeps_rules, Keeps-reuse)

  pub Keeps-settled_probe : Keeps allowed (settled_probe h)
  unfolding settled_probe
  Keeps-settled_probe = search (keeps_rules, Keeps-api_server_probe)
