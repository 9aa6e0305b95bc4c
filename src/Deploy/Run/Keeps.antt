-- ===== src/Deploy/Run/Keeps.antt =====
-- Running helm or kubectl runs that command and the probe's, and nothing else.
use nf_orchestrator.Prelude.{ℕ, suc, ◌≡◌, refl, ◌∙◌, Bool, true, false, Option, none, some, ◌∷◌}
use nf_orchestrator.Text.{Text, text}
use nf_orchestrator.Errors.{DeployError, OsError}
use nf_orchestrator.Host.{
  Host, Probe, State, Command, Outcome, finished, timed_out, not_started, run_process,
}
use nf_orchestrator.Host.Keeps.{others, Keeps, Keeps-bind, Keeps-run_process, keeps_rules}
use nf_orchestrator.Deploy.Probe.{probe_command}
use nf_orchestrator.Deploy.Probe.Keeps.{
  Keeps-note_success, Keeps-answered_recently, Keeps-settled_probe, Keeps-api_server_probe,
}
use nf_orchestrator.Deploy.Tools.{helm, kubectl, version_command}
use nf_orchestrator.Deploy.Tools.Keeps.{Keeps-require_tools}
use nf_orchestrator.Deploy.Run.{
  blame_host, local_delay, reachability_evidence, weigh_evidence, weigh_local, weigh_failure,
  explain_silence, raise_spawn, refuse, settle, run_bounded, run_helm, run_kubectl, blame_probe,
  check_cluster,
}

module _ (allowed : Command → Bool) (h : Host) (probing : allowed (probe_command h) ≡ true) where
  Keeps-blame_host : (p : Probe) (local : Option ℕ) → Keeps allowed (blame_host h p local)
  unfolding blame_host
  Keeps-blame_host p none = search keeps_rules
  Keeps-blame_host p (some local) = search keeps_rules

  Keeps-local_delay : Keeps allowed (local_delay h)
  unfolding local_delay
  Keeps-local_delay = search (keeps_rules, Keeps-settled_probe, Keeps-blame_host)

  Keeps-reachability_evidence : Keeps allowed (reachability_evidence h)
  unfolding reachability_evidence
  Keeps-reachability_evidence =
      search (keeps_rules, Keeps-settled_probe, Keeps-answered_recently) depth 7

  module _ (A : Type 0) (verb : Text) (timeout : ℕ) where
    Keeps-weigh_evidence :
        (evidence : Option Text) → Keeps allowed (weigh_evidence h {A = A} verb timeout evidence)
    unfolding weigh_evidence
    Keeps-weigh_evidence none = search keeps_rules
    Keeps-weigh_evidence (some evidence) = search keeps_rules

    Keeps-weigh_local :
        (local : Option Text) → Keeps allowed (weigh_local h {A = A} verb timeout local)
    unfolding weigh_local
    Keeps-weigh_local none = search (keeps_rules, Keeps-reachability_evidence, Keeps-weigh_evidence)
    Keeps-weigh_local (some local) = search keeps_rules

    Keeps-weigh_failure :
        (failure : Option DeployError)
        → Keeps allowed (weigh_failure h {A = A} verb timeout failure)
    unfolding weigh_failure
    Keeps-weigh_failure none = search (keeps_rules, Keeps-local_delay, Keeps-weigh_local)
    Keeps-weigh_failure (some failure) = search keeps_rules

  Keeps-explain_silence :
      (A : Type 0) (command args : Command) (timeout : ℕ)
      → Keeps allowed (explain_silence h {A = A} command args timeout)
  unfolding explain_silence
  Keeps-explain_silence A command args timeout =
      search (keeps_rules, Keeps-settled_probe, Keeps-weigh_failure)

  Keeps-raise_spawn :
      (e : OsError) (failure : Option DeployError)
      → Keeps allowed (raise_spawn h {A = Text} e failure)
  Keeps-raise_spawn e none = search keeps_rules
  Keeps-raise_spawn e (some failure) = search keeps_rules

  Keeps-refuse : (e : DeployError) → Keeps allowed (refuse h {A = Text} e)
  unfolding refuse
  Keeps-refuse e = search (keeps_rules, Keeps-note_success)

  Keeps-settle :
      (command args : Command) (timeout : ℕ) (o : Outcome)
      → Keeps allowed (settle h command args timeout o)
  unfolding settle
  Keeps-settle command args timeout (timed_out _) = Keeps-explain_silence Text command args timeout
  Keeps-settle command args timeout (not_started e) = Keeps-raise_spawn e _
  Keeps-settle command args timeout (finished code stdout stderr) =
      search (keeps_rules, Keeps-note_success, Keeps-refuse)

  Keeps-run_bounded :
      (command args : Command) (timeout : ℕ)
      → allowed command ≡ true
      → Keeps allowed (run_bounded h command args timeout)
  unfolding run_bounded
  Keeps-run_bounded command args timeout fine =
      Keeps-bind allowed (run_process h command timeout) _
        (Keeps-run_process allowed h command timeout fine) (Keeps-settle command args timeout)

  -- A command that is not allowed is run once, whatever comes of it.
  pub run_bounded-others :
      (command args : Command) (timeout : ℕ) (s : State)
      → allowed command ≡ false
      → others allowed (run_bounded h command args timeout s).1.ran ≡ command ∷ others allowed s.ran
  unfolding run_bounded run_process
  run_bounded-others command args timeout s other =
      let kept =
        (Keeps-settle command args timeout (h.answer s.looks command timeout)).at
          (record s { looks = suc s.looks; ran = command ∷ s.ran }) in
      kept.commands ∙ rw (other) refl

  pub Keeps-run_helm :
      (args : Command) → allowed (helm ∷ args) ≡ true → Keeps allowed (run_helm h args)
  unfolding run_helm
  Keeps-run_helm args fine = Keeps-run_bounded _ args _ fine

  pub Keeps-run_kubectl :
      (args : Command)
      → allowed (kubectl ∷ text "--context" ∷ h.config.kube_context ∷ args) ≡ true
      → Keeps allowed (run_kubectl h args)
  unfolding run_kubectl
  Keeps-run_kubectl args fine = Keeps-run_bounded _ args _ fine

  Keeps-blame_probe :
      (probe : Probe) (failure : Option DeployError) → Keeps allowed (blame_probe h probe failure)
  Keeps-blame_probe probe none = search keeps_rules
  Keeps-blame_probe probe (some failure) = search keeps_rules

  pub Keeps-check_cluster : allowed version_command ≡ true → Keeps allowed (check_cluster h)
  unfolding check_cluster
  Keeps-check_cluster asking =
      search (keeps_rules, Keeps-require_tools, Keeps-api_server_probe, Keeps-blame_probe)
