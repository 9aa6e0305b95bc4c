-- ===== src/Reconciler/History/Keeps.antt =====
-- Reading a release's history or status runs that command of helm and the probe's, and nothing else.
use nf_orchestrator.Prelude.{◌≡◌, Bool, true, Option, none, some, ◌∷◌}
use nf_orchestrator.Text.{Text}
use nf_orchestrator.Host.{Host, Exec, Command}
use nf_orchestrator.Host.Keeps.{Keeps, Keeps-bind, keeps_rules}
use nf_orchestrator.Deploy.Probe.{probe_command}
use nf_orchestrator.Deploy.Tools.{helm}
use nf_orchestrator.Deploy.Run.{run_helm}
use nf_orchestrator.Deploy.Run.Keeps.{Keeps-run_helm}
use nf_orchestrator.Reconciler.History.{
  absent_if_not_found, status_command, history_command, read_status, helm_release_status,
  release_history, existing_history,
}

module _ (allowed : Command → Bool) (h : Host) (probing : allowed (probe_command h) ≡ true) where
  Keeps-handled :
      {A : Type 0} (m : Exec A)
      → Keeps allowed m
      → Keeps allowed (λ s. let (r, t) = m s in (absent_if_not_found r, t))
  Keeps-handled m km = record { at = λ s. km.at s }

  module _ (name : Text) where
    Keeps-release_history :
        allowed (helm ∷ history_command h name) ≡ true → Keeps allowed (release_history h name)
    unfolding release_history
    Keeps-release_history fine = search (keeps_rules, Keeps-run_helm) depth 9

    pub Keeps-existing_history :
        allowed (helm ∷ history_command h name) ≡ true → Keeps allowed (existing_history h name)
    unfolding existing_history
    Keeps-existing_history fine =
        Keeps-handled (release_history h name) (Keeps-release_history fine)

    Keeps-read_status : (o : Option Text) → Keeps allowed (read_status h o)
    unfolding read_status
    Keeps-read_status none = search keeps_rules
    Keeps-read_status (some output) = search keeps_rules depth 9

    pub Keeps-helm_release_status :
        allowed (helm ∷ status_command h name) ≡ true → Keeps allowed (helm_release_status h name)
    unfolding helm_release_status
    Keeps-helm_release_status asking =
        Keeps-bind allowed
          (λ s. let (r, t) = run_helm h (status_command h name) s in (absent_if_not_found r, t)) _
          (Keeps-handled (run_helm h (status_command h name))
            (Keeps-run_helm allowed h probing (status_command h name) asking))
          Keeps-read_status
