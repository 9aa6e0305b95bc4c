-- ===== src/Reconciler/History/Spends.antt =====
-- Reading a release's history or status is one call of helm.
use nf_orchestrator.Prelude.{Option, none, some}
use nf_orchestrator.Text.{Text}
use nf_orchestrator.Host.{Host}
use nf_orchestrator.Deploy.Run.{run_helm}
use nf_orchestrator.Deploy.Run.Spends.{Spends, Spends-first, Spends-run_helm, spends_rules}
use nf_orchestrator.Reconciler.History.{
  absent_if_not_found, status_command, read_status, helm_release_status, release_history,
  existing_history,
}

module _ (h : Host) (name : Text) where
  Spends-release_history : Spends 7 (release_history h name)
  unfolding release_history
  Spends-release_history = search (spends_rules, Spends-run_helm) depth 9

  pub Spends-existing_history : Spends 7 (existing_history h name)
  unfolding existing_history
  Spends-existing_history = record { at = λ s. Spends-release_history.at s }

  Spends-read_status : (o : Option Text) → Spends 0 (read_status h o)
  unfolding read_status
  Spends-read_status none = search spends_rules
  Spends-read_status (some output) = search spends_rules depth 9

  Spends-asked :
      Spends 7
        (λ s. let (r, t) = run_helm h (status_command h name) s in (absent_if_not_found r, t))
  Spends-asked = record {
    at = λ s. let spent = Spends-run_helm h (status_command h name) in spent.at s;
  }

  pub Spends-helm_release_status : Spends 7 (helm_release_status h name)
  unfolding helm_release_status
  Spends-helm_release_status = Spends-first 7 _ _ Spends-asked Spends-read_status
