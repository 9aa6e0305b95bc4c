-- ===== src/Deploy/Apply/Keeps.antt =====
-- Deploying runs helm's version and upgrade and the probe, and nothing else.
use nf_orchestrator.Prelude.{◌≡◌, Bool, true, false, [], ◌∷◌}
use nf_orchestrator.Text.{Text}
use nf_orchestrator.Intent.{Intent}
use nf_orchestrator.Host.{Host, Command}
use nf_orchestrator.Host.Keeps.{Keeps, keeps_rules}
use nf_orchestrator.Deploy.Probe.{probe_command}
use nf_orchestrator.Deploy.Tools.{helm, version_command, require_tools}
use nf_orchestrator.Deploy.Tools.Keeps.{Keeps-require_tools}
use nf_orchestrator.Deploy.Run.Keeps.{Keeps-run_helm}
use nf_orchestrator.Deploy.Run.{run_helm}
use nf_orchestrator.Deploy.Run.Changes.{Changes, Changes-behind, Changes-first, Changes-run_helm}
use nf_orchestrator.Deploy.Apply.{read_release, deploy_command, deploy}

module _ (allowed : Command → Bool) (h : Host) (probing : allowed (probe_command h) ≡ true) where
  Keeps-read_release :
      (intent : Intent) (output : Text) → Keeps allowed (read_release h intent output)
  unfolding read_release
  Keeps-read_release intent output = search keeps_rules depth 9

  pub Keeps-deploy :
      (intent : Intent) (force : Bool)
      → allowed version_command ≡ true
      → allowed (helm ∷ deploy_command h intent force) ≡ true
      → Keeps allowed (deploy h intent force)
  unfolding deploy
  Keeps-deploy intent force asking upgrading =
      search (keeps_rules, Keeps-require_tools, Keeps-run_helm, Keeps-read_release)

  -- Where the upgrade is not allowed, it is run at most once.
  pub Changes-deploy :
      (intent : Intent) (force : Bool)
      → allowed version_command ≡ true
      → allowed (helm ∷ deploy_command h intent force) ≡ false
      → Changes allowed ((helm ∷ deploy_command h intent force) ∷ []) (deploy h intent force)
  unfolding deploy
  Changes-deploy intent force asking upgrading =
      Changes-behind allowed (require_tools h) _ (Keeps-require_tools allowed h asking) (λ _.
        Changes-first allowed (run_helm h (deploy_command h intent force)) _
          (Changes-run_helm allowed h probing (deploy_command h intent force) upgrading)
          (Keeps-read_release intent))
