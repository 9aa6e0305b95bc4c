-- ===== src/Deploy/Apply/Spends.antt =====
-- A deployment asks about helm's version and makes one call.
use nf_orchestrator.Prelude.{Bool}
use nf_orchestrator.Text.{Text}
use nf_orchestrator.Intent.{Intent}
use nf_orchestrator.Host.{Host}
use nf_orchestrator.Deploy.Tools.{require_tools}
use nf_orchestrator.Deploy.Run.{run_helm}
use nf_orchestrator.Deploy.Run.Spends.{
  Spends, Spends-first, Spends-bind, Spends-run_helm, Spends-require_tools, spends_rules,
}
use nf_orchestrator.Deploy.Apply.{deploy_command, read_release, deploy}

module _ (h : Host) (intent : Intent) where
  Spends-read_release : (output : Text) → Spends 0 (read_release h intent output)
  unfolding read_release
  Spends-read_release output = search spends_rules depth 9

  pub Spends-deploy : (force : Bool) → Spends 8 (deploy h intent force)
  unfolding deploy
  Spends-deploy force = Spends-bind 1 7 (require_tools h) _ (Spends-require_tools h) (λ _.
      Spends-first 7 (run_helm h (deploy_command h intent force)) _ (Spends-run_helm h _)
        Spends-read_release)
