-- ===== src/Deploy/Releases/Keeps.antt =====
-- Listing the releases runs helm's list and the probe, and nothing else.
use nf_orchestrator.Prelude.{ℕ, zero, suc, ◌+◌, ◌≡◌, Bool, true, List, [], ◌∷◌, ltb, length}
use nf_orchestrator.Text.{Text}
use nf_orchestrator.Host.{Host, Command}
use nf_orchestrator.Host.Keeps.{Keeps, Keeps-pure, Keeps-bind, Keeps-if, keeps_rules}
use nf_orchestrator.Deploy.Probe.{probe_command}
use nf_orchestrator.Deploy.Tools.{helm}
use nf_orchestrator.Deploy.Run.Keeps.{Keeps-run_helm}
use nf_orchestrator.Deploy.Releases.{list_command, list_batch, update, list_from, list_releases}

module _ (allowed : Command → Bool) (h : Host) (probing : allowed (probe_command h) ≡ true)
    (listing : (page offset : ℕ) → allowed (helm ∷ list_command h page offset) ≡ true) where
  Keeps-list_batch : (page offset : ℕ) → Keeps allowed (list_batch h page offset)
  unfolding list_batch
  Keeps-list_batch page offset = search (keeps_rules, Keeps-run_helm) depth 9

  Keeps-list_from :
      (fuel page offset : ℕ) (names : List Text)
      → Keeps allowed (list_from h fuel page offset names)
  unfolding list_from
  Keeps-list_from zero page offset names = search keeps_rules
  Keeps-list_from (suc fuel) page offset names =
      Keeps-bind allowed (list_batch h page offset) _ (Keeps-list_batch page offset) (λ batch.
        Keeps-if allowed (ltb (length batch) page) _ _ (Keeps-pure allowed _)
          (Keeps-list_from fuel page (offset + page) (update names batch)))

  pub Keeps-list_releases : (fuel page : ℕ) → Keeps allowed (list_releases h fuel page)
  unfolding list_releases
  Keeps-list_releases fuel page = Keeps-list_from fuel page 0 []
