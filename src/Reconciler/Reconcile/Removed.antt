-- ===== src/Reconciler/Reconcile/Removed.antt =====
-- The teardown of a release that helm prints a status of, and can uninstall.
use nf_orchestrator.Prelude.{ℕ, ◌≡◌, refl, true, some, ◌∷◌}
use nf_orchestrator.Text.{Text, text}
use nf_orchestrator.Json.{Json, str, get}
use nf_orchestrator.Host.{Host, finished}
use nf_orchestrator.Deploy.Tools.{helm}
use nf_orchestrator.Deploy.Run.Runs.{run_helm-ends, run_helm-succeeds}
use nf_orchestrator.Deploy.Run.Returns.{Prints, Returns, Returns-pure, Returns-bind}
use nf_orchestrator.Reconciler.State.{not_instantiated}
use nf_orchestrator.Reconciler.History.{status_command, absent_if_not_found, helm_release_status}
use nf_orchestrator.Reconciler.Reconcile.{Teardown, uninstall_command, teardown_status, teardown}

-- helm prints a status of the release, and uninstalls it without an error.
pub record Removes (h : Host) (name : Text) : Type 0 where
  pub document : Json
  pub info : Json
  pub status : Text
  pub prints : Prints h (helm ∷ status_command h name) document
  pub has_info : get (text "info") document ≡ some info
  pub has_status : get (text "status") info ≡ some (str status)
  pub output : Text
  pub stderr : Text
  pub ends :
      (look limit : ℕ)
      → h.answer look (helm ∷ uninstall_command h name) limit ≡ finished 0 output stderr

abbrev pub removed_release : Text → Teardown
removed_release name = record { release = name; state = not_instantiated; uninstalled = true }

module _ (h : Host) (name : Text) (r : Removes h name) where
  Returns-helm_release_status : Returns (helm_release_status h name) (some (str r.status))
  unfolding helm_release_status absent_if_not_found
  Returns-helm_release_status = record {
    at = λ s.
        let printed = run_helm-ends h (status_command h name) r.document r.prints in
        rw (printed.at s, r.prints.parses, r.has_info, r.has_status) refl;
  }

  pub Returns-teardown : Returns (teardown h name) (removed_release name)
  unfolding teardown teardown_status
  Returns-teardown =
      Returns-bind _ _ (some (str r.status)) (removed_release name) Returns-helm_release_status (
        Returns-bind _ _ r.output (removed_release name)
          (run_helm-succeeds h (uninstall_command h name) r.output r.stderr r.ends)
          (Returns-pure (removed_release name)))
