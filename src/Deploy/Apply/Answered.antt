-- ===== src/Deploy/Apply/Answered.antt =====
-- A deployment on a machine with the right tools, where helm prints what it documents.
use nf_orchestrator.Prelude.{◌≡◌, refl, Bool, true, not, some, ◌∷◌}
use nf_orchestrator.Text.{text, text_eq}
use nf_orchestrator.Json.{Json, get}
use nf_orchestrator.Errors.{ok}
use nf_orchestrator.Intent.{Intent}
use nf_orchestrator.Host.{Host, State, Exec, Command, ◌>>=◌}
use nf_orchestrator.Host.Keeps.{Keeps, Keeps-bind, keeps_rules}
use nf_orchestrator.Deploy.Tools.{helm, require_tools}
use nf_orchestrator.Deploy.Tools.Right.{HasRightTools, HasRightVersion, require_tools-right}
use nf_orchestrator.Deploy.Run.{run_helm}
use nf_orchestrator.Deploy.Run.Keeps.{Keeps-run_helm}
use nf_orchestrator.Deploy.Run.Runs.{run_helm-ends}
use nf_orchestrator.Deploy.Run.Returns.{Prints, Returns, Returns-pure, Returns-expect, Returns-bind}
use nf_orchestrator.Deploy.Apply
use nf_orchestrator.Deploy.Apply.{
  Deployment, render_values, release_name, deploy_command, read_release,
}

-- What helm prints of the upgrade: the status and the revision of the release that it made.
pub record Deploys (h : Host) (intent : Intent) (force : Bool) : Type 0 where
  pub document : Json
  pub info : Json
  pub status : Json
  pub revision : Json
  pub prints : Prints h (helm ∷ deploy_command h intent force) document
  pub has_info : get (text "info") document ≡ some info
  pub has_status : get (text "status") info ≡ some status
  pub has_revision : get (text "version") document ≡ some revision

-- A command that is no question about a version.
abbrev pub asks_no_version : Command → Bool
asks_no_version (tool ∷ verb ∷ _) = not (text_eq verb (text "version"))
asks_no_version _ = true

-- What asks nothing about helm's version leaves what is kept of it right.
pub HasRightVersion-kept :
    {A : Type 0}
    → (m : Exec A) (s : State) → Keeps asks_no_version m
    → HasRightVersion s
    → HasRightVersion (m s).1
unfolding text text_eq
HasRightVersion-kept m s keeps kept = let k = keeps.at s in rw (k.unasked refl) kept

module _ (h : Host) (intent : Intent) (force : Bool) (d : Deploys h intent force) where
  -- The deployment that helm's document says.
  abbrev pub deployment_of : Deployment
  deployment_of = record {
    release = release_name intent;
    status = d.status;
    revision = d.revision;
    values = render_values intent;
  }

  Returns-upgrade :
      Returns (run_helm h (deploy_command h intent force) >>= read_release h intent) deployment_of
  unfolding read_release
  Returns-upgrade =
      let p = d.prints in
      Returns-bind _ _ p.output deployment_of (run_helm-ends h _ d.document p) (
        Returns-bind _ _ d.document deployment_of (Returns-expect _ d.document p.parses) (
          Returns-bind _ _ d.info deployment_of (Returns-expect _ d.info d.has_info) (
            Returns-bind _ _ d.status deployment_of (Returns-expect _ d.status d.has_status) (
              Returns-bind _ _ d.revision deployment_of (Returns-expect _ d.revision d.has_revision)
                (Returns-pure deployment_of)))))

  Keeps-upgrade :
      Keeps asks_no_version (run_helm h (deploy_command h intent force) >>= read_release h intent)
  unfolding deploy_command read_release text text_eq
  Keeps-upgrade =
      Keeps-bind asks_no_version (run_helm h (deploy_command h intent force)) _
        (Keeps-run_helm asks_no_version h refl (deploy_command h intent force) refl)
        (λ output. search keeps_rules depth 9)

  pub deploy-answered :
      HasRightTools h
      → (s : State) → HasRightVersion s
      → ((Apply.deploy h intent force s).0 ≡ ok deployment_of)
        × HasRightVersion (Apply.deploy h intent force s).1
  unfolding Apply.deploy
  deploy-answered right s kept =
      let (fine, after) = require_tools-right h right s kept in
      let t = (require_tools h s).1 in
      rw fine (Returns-upgrade.at t, HasRightVersion-kept _ t Keeps-upgrade after)
