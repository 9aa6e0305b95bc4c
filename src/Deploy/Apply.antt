-- ===== src/Deploy/Apply.antt =====
-- `render_values`, `release_name` and `deploy`: an intent becomes one `helm upgrade --install`.
pub mod Laws
pub mod Keeps
pub mod Spends
pub mod Answered
use nf_orchestrator.Prelude.{ℕ, Bool, true, false, List, [], ◌∷◌, ◌++◌, if◌then◌else◌}
use nf_orchestrator.Text.{Text, text, show}
use nf_orchestrator.Json.{Json, get}
use nf_orchestrator.Intent.{Intent}
use nf_orchestrator.Host.{Host, State, Exec, Command, pure, expect, ◌>>=◌, ◌>>◌}
use nf_orchestrator.Deploy.Tools.{require_tools}
use nf_orchestrator.Deploy.Run.{run_helm}

pub record Values : Type 0 where
  pub replica_count : ℕ
  pub environment : Text

unfoldable pub render_values : Intent → Values
render_values intent = record { replica_count = intent.replicas; environment = intent.environment }

unfoldable pub release_name : Intent → Text
release_name intent = intent.name

-- `json.dumps(values)`; an environment of the schema needs no escape.
unfoldable pub dumps : Values → Text
dumps v =
    text "{\"replicaCount\": "
    ++ (show v.replica_count ++ (text ", \"environment\": \"" ++ (v.environment ++ text "\"}")))

pub record Deployment : Type 0 where
  pub release : Text
  pub status : Json
  pub revision : Json
  pub values : Values

module _ (h : Host) where
  unfoldable pub deploy_command : Intent → (force_conflicts : Bool) → Command
  unfolding render_values release_name
  deploy_command intent force_conflicts =
      text "upgrade"
      ∷ text "--install"
      ∷ release_name intent
      ∷ h.config.chart_path
      ∷ text "--kube-context"
      ∷ h.config.kube_context
      ∷ text "--set-json"
      ∷ dumps (render_values intent)
      ∷ text "--output"
      ∷ text "json"
      ∷ (if force_conflicts then text "--force-conflicts" ∷ [] else [])

  read_release : Intent → Text → Exec Deployment
  unfolding render_values release_name
  read_release intent output = do
    document ← expect (h.loads output)
    info ← expect (get (text "info") document)
    status ← expect (get (text "status") info)
    revision ← expect (get (text "version") document)
    pure (record {
      release = release_name intent;
      status = status;
      revision = revision;
      values = render_values intent;
    })

  unfoldable pub deploy : Intent → (force_conflicts : Bool) → Exec Deployment
  unfolding read_release
  deploy intent force_conflicts = do
    require_tools h
    output ← run_helm h (deploy_command intent force_conflicts)
    read_release intent output
