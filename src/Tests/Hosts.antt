-- ===== src/Tests/Hosts.antt =====
-- Hosts that answer each tool in one way.
use nf_orchestrator.Prelude.{◌*◌, true, not, Option, some, [], ◌∷◌, if◌then◌else◌}
use nf_orchestrator.Text.{Text, text, text_eq}
use nf_orchestrator.Json.{Json, Items, Fields}
use nf_orchestrator.Intent.{Intent}
use nf_orchestrator.Errors.{Kind, DeployError, deploy, Result, err}
use nf_orchestrator.Host.{Command, Outcome, finished, timed_out, Config, Host}
use nf_orchestrator.Deploy.Tools.{helm}
pub use nf_orchestrator.Routes.Serving.{started}

-- Some limits, in microseconds.
abbrev pub config : Config
config = record {
  kube_context = text "kind-nf";
  chart_path = text "charts/nf";
  read_timeout = 30_000_000;
  write_timeout = 300_000_000;
  probe_timeout = 5_000_000;
  probe_ttl = 5_000_000;
  slow_probe = 1_000_000;
  escalated_probe_timeout = 15_000_000;
  recent_success = 10_000_000;
}

-- A host on which helm and kubectl each end in one way.
abbrev pub host_of : (helm_says kubectl_says : Outcome) → (Text → Option Json) → Host
host_of helm_says kubectl_says loads = record {
  config = config;
  clock = λ n. n * 1000;
  day_clock = λ n. n * 1000;
  which = λ n tool. true;
  answer = λ n command timeout. elim command [
    | [] ↦ kubectl_says
    | tool ∷ _ ↦ if text_eq tool helm then helm_says else kubectl_says
  ];
  loads = loads;
  format_g = λ n. [];
  format_2f = λ n. [];
  format_millis = λ n. [];
}

-- The error that a call raised, where it raised one.
abbrev pub error_of : {A : Type 0} → Result A → DeployError
error_of (err (deploy e)) = e
error_of _ = record { kind = Kind.deploy_error; message = [] }

abbrev pub name : Text
name = text "web"

-- An object of one field.
abbrev pub of_one : Text → Json → Json
of_one key v = Json.obj (Fields.field key v Fields.end)

abbrev pub revision : Json
revision = Json.obj (
    Fields.field (text "revision") (Json.num 1)
      (Fields.field (text "status") (Json.str (text "deployed")) Fields.end))

abbrev pub history : Json
history = Json.arr (Items.cons revision Items.nil)

abbrev pub upgrade : Json
upgrade = Json.obj (
    Fields.field (text "version") (Json.num 1)
      (Fields.field (text "info") (of_one (text "status") (Json.str (text "deployed"))) Fields.end))

-- The document that a helm subcommand prints of one release with one replica.
abbrev pub document : Text → Option Json
document verb =
    if text_eq verb (text "history")
    then some history
    else if text_eq verb (text "get")
    then some (of_one (text "replicaCount") (Json.num 1))
    else some upgrade

abbrev pub second_word : Command → Text
second_word (_ ∷ w ∷ _) = w
second_word _ = []

-- A host on which every tool succeeds and prints the word of its subcommand.
abbrev pub working : Host
working = record (host_of (timed_out []) (timed_out []) document) {
  answer = λ n command timeout. finished 0 (second_word command) [];
}

-- A host on which helm fails with some words on its error output.
abbrev pub failing : Text → Host
failing words = host_of (finished 1 [] words) (finished 0 [] []) document

-- A host without helm.
abbrev bare : Host
bare = record working { which = λ n tool. not (text_eq tool helm) }

abbrev pub intent : Intent
intent = record { name = name; replicas = 1; environment = text "dev" }
