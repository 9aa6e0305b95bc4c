-- ===== src/Tests/Served.antt =====
-- A process that was asked for everything there is, on a machine on which everything works.
use nf_orchestrator.Prelude.{
  Bool, true, false, none, ◌≡◌, refl, some, [], ◌∷◌, List, map, if◌then◌else◌,
}
use nf_orchestrator.Text.{text, text_eq, strip}
use nf_orchestrator.Json.{Json, Items, get, as_list, as_num, as_text}
use nf_orchestrator.Host.{Host, finished}
use nf_orchestrator.Deploy.Klog.{helm_version}
use nf_orchestrator.Deploy.Apply.{deploy_command}
use nf_orchestrator.Deploy.Apply.Answered.{Deploys}
use nf_orchestrator.Deploy.Tools.Right.{HasRightTools}
use nf_orchestrator.Reconciler.History.{
  history_command, status_command, decode_all, decode_entry, latest_from, deployed_revision,
}
use nf_orchestrator.Reconciler.Reconcile.{values_command, uninstall_command}
use nf_orchestrator.Reconciler.Reconcile.Removed.{Removes}
use nf_orchestrator.Routes.Serving.{
  Request, readiness, creation, repairing, inspection, removal, started, serve_all,
}
use nf_orchestrator.Routes.Serving.Answered.{
  AnswersProbe, Inspects, Documents, reply_of, serve_all-answered,
}
use nf_orchestrator.Tests.Hosts.{
  working, intent, name, document, second_word, of_one, upgrade, history, revision,
}

abbrev no_pods : Json
no_pods = of_one (text "items") (Json.arr Items.nil)

-- Every tool prints the second word of its command, but helm its version.
abbrev serving : Host
serving = record working {
  answer = λ n command timeout.
      if text_eq (second_word command) (text "version")
      then finished 0 (text "v4.1.0+gabc") []
      else finished 0 (second_word command) [];
  loads = λ printed. if text_eq printed (text "--context") then some no_pods else document printed;
}

serving-HasRightTools : HasRightTools serving
unfolding text text_eq strip helm_version
serving-HasRightTools = record {
  helm_found = λ n. refl;
  kubectl_found = λ n. refl;
  right_version = λ n. (_, refl);
}

serving-AnswersProbe : AnswersProbe serving
unfolding text text_eq
serving-AnswersProbe = record { stdout = text "--context"; stderr = []; ends = λ n limit. refl }

serving-Deploys : (force : Bool) → Deploys serving intent force
unfolding text text_eq deploy_command get
serving-Deploys force = record {
  document = upgrade;
  info = of_one (text "status") (Json.str (text "deployed"));
  status = Json.str (text "deployed");
  revision = Json.num 1;
  prints = record { output = text "upgrade"; stderr = []; ends = λ n limit. refl; parses = refl };
  has_info = refl;
  has_status = refl;
  has_revision = refl;
}

serving-Inspects : Inspects serving name
unfolding text text_eq history_command as_list decode_all decode_entry get as_num as_text
    latest_from deployed_revision values_command
serving-Inspects = record {
  documented = record {
    entry = record { revision = 1; status = some (text "deployed"); description = none };
    entries = [];
    status = text "deployed";
    count = 1;
    known = (
      history,
      revision ∷ [],
      record { output = text "history"; stderr = []; ends = λ n limit. refl; parses = refl },
      refl,
      refl,
    );
    latest = refl;
    desired = (
      of_one (text "replicaCount") (Json.num 1),
      record { output = text "get"; stderr = []; ends = λ n limit. refl; parses = refl },
      refl,
    );
  };
  items = [];
  pods = (
    no_pods,
    Json.arr Items.nil,
    [],
    record { output = text "--context"; stderr = []; ends = λ n limit. refl; parses = refl },
    refl,
    refl,
    refl,
  );
}

serving-Removes : Removes serving name
unfolding text text_eq status_command uninstall_command get
serving-Removes = record {
  document = upgrade;
  info = of_one (text "status") (Json.str (text "deployed"));
  status = text "deployed";
  prints = record { output = text "status"; stderr = []; ends = λ n limit. refl; parses = refl };
  has_info = refl;
  has_status = refl;
  output = text "uninstall";
  stderr = [];
  ends = λ n limit. refl;
}

abbrev asked : List ((q : Request) × Documents serving q)
asked =
    (readiness, serving-AnswersProbe)
    ∷ (creation intent, serving-Deploys false)
    ∷ (inspection name, serving-Inspects)
    ∷ (repairing name intent, serving-Deploys true)
    ∷ (repairing (text "other") intent, serving-Deploys true)
    ∷ (removal name, serving-Removes)
    ∷ []

serve_all-answered_example :
    (serve_all serving (map (λ (q, _). q) asked) started).0
    ≡ map (λ (q, d). (q, reply_of serving q d)) asked
serve_all-answered_example = serve_all-answered serving serving-HasRightTools asked started refl
