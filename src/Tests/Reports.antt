-- ===== src/Tests/Reports.antt =====
-- Reports, teardowns and the answers of the routes.
use nf_orchestrator.Deploy.Tools.{helm}
use nf_orchestrator.Reconciler.Reconcile.Keeps.{pods_command}
use nf_orchestrator.Prelude.{
  ◌++◌, if◌then◌else◌, ◌≡◌, ◌≢◌, refl, ◌⊎◌, true, none, some, List, [], ◌∷◌,
}
use nf_orchestrator.Text.{text_eq, text, contains, lower, strip}
use nf_orchestrator.Json.{Items, Json, get, as_list, as_num, as_text}
use nf_orchestrator.Errors.{
  DeployError, cluster_unreachable, cluster_conflict, deploy, ok, err, is_instance,
}
use nf_orchestrator.Host.{Host, run_process, monotonic}
use nf_orchestrator.Deploy.Run.{run_helm, run_bounded, words_of}
use nf_orchestrator.Reconciler.State.{Pod, not_instantiated}
use nf_orchestrator.Reconciler.History.{
  release_not_found, Entry, existing_history, release_history, history_command, decode_all,
  decode_entry, latest_from, deployed_revision,
}
use nf_orchestrator.Reconciler.Reconcile.{
  Report, Teardown, absent, report, reconcile, values_command,
}
use nf_orchestrator.Reconciler.Reconcile.Laws.{reconcile-not_instantiated, reconcile-unreachable}
use nf_orchestrator.Reconciler.Reconcile.Answered.{reconcile-answered}
use nf_orchestrator.Tests.Hosts.{
  of_one, document, revision, history, started, working, failing, name,
}
use nf_orchestrator.Errors.Classify.{classify_error, mentions}
use nf_orchestrator.Reconciler.Pods.{parse_pods}

-- helm knows no such release.
abbrev gone : Host
gone = failing (text "Error: release: not found")

abbrev cut_off : Host
cut_off = failing (text "connection refused")

abbrev unreached : DeployError
unreached = record { kind = cluster_unreachable; message = text "connection refused" }

reconcile-not_instantiated_example :
    ((release_history gone name started).0 ≡ ok [])
    ⊎ ((e : DeployError) × ((release_history gone name started).0 ≡ err (deploy e))
        × (e.kind ≢ cluster_unreachable)
        × (contains release_not_found (lower e.message) ≡ true))
unfolding reconcile existing_history release_history run_helm run_bounded run_process text
    is_instance classify_error mentions contains lower words_of strip monotonic absent
reconcile-not_instantiated_example =
    (reconcile-not_instantiated gone name none started (reconcile gone name none started).1
        (absent name) refl).0
      refl

reconcile-unreachable_example : (reconcile cut_off name none started).0 ≡ err (deploy unreached)
unfolding run_helm run_bounded run_process text is_instance classify_error mentions contains lower
    words_of strip
reconcile-unreachable_example = reconcile-unreachable cut_off name started unreached none refl refl

abbrev pods : List Pod
pods = record { phase = some (text "Running"); reason = none; ready = true } ∷ []

abbrev entry : Entry
entry = record { revision = 1; status = some (text "deployed"); description = none }

abbrev up : Report
up = report name (entry ∷ []) (text "deployed") 1 pods

abbrev torn_down : Teardown
torn_down = record { release = name; state = not_instantiated; uninstalled = true }

abbrev conflict : DeployError
conflict = record { kind = cluster_conflict; message = [] }

-- A host on which kubectl lists no pod, and helm prints the release's documents.
abbrev printing : Host
printing = record working {
  loads = λ printed.
      if text_eq printed (text "--context")
      then some (of_one (text "items") (Json.arr Items.nil))
      else document printed;
}

abbrev waiting : Report
waiting = report name (entry ∷ []) (text "deployed") 1 []

reconcile-answered_example :
    ((reconcile printing name none started).0 ≡ ok waiting)
    × ((reconcile printing name none started).1.ran
        ≡ pods_command printing (text "app=" ++ name)
          ∷ (helm ∷ values_command printing name 1)
          ∷ (helm ∷ history_command printing name)
          ∷ [])
unfolding text history_command text_eq as_list decode_all decode_entry get as_num as_text
    latest_from deployed_revision values_command parse_pods
reconcile-answered_example =
    reconcile-answered printing name entry [] (text "deployed") 1 []
      (
        history,
        revision ∷ [],
        record { output = text "history"; stderr = []; ends = λ n limit. refl; parses = refl },
        refl,
        refl,
      )
      refl
      (
        of_one (text "replicaCount") (Json.num 1),
        record { output = text "get"; stderr = []; ends = λ n limit. refl; parses = refl },
        refl,
      )
      (
        of_one (text "items") (Json.arr Items.nil),
        Json.arr Items.nil,
        [],
        record { output = text "--context"; stderr = []; ends = λ n limit. refl; parses = refl },
        refl,
        refl,
        refl,
      )
      started
