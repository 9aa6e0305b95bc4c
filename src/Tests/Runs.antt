-- ===== src/Tests/Runs.antt =====
-- Calls of the tools, probes, the tools' own checks and the pages of helm's list.
use nf_orchestrator.Prelude.{
  ℕ, zero, suc, ◌≡◌, ◌≢◌, refl, ◌⊎◌, true, false, none, some, List, [], ◌∷◌, arith, if◌then◌else◌,
}
use nf_orchestrator.Text.{Text, text, text_eq, one_of, contains, lower, strip, show}
use nf_orchestrator.Json.{Json, Items, get, as_list, as_text}
use nf_orchestrator.Errors.{cluster_unreachable, ok, is_instance}
use nf_orchestrator.Errors.Classify.{classify_error, mentions}
use nf_orchestrator.Host.{
  Host, Probe, Command, finished, timed_out, is_on_path, monotonic, run_process, day_time,
}
use nf_orchestrator.Deploy.Tools.{tool_problems, version_problems, require_tools, missing_tools}
use nf_orchestrator.Deploy.Probe.{
  local_seconds, answered_recently, api_server_probe, settled_probe, remeasure, measure_probe,
}
use nf_orchestrator.Deploy.Run.{
  command_eq, local_delay, reachability_evidence, run_bounded, run_helm, check_cluster, words_of,
}
use nf_orchestrator.Deploy.Run.Blame.{NoEvidence}
use nf_orchestrator.Deploy.Run.Ready.{check_cluster-unreachable}
use nf_orchestrator.Deploy.Run.Laws.{run_bounded-blame, run_bounded-last_success}
use nf_orchestrator.Deploy.Releases.{list_releases, list_batch, list_command, names_of}
use nf_orchestrator.Deploy.Releases.Laws.{Serves, list_releases-all}
use nf_orchestrator.Deploy.Apply.{Deployment}
use nf_orchestrator.Tests.Hosts.{host_of, started, error_of, working, failing, of_one, name}
use nf_orchestrator.Deploy.Klog.{round_trip, startup_delay, helm_version}

-- Both tools are killed for silence, kubectl with a line in its log.
abbrev silent : Host
silent = host_of (timed_out []) (timed_out (text "I1126 10:00:00.000000")) (λ _. none)

-- helm is killed for silence; kubectl answers with a round trip of a millisecond.
abbrev busy : Host
busy = host_of (timed_out []) (finished 0 [] []) (λ _. none)

abbrev args : Command
args = text "list" ∷ []

abbrev command : Command
command = text "helm" ∷ args

run_bounded-blame_example : NoEvidence silent (run_bounded silent command args 1 started).1
unfolding command_eq text run_bounded run_process settled_probe api_server_probe remeasure
    measure_probe day_time monotonic strip local_delay local_seconds round_trip startup_delay
    reachability_evidence answered_recently
run_bounded-blame_example =
    run_bounded-blame silent command args 1 started (run_bounded silent command args 1 started).1 []
      (error_of (run_bounded silent command args 1 started).0) refl refl refl refl

abbrev refused : Text
refused = text "connection refused"

run_bounded-last_success_example :
    (run_bounded (failing refused) command args 1 started).1.last_success ≡ none
unfolding text_eq text is_instance classify_error mentions contains lower words_of strip
run_bounded-last_success_example =
    run_bounded-last_success (failing refused) command args 1 started 1 [] refused refl

check_cluster-unreachable_example :
    (at : ℕ) × (p : Probe) × ((check_cluster silent started).1.probe ≡ some (at, p))
    × (p.started ≡ true)
    × (p.answered ≡ false)
    × (((p.error ≢ []) × ((classify_error p.error).kind ≡ cluster_unreachable)) ⊎ (p.error ≡ []))
unfolding tool_problems missing_tools is_on_path version_problems monotonic run_process helm_version
    text_eq check_cluster require_tools api_server_probe remeasure measure_probe day_time strip
check_cluster-unreachable_example =
    check_cluster-unreachable silent started (check_cluster silent started).1
      (tool_problems silent started).1 (error_of (check_cluster silent started).0) refl refl refl
      refl

abbrev missing_helm : Text
missing_helm =
    text "helm not found on PATH on this host: install or fix PATH; retrying will not help"

abbrev made : Deployment
made = record {
  release = name;
  status = Json.str (text "deployed");
  revision = Json.num 1;
  values = record { replica_count = 1; environment = text "dev" };
}

abbrev releases : List Text
releases = text "a" ∷ text "b" ∷ []

abbrev entry_of : Text → Json
entry_of n = of_one (text "name") (Json.str n)

abbrev page_of : Text → Json
page_of output =
    if text_eq output (text "first")
    then Json.arr (Items.cons (entry_of (text "a")) (Items.cons (entry_of (text "b")) Items.nil))
    else Json.arr Items.nil

-- A helm whose list has two releases, asked by pages of two.
abbrev listing : Host
listing = record (host_of (timed_out []) (timed_out []) (λ output. some (page_of output))) {
  answer =
      λ n command timeout. finished 0 (if one_of (text "0") command then text "first" else []) [];
}

listing-Serves : Serves listing 2 releases
unfolding list_batch run_helm run_bounded run_process monotonic as_list one_of text list_command
    show names_of get as_text
listing-Serves zero s h = refl
listing-Serves (suc zero) s h = refl
listing-Serves (suc (suc k)) s h = absurd (omega arith)

list_releases-all_example : (list_releases listing 2 2 started).0 ≡ ok (some releases)
unfolding one_of text
list_releases-all_example =
    list_releases-all listing 2 releases listing-Serves (omega arith) (refl, (refl, tt)) 2 started
      (omega arith)

-- A host with helm 4.
abbrev versioned : Host
versioned = record working { answer = λ n command timeout. finished 0 (text "v4.1.0+gabc\n") [] }
