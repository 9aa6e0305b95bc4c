-- ===== src/Tests/Collected.antt =====
-- Scrapes, from their first call to their series: of a host with two releases, and of one that is
-- cut off.
use nf_orchestrator.Prelude.{
  zero, suc, ◌*◌, ◌≡◌, refl, true, false, Option, none, some, List, [], ◌∷◌, arith, if◌then◌else◌,
}
use nf_orchestrator.Text.{contains, lower, strip, Text, text, text_eq, one_of, show}
use nf_orchestrator.Json.{Json, Items, Fields, as_list, get, as_num, as_text}
use nf_orchestrator.Errors.{Result, ok, err}
use nf_orchestrator.Host.{Host, run_process, monotonic}
use nf_orchestrator.Deploy.Run.{words_of, run_helm, run_bounded}
use nf_orchestrator.Deploy.Releases.{list_page, list_batch, list_command, names_of}
use nf_orchestrator.Deploy.Releases.Laws.{Serves}
use nf_orchestrator.Reconciler.History.{
  history_command, decode_all, decode_entry, latest_from, deployed_revision,
}
use nf_orchestrator.Reconciler.Pods.{
  Item, Grouped, group_from, append_to, parse_groups, decode_item, decode_container,
}
use nf_orchestrator.Reconciler.State.{Pod}
use nf_orchestrator.Reconciler.Reconcile.{values_command}
use nf_orchestrator.Reconciler.Reconcile.Answered.{ListsPods}
use nf_orchestrator.Metrics.Snapshot.{Snapshot, snapshot}
use nf_orchestrator.Metrics.Tally.{
  cluster_reachable, cluster_busy_now, releases_unreported, release_reported, deployment_state,
  desired_replicas, ready_replicas, operation_state, plain, Family, Future, finished,
}
use nf_orchestrator.Metrics.Futures.{Pool, pods_for}
use nf_orchestrator.Metrics.Futures.Answered.{Documented, said}
use nf_orchestrator.Metrics.Calls.{Threads, collect_calls}
use nf_orchestrator.Host.Keeps.{Keeps}
use nf_orchestrator.Deploy.Probe.{api_server_probe}
use nf_orchestrator.Routes.Serving.Reads.{is_read}
use nf_orchestrator.Metrics.Calls.Reads.{collect_calls-Keeps}
use nf_orchestrator.Metrics.Calls.Cut.{CannotList, collect_calls-cut}
use nf_orchestrator.Metrics.Scrape.Claims.{samples_of}
use nf_orchestrator.Errors.Classify.{classify_error, mentions}
use nf_orchestrator.Metrics.Calls.Published.{Publishes}
use nf_orchestrator.Metrics.Calls.Answered.{collect_calls-answered}
use nf_orchestrator.Tests.Hosts.{failing, started, working, document, of_one, revision, history}

abbrev names : List Text
names = text "a" ∷ text "b" ∷ []

abbrev listed_release : Text → Json
listed_release n = of_one (text "name") (Json.str n)

abbrev releases : Json
releases =
    Json.arr
      (Items.cons (listed_release (text "a")) (Items.cons (listed_release (text "b")) Items.nil))

abbrev running : Json
running = Json.obj (
    Fields.field (text "metadata")
      (of_one (text "labels") (of_one (text "app") (Json.str (text "a"))))
      (Fields.field (text "status") (of_one (text "phase") (Json.str (text "Running"))) Fields.end))

abbrev pods : Json
pods = of_one (text "items") (Json.arr (Items.cons running Items.nil))

-- The tools print the second word of their command: helm its subcommand, and kubectl its flag for
-- the context.
abbrev scraped : Host
scraped = record working {
  loads = λ output.
      if text_eq output (text "list")
      then some releases
      else if text_eq output (text "--context")
      then some pods
      else document output;
}

scraped-Serves : Serves scraped list_page names
unfolding list_batch run_helm run_bounded run_process monotonic as_list text list_command show
    names_of get as_text
scraped-Serves zero s h = refl
scraped-Serves (suc k) s h = absurd (omega arith)

abbrev item : Item
item = record {
  app = some (text "a");
  is_deleting = false;
  phase = some (text "Running");
  reason = none;
  containers = [];
}

abbrev grouped : Grouped Item
grouped = (text "a", item ∷ []) ∷ []

scraped-ListsPods : ListsPods scraped (text "app") (item ∷ [])
unfolding text text_eq get as_list as_text decode_all decode_item decode_container
scraped-ListsPods = (
  pods,
  Json.arr (Items.cons running Items.nil),
  running ∷ [],
  record { output = text "--context"; stderr = []; ends = λ n limit. refl; parses = refl },
  refl,
  refl,
  refl,
)

document_of : (release : Text) → Documented scraped release
unfolding text history_command text_eq as_list decode_all decode_entry get as_num as_text
    latest_from deployed_revision values_command
document_of release = record {
  entry = record { revision = 1; status = some (text "deployed"); description = none };
  entries = [];
  status = text "deployed";
  count = 1;
  known = (
    history,
    revision ∷ [],
    record { output = text "history"; stderr = []; ends = λ n limit. refl; parses = refl },
    refl,
    refl,
  );
  latest = refl;
  desired = (
    of_one (text "replicaCount") (Json.num 1),
    record { output = text "get"; stderr = []; ends = λ n limit. refl; parses = refl },
    refl,
  );
}

documented : (release : Text) → Option (Documented scraped release)
documented release = if one_of release names then some (document_of release) else none

abbrev settled : Result Snapshot → Future
settled (ok x) = finished x
settled (err _) = Future.raised

-- Threads that find the process as it was at its start.
abbrev pool : Option (Grouped Pod) → Pool
pool listed = record {
  starts = λ release. true;
  outcome = λ release. settled (snapshot scraped release (pods_for listed release) started).0;
}

abbrev threads : Threads
threads = record {
  prober_started = true;
  measured = none;
  clock = λ n. n * 1000;
  is_done = λ n release. true;
  workers = 8;
  pool = pool;
}

collect_calls-answered_example :
    (families : List Family) × ((collect_calls scraped threads 10_000_000 1 started).0
      ≡ ok (some families))
    × Publishes (said scraped (parse_groups grouped) documented) names families
unfolding one_of group_from append_to text text_eq documented
collect_calls-answered_example =
    collect_calls-answered scraped threads 4_000 10_000_000 1 names (item ∷ []) grouped documented
      (λ release. started) started scraped-Serves refl (refl, (refl, tt)) (omega arith)
      scraped-ListsPods refl (λ n release. refl) (λ n. omega arith) (λ n. omega arith) (omega arith)
      (omega arith) (λ release listed. refl) (λ release x listed e. rw (e) refl) (omega arith)

-- A host whose helm cannot reach the cluster.
abbrev cut_off : Host
cut_off = failing (text "connection refused")

cut_off-CannotList : CannotList cut_off
unfolding text text_eq strip words_of classify_error mentions contains lower
cut_off-CannotList = record {
  code = 1;
  stdout = [];
  stderr = text "connection refused";
  ends = λ n limit. refl;
  failed = refl;
  unreached = refl;
}

collect_calls-cut_example :
    (families : List Family) × ((collect_calls cut_off threads 10_000_000 1 started).0
      ≡ ok (some families))
    × (samples_of cluster_reachable families ≡ some ((plain, 0) ∷ []))
    × (samples_of cluster_busy_now families ≡ none)
    × (samples_of releases_unreported families ≡ none)
    × (samples_of release_reported families ≡ none)
    × (samples_of deployment_state families ≡ none)
    × (samples_of desired_replicas families ≡ none)
    × (samples_of ready_replicas families ≡ none)
    × (samples_of operation_state families ≡ none)
collect_calls-cut_example =
    collect_calls-cut cut_off cut_off-CannotList threads 10_000_000 0 started

collect_calls-Keeps_example :
    Keeps is_read (collect_calls scraped threads 10 2)
    × ((name : Text) (pods : Option (List Pod)) → Keeps is_read (snapshot scraped name pods))
    × Keeps is_read (api_server_probe scraped 0 (some 3))
collect_calls-Keeps_example = collect_calls-Keeps scraped threads 10 2 3
