-- ===== src/Tests/Serving.antt =====
-- A process that was asked for a deployment, a repair and a report, on a host where helm works.
use nf_orchestrator.Prelude.{◌≡◌, ◌≤◌, refl, true, [], ◌∷◌, List, ◌+◌, length, keep, all}
use nf_orchestrator.Text.{text, strip}
use nf_orchestrator.Errors.{DeployError}
use nf_orchestrator.Host.{Host, State, timed_out, run_process, day_time, monotonic}
use nf_orchestrator.Deploy.Run.{run_bounded, command_eq, local_delay}
use nf_orchestrator.Deploy.Run.Blame.{Justified}
use nf_orchestrator.Routes.Laws.{count_of}
use nf_orchestrator.Routes.Serving.{
  Request, creation, repairing, inspection, readiness, started, serve_all,
}
use mathlib.Core.List.{Sublistᴰ}
use nf_orchestrator.Host.Keeps.{others}
use nf_orchestrator.Routes.Serving.Changed.{changes_of, serve_all-Sublist}
use nf_orchestrator.Routes.Serving.Bound.{serve_all-ran}
use nf_orchestrator.Routes.Serving.Counts.{counts_deployment, counts_repair, serve_all-counts}
use nf_orchestrator.Routes.Serving.Honest.{served-blame}
use nf_orchestrator.Routes.Serving.Reads.{is_read, serve_all-reads}
use nf_orchestrator.Tests.Hosts.{working, intent, name, host_of, document, error_of}
use nf_orchestrator.Deploy.Probe.{settled_probe, api_server_probe, remeasure, measure_probe}
use nf_orchestrator.Routes.{repair_deployment}

abbrev requests : List Request
requests = creation intent ∷ repairing name intent ∷ inspection name ∷ []

serve_all-counts_example :
    let (log, t) = serve_all working requests started in
    (count_of (text "success") (text "dev") t.deployments_total
      ≡ 0 + length (keep (counts_deployment (text "success") (text "dev")) log))
    × (count_of (text "success") (text "dev") t.repairs_total
        ≡ 0 + length (keep (counts_repair (text "success") (text "dev")) log))
unfolding count_of
serve_all-counts_example = serve_all-counts working requests started (text "success") (text "dev")

serve_all-reads_example :
    all is_read (serve_all working (readiness ∷ inspection name ∷ []) started).1.ran ≡ true
serve_all-reads_example =
    serve_all-reads working (readiness ∷ inspection name ∷ []) started refl refl

-- A host on which nothing ends in time.
abbrev silent : Host
silent = host_of (timed_out []) (timed_out []) document

abbrev before : State
before = (serve_all silent (repairing (text "other") intent ∷ []) started).1

abbrev raised : DeployError
raised =
    error_of (run_bounded silent (text "helm" ∷ text "status" ∷ []) (text "status" ∷ []) 5 before).0

served-blame_example :
    Justified silent
      (run_bounded silent (text "helm" ∷ text "status" ∷ []) (text "status" ∷ []) 5 before).1
      raised.kind
unfolding command_eq text run_bounded run_process settled_probe api_server_probe serve_all
    repair_deployment remeasure measure_probe day_time monotonic strip local_delay
served-blame_example =
    served-blame silent (repairing (text "other") intent ∷ []) (text "helm" ∷ text "status" ∷ [])
      (text "status" ∷ []) 5
      (run_bounded silent (text "helm" ∷ text "status" ∷ []) (text "status" ∷ []) 5 before).1 []
      raised refl refl refl

serve_all-ran_example : length (serve_all silent requests started).1.ran ≤ length started.ran + 37
serve_all-ran_example = serve_all-ran silent requests started

serve_all-Sublist_example :
    Sublistᴰ
      (others is_read (serve_all silent requests started).1.ran)
      (changes_of silent requests (others is_read started.ran))
serve_all-Sublist_example = serve_all-Sublist silent requests started
