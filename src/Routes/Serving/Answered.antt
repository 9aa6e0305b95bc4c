-- ===== src/Routes/Serving/Answered.antt =====
-- What a machine with the right tools, whose helm and kubectl print what they document, answers.
use nf_orchestrator.Prelude.{
  if◌then◌else◌, ℕ, ◌≡◌, refl, inl, inr, true, false, List, [], ◌∷◌, map, none, some, Bool-cases,
  Option-cases,
}
use nf_orchestrator.Text.{Text, text, text_eq}
use nf_orchestrator.Errors.{ok}
use nf_orchestrator.Host.{Host, Probe, State, finished, day_time, monotonic, run_process}
use nf_orchestrator.Deploy.Tools.{require_tools}
use nf_orchestrator.Deploy.Tools.Right.{HasRightTools, HasRightVersion, require_tools-right}
use nf_orchestrator.Deploy.Probe.{probe_command, measure_probe, remeasure, api_server_probe}
use nf_orchestrator.Deploy.Run.{check_cluster}
use nf_orchestrator.Deploy.Apply.Answered.{
  Deploys, deployment_of, deploy-answered, asks_no_version, HasRightVersion-kept,
}
use nf_orchestrator.Reconciler.History.{history_command, status_command}
use nf_orchestrator.Reconciler.Pods.{Item, parse_pods}
use nf_orchestrator.Reconciler.Reconcile.{
  Report, report, values_command, uninstall_command, reconcile, teardown,
}
use nf_orchestrator.Reconciler.Reconcile.Answered.{HasPods, reconcile-answered}
use nf_orchestrator.Reconciler.Reconcile.Keeps.{Keeps-reconcile, Keeps-teardown}
use nf_orchestrator.Reconciler.Reconcile.Removed.{Removes, removed_release, Returns-teardown}
use nf_orchestrator.Metrics.Futures.Answered.{Documented}
use nf_orchestrator.Routes.{
  replied, refused, mismatch, get_readyz, create_deployment, repair_deployment, get_deployment,
  delete_deployment,
}
use nf_orchestrator.Routes.Serving.{
  Request, readiness, creation, repairing, inspection, removal, Served, ready, created, repaired,
  inspected, removed, serve, serve_all,
}

-- The API server answers a readiness probe, whenever it is made.
pub record AnswersProbe (h : Host) : Type 0 where
  pub stdout : Text
  pub stderr : Text
  pub ends : (look limit : ℕ) → h.answer look (probe_command h) limit ≡ finished 0 stdout stderr

-- What helm and kubectl print of a release that there is.
pub record Inspects (h : Host) (name : Text) : Type 0 where
  pub documented : Documented h name
  pub items : List Item
  pub pods : HasPods h name items

-- What the machine documents for a request.
abbrev pub Documents : Host → Request → Type 0
Documents h readiness = AnswersProbe h
Documents h (creation intent) = Deploys h intent false
Documents h (repairing name intent) = Deploys h intent true
Documents h (inspection name) = Inspects h name
Documents h (removal name) = Removes h name

abbrev inspected_report : (h : Host) (name : Text) → Inspects h name → Report
inspected_report h name i =
    let d = i.documented in report name (d.entry ∷ d.entries) d.status d.count (parse_pods i.items)

-- The reply that these documents are worth.
abbrev pub reply_of : (h : Host) (q : Request) → Documents h q → Served
reply_of h readiness d = ready (replied 200 tt)
reply_of h (creation intent) d = created (replied 201 (deployment_of h intent false d))
reply_of h (repairing name intent) d =
    if text_eq intent.name name
    then repaired
        (replied 200 (record { deployment = deployment_of h intent true d; forced = true }))
    else repaired (refused (mismatch intent.name name))
reply_of h (inspection name) d = inspected (replied 200 (inspected_report h name d))
reply_of h (removal name) d = removed (replied 200 (removed_release name))

module _ (h : Host) where
  api_server_probe-answered :
      (a : AnswersProbe h) (limit : ℕ) (s : State)
      → (p : Probe) × ((api_server_probe h 0 (some limit) s).0 ≡ ok p)
        × (p.answered ≡ true)
        × ((api_server_probe h 0 (some limit) s).1.versions ≡ s.versions)
  unfolding api_server_probe remeasure measure_probe day_time monotonic run_process
  api_server_probe-answered a limit s = elim (Option-cases s.probe) [
    | inl never ↦ rw (never, a.ends) (_, refl, refl, refl)
    | inr (kept, e) ↦ rw (e, a.ends) (_, refl, refl, refl)
  ]

  check_cluster-answered :
      HasRightTools h
      → AnswersProbe h
      → (s : State) → HasRightVersion s
      → ((check_cluster h s).0 ≡ ok tt) × HasRightVersion (check_cluster h s).1
  unfolding check_cluster
  check_cluster-answered right a s kept =
      let (fine, after) = require_tools-right h right s kept in
      let t = (require_tools h s).1 in
      let (p, probed, up, same) = api_server_probe-answered a h.config.read_timeout t in
      rw (fine, probed, up, same) (refl, after)

  serve-answered :
      HasRightTools h
      → (q : Request) (d : Documents h q) (s : State) → HasRightVersion s
      → ((serve h q s).0 ≡ reply_of h q d) × HasRightVersion (serve h q s).1
  unfolding serve get_readyz create_deployment repair_deployment get_deployment delete_deployment
      history_command status_command values_command uninstall_command text text_eq
  serve-answered right readiness d s kept =
      let (fine, after) = check_cluster-answered right d s kept in rw fine (refl, after)
  serve-answered right (creation intent) d s kept =
      let (fine, after) = deploy-answered h intent false d right s kept in rw fine (refl, after)
  serve-answered right (repairing name intent) d s kept =
      elim (Bool-cases (text_eq intent.name name)) [
        | inl same ↦
            let (fine, after) = deploy-answered h intent true d right s kept in
            rw (same, fine) (refl, after)
        | inr other ↦ rw other (refl, kept)
      ]
  serve-answered right (inspection name) i s kept =
      let d = i.documented in
      let (fine, ran) =
        reconcile-answered h name d.entry d.entries d.status d.count i.items d.known d.latest
          d.desired i.pods s in
      let keeps = Keeps-reconcile asks_no_version h refl name (λ n. refl) refl none refl in
      (rw fine refl, HasRightVersion-kept (reconcile h name none) s keeps kept)
  serve-answered right (removal name) r s kept =
      let fine = Returns-teardown h name r in
      let keeps = Keeps-teardown asks_no_version h refl name refl refl in
      (rw (fine.at s) refl, HasRightVersion-kept (teardown h name) s keeps kept)

-- With helm 4 and kubectl on PATH and no problem kept about helm's version, any number of requests,
-- for each of which the machine has the documents, the same whenever they are asked for, is
-- answered with what those documents say, whatever the process did before: 200 for readiness, for
-- the report on a release that there is and for the teardown of one, 201 for a deployment, and for a
-- repair 200, or 400 where its path names another release than its intent.
pub serve_all-answered :
    (h : Host)
    → HasRightTools h
    → (qs : List ((q : Request) × Documents h q)) (s : State) → HasRightVersion s
    → (serve_all h (map (λ (q, _). q) qs) s).0 ≡ map (λ (q, d). (q, reply_of h q d)) qs
unfolding serve_all
serve_all-answered h right [] s kept = refl
serve_all-answered h right ((q, d) ∷ qs) s kept =
    let (fine, after) = serve-answered h right q d s kept in
    rw (fine, serve_all-answered h right qs (serve h q s).1 after) refl
