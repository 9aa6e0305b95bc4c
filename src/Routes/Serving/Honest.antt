-- ===== src/Routes/Serving/Honest.antt =====
-- What a process that serves requests has in its cache, and what it blames.
use nf_orchestrator.Prelude.{
  ℕ, ◌≡◌, refl, Bool, true, false, List, [], ◌∷◌, none, Bool-cases, inl, inr,
}
use nf_orchestrator.Text.{Text, text, text_eq}
use nf_orchestrator.Errors.{DeployError, Result, ok, err, deploy}
use nf_orchestrator.Intent.{Intent}
use nf_orchestrator.Host.{Host, State, Command, timed_out}
use nf_orchestrator.Host.Keeps.{HasHonestCache}
use nf_orchestrator.Deploy.Apply
use nf_orchestrator.Deploy.Apply.Keeps.{Keeps-deploy}
use nf_orchestrator.Deploy.Probe.{readyz}
use nf_orchestrator.Deploy.Run.{command_eq, run_bounded}
use nf_orchestrator.Deploy.Run.Blame.{Justified}
use nf_orchestrator.Deploy.Run.Laws.{run_bounded-blame}
use nf_orchestrator.Deploy.Run.Keeps.{Keeps-check_cluster}
use nf_orchestrator.Reconciler.Reconcile.Keeps.{Keeps-reconcile, Keeps-teardown}
use nf_orchestrator.Routes.{
  get_readyz, counted, create_deployment, repair_deployment, get_deployment, delete_deployment,
  record_deploy, record_repair,
}
use nf_orchestrator.Routes.Serving.{
  Request, readiness, creation, repairing, inspection, removal, started, serve, serve_all,
}

counted-honest :
    {A : Type 0} (tally : Text → State → State) (r : Result A) (s : State)
    → ((result : Text) (t : State) → (tally result t).probe ≡ t.probe)
    → HasHonestCache s
    → HasHonestCache (counted tally r s)
unfolding counted
counted-honest tally (ok a) s same c = rw (same (text "success") s) c
counted-honest tally (err (deploy e)) s same c = rw (same (text "failed") s) c
counted-honest tally (err _) s same c = c

deploy-honest :
    (h : Host) (intent : Intent) (force : Bool) (s : State)
    → HasHonestCache s
    → HasHonestCache (Apply.deploy h intent force s).1
deploy-honest h intent force s =
    let kept = (Keeps-deploy (λ _. true) h refl intent force refl refl).at s in kept.honest

serve-honest :
    (h : Host) (q : Request) (s : State) → HasHonestCache s → HasHonestCache (serve h q s).1
unfolding serve get_readyz get_deployment delete_deployment create_deployment repair_deployment
    record_deploy record_repair
serve-honest h readiness s c =
    let kept = (Keeps-check_cluster (λ _. true) h refl refl).at s in kept.honest c
serve-honest h (creation intent) s c =
    counted-honest (λ r. record_deploy r intent.environment) (Apply.deploy h intent false s).0
      (Apply.deploy h intent false s).1 (λ r t. refl) (deploy-honest h intent false s c)
serve-honest h (repairing name intent) s c = elim (Bool-cases (text_eq intent.name name)) [
  | inl same ↦ rw (same) (
      counted-honest (λ r. record_repair r intent.environment) (Apply.deploy h intent true s).0
        (Apply.deploy h intent true s).1 (λ r t. refl) (deploy-honest h intent true s c))
  | inr other ↦ rw (other) c
]
serve-honest h (inspection name) s c =
    let kept = (Keeps-reconcile (λ _. true) h refl name (λ n. refl) refl none refl).at s in
    kept.honest c
serve-honest h (removal name) s c =
    let kept = (Keeps-teardown (λ _. true) h refl name refl refl).at s in kept.honest c

serve_all-honest :
    (h : Host) (qs : List Request) (s : State)
    → HasHonestCache s
    → HasHonestCache (serve_all h qs s).1
unfolding serve_all
serve_all-honest h [] s c = c
serve_all-honest h (q ∷ qs) s c = serve_all-honest h qs (serve h q s).1 (serve-honest h q s c)

-- Whatever a process that has just started was asked before, a call then, not of the probe's own
-- arguments, that is killed for silence and raises an error blames what the settled probe and the
-- time of the last success support: "unreachable" is said only when that probe was unanswered and
-- no success was recorded in the window before, "busy" only when the probe was answered or a
-- success was so recorded, and "overloaded" only of a probe that did not start or that this host,
-- not the server, took long over. A success is what `note_success` records, which need not be an
-- answer of the cluster.
pub served-blame :
    (h : Host) (qs : List Request) (command args : Command) (timeout : ℕ) (t : State)
    (partial : Text) (e : DeployError)
    → command_eq args readyz ≡ false
    → h.answer (serve_all h qs started).1.looks command timeout ≡ timed_out partial
    → run_bounded h command args timeout (serve_all h qs started).1 ≡ (err (deploy e), t)
    → Justified h t e.kind
served-blame h qs command args timeout t partial e other silent raised =
    run_bounded-blame h command args timeout (serve_all h qs started).1 t partial e
      (serve_all-honest h qs started refl) other silent raised
