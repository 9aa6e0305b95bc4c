-- ===== src/Routes/Laws.antt =====
-- The status of each failure, and what the counters of the routes count.
use nf_orchestrator.Prelude.{
  ℕ, ◌+◌, ◌≡◌, ◌≢◌, refl, ◌↔◌, ◌⊎◌, inl, inr, Bool, true, false, ◌&&◌, List, [], ◌∷◌, none, some,
  arith, if◌then◌else◌, Bool-cases,
}
use nf_orchestrator.Text.{Text, text, text_eq}
use nf_orchestrator.Text.Laws.{text_eq_iff, text_eq_refl}
use nf_orchestrator.Errors.{
  DeployError, deploy_error, cluster_unreachable, cluster_busy, cluster_conflict, host_overloaded,
  host_exhausted, host_misconfigured, deploy, err,
}
use nf_orchestrator.Intent.{Intent}
use nf_orchestrator.Host.{Host, Sample, State}
use nf_orchestrator.Host.Keeps.{SameCounters}
use nf_orchestrator.Deploy.Apply
use nf_orchestrator.Deploy.Apply.Keeps.{Keeps-deploy}
use nf_orchestrator.Deploy.Run.{run_helm}
use nf_orchestrator.Reconciler.History.{history_command}
use nf_orchestrator.Reconciler.Reconcile.Laws.{reconcile-unreachable}
use nf_orchestrator.Routes.{
  get_deployment, busy_retry_after, HttpError, Reply, replied, refused, unhandled, http_error, inc,
  create_deployment, repair_deployment,
}

-- Each failure has its status, and the header that invites another try stands on just those that
-- are expected to clear: an overloaded or exhausted host and a busy cluster, all 503. An
-- unreachable cluster is 503 without it; a misconfigured host is 500, a conflict 409, any other
-- refusal 502.
http_error_lem :
    (e : DeployError)
    → (((http_error e).status ≡ 503) ↔ (
        (e.kind ≡ host_overloaded)
        ⊎ (e.kind ≡ host_exhausted)
        ⊎ (e.kind ≡ cluster_busy)
        ⊎ (e.kind ≡ cluster_unreachable)))
      × (((http_error e).retry_after ≡ some busy_retry_after)
          ↔ ((e.kind ≡ host_overloaded) ⊎ (e.kind ≡ host_exhausted) ⊎ (e.kind ≡ cluster_busy)))
      × (((http_error e).status ≡ 500) ↔ (e.kind ≡ host_misconfigured))
      × (((http_error e).status ≡ 409) ↔ (e.kind ≡ cluster_conflict))
      × (((http_error e).status ≡ 502) ↔ (e.kind ≡ deploy_error))
unfolding http_error
http_error_lem e = ground arith

-- The value of one series.
unfoldable pub count_of : Text → Text → List Sample → ℕ
count_of result environment [] = 0
count_of result environment (x ∷ xs) =
    let rest = count_of result environment xs in
    if text_eq x.result result && text_eq x.environment environment then x.count else rest

count_of-inc :
    (r e result environment : Text) (xs : List Sample)
    → count_of result environment (inc r e xs)
      ≡ count_of result environment xs
        + (if text_eq r result && text_eq e environment then 1 else 0)
unfolding count_of inc
count_of-inc r e result environment [] = ground arith
count_of-inc r e result environment (x ∷ xs) = ground (
  arith,
  count_of-inc r e result environment xs,
  text_eq_iff x.result r,
  text_eq_iff x.environment e,
  text_eq_iff x.result result,
  text_eq_iff x.environment environment,
  text_eq_iff r result,
  text_eq_iff e environment,
)

-- The value of the label `result` under which a reply is counted.
abbrev pub is_counted_as : {A : Type 0} → Reply A → Text → Bool
is_counted_as (replied _ _) result = text_eq (text "success") result
is_counted_as (refused _) result = text_eq (text "failed") result
is_counted_as (unhandled _) result = false

counters_kept :
    (h : Host) (intent : Intent) (force : Bool) (s : State)
    → SameCounters s (Apply.deploy h intent force s).1
counters_kept h intent force s =
    let kept = (Keeps-deploy (λ _. true) h refl intent force refl refl).at s in kept.counters

-- A `POST /deployments` adds one to the one series of the outcome and the intent's environment:
-- `success` where it is answered with a deployment, `failed` where it is refused. All other
-- series stay, those of the repairs too, and an exception that no handler names counts nowhere.
pub create_deployment-counts :
    (h : Host) (intent : Intent) (s : State) (result environment : Text)
    → let (reply, t) = create_deployment h intent s in
      (count_of result environment t.deployments_total
        ≡ count_of result environment s.deployments_total
          + (if is_counted_as reply result && text_eq intent.environment environment then 1 else 0))
      × (t.repairs_total ≡ s.repairs_total)
unfolding create_deployment
create_deployment-counts h intent s result environment =
    let (same_deployments, same_repairs) = counters_kept h intent false s in
    ground (
      arith,
      count_of-inc (text "success") intent.environment result environment s.deployments_total,
      count_of-inc (text "failed") intent.environment result environment s.deployments_total,
    )

-- A repair whose path names another function than its intent is answered with 400 and changes
-- nothing: no process is started and nothing is counted.
repair_deployment-mismatch :
    (h : Host) (name : Text) (intent : Intent) (s : State)
    → intent.name ≢ name
    → (error : HttpError) × (repair_deployment h name intent s ≡ (refused error, s))
      × (error.status ≡ 400)
unfolding repair_deployment
repair_deployment-mismatch h name intent s ne = elim (Bool-cases (text_eq intent.name name)) [
  | inl same ↦ absurd (ne ((text_eq_iff intent.name name).0 same))
  | inr other ↦ rw (other, repair_deployment) (_, refl, refl)
]

-- A repair of the function that its path names adds one to the one series of repairs of its outcome
-- and environment, as a deployment does to its own; the deployments' series stay.
pub repair_deployment-counts :
    (h : Host) (intent : Intent) (s : State) (result environment : Text)
    → let (reply, t) = repair_deployment h intent.name intent s in
      (count_of result environment t.repairs_total
        ≡ count_of result environment s.repairs_total
          + (if is_counted_as reply result && text_eq intent.environment environment then 1 else 0))
      × (t.deployments_total ≡ s.deployments_total)
unfolding repair_deployment
repair_deployment-counts h intent s result environment =
    let (same_deployments, same_repairs) = counters_kept h intent true s in
    ground (
      arith,
      text_eq_refl intent.name,
      count_of-inc (text "success") intent.environment result environment s.repairs_total,
      count_of-inc (text "failed") intent.environment result environment s.repairs_total,
    )

-- When helm cannot reach the cluster for the history, asking for a release is answered with 503,
-- helm's own words and no invitation to retry: never with a state.
get_deployment-unreachable :
    (h : Host) (name : Text) (s : State) (e : DeployError)
    → (run_helm h (history_command h name) s).0 ≡ err (deploy e)
    → e.kind ≡ cluster_unreachable
    → (error : HttpError) × ((get_deployment h name s).0 ≡ refused error)
      × (error.status ≡ 503)
      × (error.detail ≡ e.message)
      × (error.retry_after ≡ none)
unfolding get_deployment http_error
get_deployment-unreachable h name s e failed k =
    let raised = reconcile-unreachable h name s e none failed k in
    (http_error e, rw raised, ground arith, ground arith, ground arith)
