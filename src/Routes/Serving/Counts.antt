-- ===== src/Routes/Serving/Counts.antt =====
-- What a process that serves requests has counted.
use nf_orchestrator.Prelude.{
  ◌+◌, ◌≡◌, refl, Bool, true, false, ◌&&◌, List, [], ◌∷◌, none, arith, subst, length, keep,
  if◌then◌else◌, Bool-cases, inl, inr,
}
use nf_orchestrator.Text.{Text, text_eq}
use nf_orchestrator.Text.Laws.{text_eq_refl, text_eq_iff}
use nf_orchestrator.Intent.{Intent}
use nf_orchestrator.Host.{Host, State}
use nf_orchestrator.Host.Keeps.{SameCounters}
use nf_orchestrator.Deploy.Run.{check_cluster}
use nf_orchestrator.Deploy.Run.Keeps.{Keeps-check_cluster}
use nf_orchestrator.Reconciler.Reconcile.{reconcile, teardown}
use nf_orchestrator.Reconciler.Reconcile.Keeps.{Keeps-reconcile, Keeps-teardown}
use nf_orchestrator.Routes.{get_readyz, repair_deployment, get_deployment, delete_deployment}
use nf_orchestrator.Routes.Laws.{
  count_of, is_counted_as, create_deployment-counts, repair_deployment-counts,
}
use nf_orchestrator.Routes.Serving.{
  Request, readiness, creation, repairing, inspection, removal, Served, serve, serve_all, created,
  repaired,
}

-- Whether a request adds to a series of deployments, and of repairs, by its reply.
abbrev pub counts_deployment : (result environment : Text) → Request × Served → Bool
counts_deployment result environment (creation intent, created reply) =
    is_counted_as reply result && text_eq intent.environment environment
counts_deployment _ _ _ = false

abbrev pub counts_repair : (result environment : Text) → Request × Served → Bool
counts_repair result environment (repairing name intent, repaired reply) =
    text_eq intent.name name
    && (is_counted_as reply result && text_eq intent.environment environment)
counts_repair _ _ _ = false

-- Both counters, by one request.
abbrev Counts : Host → Request → State → (result environment : Text) → Type 0
Counts h q s result environment =
    let (reply, t) = serve h q s in
    (count_of result environment t.deployments_total
      ≡ count_of result environment s.deployments_total
        + (if counts_deployment result environment (q, reply) then 1 else 0))
    × (count_of result environment t.repairs_total
        ≡ count_of result environment s.repairs_total
          + (if counts_repair result environment (q, reply) then 1 else 0))

count_of-same :
    (result environment : Text) (s t : State)
    → SameCounters s t
    → (count_of result environment t.deployments_total
        ≡ count_of result environment s.deployments_total + 0)
      × (count_of result environment t.repairs_total
          ≡ count_of result environment s.repairs_total + 0)
count_of-same result environment s t (d, r) = (rw (d) (omega arith), rw (r) (omega arith))

repairing-Counts :
    (h : Host) (name : Text) (intent : Intent) (s : State) (result environment : Text)
    → Counts h (repairing name intent) s result environment
unfolding serve repair_deployment count_of
repairing-Counts h name intent s result environment = elim (Bool-cases (text_eq intent.name name)) [
  | inl same ↦
      let e : intent.name ≡ name = (text_eq_iff intent.name name).0 same in
      let (repairs, deployments) = repair_deployment-counts h intent s result environment in
      subst (λ n. Counts h (repairing n intent) s result environment) e
        (ground (arith, text_eq_refl intent.name, repairs, deployments))
  | inr other ↦ rw (repair_deployment, other) (omega arith, omega arith)
]

serve-Counts :
    (h : Host) (q : Request) (s : State) (result environment : Text)
    → Counts h q s result environment
unfolding serve get_readyz get_deployment delete_deployment
serve-Counts h readiness s result environment =
    let kept = (Keeps-check_cluster (λ _. true) h refl refl).at s in
    count_of-same result environment s (check_cluster h s).1 kept.counters
serve-Counts h (creation intent) s result environment =
    let (counts, same) = create_deployment-counts h intent s result environment in
    (counts, rw (same) (omega arith))
serve-Counts h (repairing name intent) s result environment =
    repairing-Counts h name intent s result environment
serve-Counts h (inspection name) s result environment =
    let kept = (Keeps-reconcile (λ _. true) h refl name (λ n. refl) refl none refl).at s in
    count_of-same result environment s (reconcile h name none s).1 kept.counters
serve-Counts h (removal name) s result environment =
    let kept = (Keeps-teardown (λ _. true) h refl name refl refl).at s in
    count_of-same result environment s (teardown h name s).1 kept.counters

-- Each series of the two counters is, after any sequence of requests, what it was before and the
-- number of the requests that its labels name: the deployments, and the repairs of the function
-- that their path names, of that environment, that were answered (`success`) or refused (`failed`).
-- Readings and teardowns, mismatched repairs and replies that no handler made count nowhere.
pub serve_all-counts :
    (h : Host) (qs : List Request) (s : State) (result environment : Text)
    → let (log, t) = serve_all h qs s in
      (count_of result environment t.deployments_total
        ≡ count_of result environment s.deployments_total
          + length (keep (counts_deployment result environment) log))
      × (count_of result environment t.repairs_total
          ≡ count_of result environment s.repairs_total
            + length (keep (counts_repair result environment) log))
unfolding serve_all
serve_all-counts h [] s result environment = (omega arith, omega arith)
serve_all-counts h (q ∷ qs) s result environment = ground (
  arith,
  serve-Counts h q s result environment,
  serve_all-counts h qs (serve h q s).1 result environment,
)
