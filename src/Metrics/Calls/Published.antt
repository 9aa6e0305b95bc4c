-- ===== src/Metrics/Calls/Published.antt =====
-- The series of a scrape that reports every release.
use nf_orchestrator.Prelude.{◌≡◌, refl, Bool, some, List, [], ◌∷◌, map}
use nf_orchestrator.Text.{Text}
use nf_orchestrator.Host.{Host}
use nf_orchestrator.Reconciler.Reconcile.{Report}
use nf_orchestrator.Metrics.Tally.{
  cluster_reachable, releases_unreported, release_reported, deployment_state, desired_replicas,
  ready_replicas, operation_state, plain, release, state_of, operation_of, deadline, error, busy,
  host, one_if, same_state, same_operation, nf_states, operation_states, Family, Recorded, tally,
}
use nf_orchestrator.Metrics.Futures.Live.{IsComplete, each}
use nf_orchestrator.Metrics.Scrape.{Answers, emit}
use nf_orchestrator.Metrics.Scrape.Claims.{samples_of}

-- The series that a scrape emits say that the cluster can be reached, leave no release unreported,
-- for any reason, and hold each release's report, in order.
pub record Publishes (report : Text → Report) (names : List Text) (families : List Family)
    : Type 0 where
  pub reachable : samples_of cluster_reachable families ≡ some ((plain, 1) ∷ [])
  pub unreported :
      samples_of releases_unreported families
      ≡ some ((deadline, 0) ∷ (error, 0) ∷ (busy, 0) ∷ (host, 0) ∷ [])
  pub reported :
      samples_of release_reported families
      ≡ some (each report (λ name r. (release name, 1) ∷ []) names)
  pub states :
      samples_of deployment_state families
      ≡ some (
          each report
            (λ name r. map (λ s. (state_of name s, one_if (same_state r.state s))) nf_states)
            names)
  pub desired :
      samples_of desired_replicas families
      ≡ some (each report (λ name r. (release name, r.desired_replicas) ∷ []) names)
  pub ready :
      samples_of ready_replicas families
      ≡ some (each report (λ name r. (release name, r.ready_replicas) ∷ []) names)
  pub operations :
      samples_of operation_state families
      ≡ some (
          each report
            (λ name r.
              map
                (λ s. (operation_of name s, one_if (same_operation r.last_operation.state s)))
                operation_states)
            names)

pub emit-Publishes :
    (h : Host) (a : Answers) (r : Recorded) (exhausted misconfigured throttled : Bool)
    (report : Text → Report) (names : List Text)
    → IsComplete report names (tally exhausted misconfigured a.futures)
    → Publishes report names (emit h a r exhausted misconfigured throttled)
unfolding emit
emit-Publishes h a r exhausted misconfigured throttled report names whole = record {
  reachable = refl;
  unreported = rw (whole.late, whole.errored, whole.refused, whole.ours) refl;
  reported = rw (whole.reported) refl;
  states = rw (whole.states) refl;
  desired = rw (whole.desired) refl;
  ready = rw (whole.ready) refl;
  operations = rw (whole.operations) refl;
}
