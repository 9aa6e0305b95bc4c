-- ===== src/Metrics/Scrape.antt =====
-- `LifecycleCollector.collect`: which series a scrape emits, from the answers that it got. Its
-- threads run beside it; what they came to stands in `Answers`.
pub mod Claims
use nf_orchestrator.Prelude.{
  ℕ, Bool, true, false, not, ◌||◌, ◌==◌, List, [], ◌∷◌, Option, none, some, if◌then◌else◌, option,
}
use nf_orchestrator.Text.{Text}
use nf_orchestrator.Errors.{
  Kind, DeployError, host_misconfigured, host_overloaded, host_exhausted, cluster_busy, is_instance,
  deploy, os, crash, Result, ok, err,
}
use nf_orchestrator.Host.{Host, Probe}
use nf_orchestrator.Deploy.Probe.{slow, exhausted}
use nf_orchestrator.Metrics.Tally.{
  Series, cluster_reachable, cluster_busy_now, probe_seconds, probe_local, orchestrator_exhausted,
  orchestrator_misconfigured, releases_unreported, release_reported, deployment_state,
  desired_replicas, ready_replicas, operation_state, plain, deadline, error, busy, host, Samples,
  Family, Future, Recorded, record_probe, one_if, tally,
}

pub record Answers : Type 0 where
  pub tool_problems_found : Bool
  pub prober_started : Bool
  pub measured : Option Probe
  pub listed : Result (List Text)
  pub pods_listed : Result (Unit {0})
  pub futures : List (Text × Future)

abbrev family : Series → Samples → Family
family series samples = record { series = series; samples = samples }

abbrev pub flag : Series → Bool → Family
flag series b = family series ((plain, one_if b) ∷ [])

abbrev is_misconfiguration : Option DeployError → Bool
is_misconfiguration o = option false (λ e. is_instance e.kind host_misconfigured) o

-- The handlers around `release_pods()`: whether the host was exhausted, whether it was
-- misconfigured and whether the API server refused; `none` for what none of them catches.
unfoldable pub pods_failure : Result (Unit {0}) → Option (Bool × Bool × Bool)
unfolding is_instance
pods_failure (ok _) = some (false, false, false)
pods_failure (err (deploy e)) =
    if is_instance e.kind host_misconfigured
    then some (false, true, false)
    else if is_instance e.kind host_overloaded
    then some (is_instance e.kind host_exhausted, false, false)
    else if is_instance e.kind cluster_busy
    then some (false, false, true)
    else some (false, false, false)
pods_failure (err (os e)) = some (false, false, false)
pods_failure (err crash) = none

module _ (h : Host) where
  -- The rest of `collect` once the releases are listed.
  unfoldable pub emit :
      Answers → Recorded → (exhausted misconfigured throttled : Bool) → List Family
  unfolding tally
  emit a r exhausted_before misconfigured_before throttled =
      let t = tally exhausted_before misconfigured_before a.futures in
      let busy_now = throttled || not (t.refused == 0) || option false (λ p. slow h p) r.probe in
      flag cluster_reachable true
      ∷ flag cluster_busy_now busy_now
      ∷ family probe_seconds r.cluster_seconds
      ∷ family probe_local r.host_seconds
      ∷ flag orchestrator_exhausted (t.exhausted || option false exhausted r.probe)
      ∷ flag orchestrator_misconfigured
          (t.misconfigured || option false (λ p. is_misconfiguration p.spawn_failure) r.probe)
      ∷ family releases_unreported
          ((deadline, t.late) ∷ (error, t.errored) ∷ (busy, t.refused) ∷ (host, t.ours) ∷ [])
      ∷ family release_reported t.reported
      ∷ family deployment_state t.states
      ∷ family desired_replicas t.desired
      ∷ family ready_replicas t.ready
      ∷ family operation_state t.operations
      ∷ []

  abbrev emit_after_pods : Answers → Recorded → Option (Bool × Bool × Bool) → Option (List Family)
  emit_after_pods a r none = none
  emit_after_pods a r (some (exhausted, misconfigured, throttled)) =
      let exhausted_before = not a.prober_started || exhausted in
      let misconfigured_before = a.tool_problems_found || misconfigured in
      if (tally exhausted_before misconfigured_before a.futures).raised
      then none
      else some (emit a r exhausted_before misconfigured_before throttled)

  -- The handlers around `release_names()`.
  unfoldable pub emit_unlisted : Answers → Recorded → Kind → List Family
  unfolding is_instance
  emit_unlisted a r k =
      if is_instance k host_misconfigured
      then family probe_seconds r.cluster_seconds
        ∷ family probe_local r.host_seconds
        ∷ flag orchestrator_misconfigured true
        ∷ []
      else if is_instance k host_overloaded
      then family probe_seconds r.cluster_seconds
        ∷ family probe_local r.host_seconds
        ∷ flag orchestrator_exhausted
            (not a.prober_started || is_instance k host_exhausted || option false exhausted r.probe)
        ∷ []
      else if is_instance k cluster_busy
      then flag cluster_reachable true
        ∷ flag cluster_busy_now true
        ∷ family probe_seconds r.cluster_seconds
        ∷ family probe_local r.host_seconds
        ∷ []
      else flag cluster_reachable false ∷ family probe_local r.host_seconds ∷ []

  -- `none` where an exception that no handler names ends the scrape.
  emit_listed : Answers → Recorded → Result (List Text) → Option (List Family)
  unfolding pods_failure emit emit_unlisted
  emit_listed a r (ok names) = emit_after_pods a r (pods_failure a.pods_listed)
  emit_listed a r (err (deploy e)) = some (emit_unlisted a r e.kind)
  emit_listed a r (err (os e)) =
      some (flag cluster_reachable false ∷ family probe_local r.host_seconds ∷ [])
  emit_listed a r (err crash) = none

  unfoldable pub collect : Answers → Option (List Family)
  unfolding emit_listed record_probe
  collect a = emit_listed a (record_probe a.prober_started a.measured) a.listed
