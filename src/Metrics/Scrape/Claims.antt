-- ===== src/Metrics/Scrape/Claims.antt =====
-- What a scrape claims of the cluster, and of which releases.
use nf_orchestrator.Prelude.{
  ℕ, ◌+◌, ◌≡◌, refl, inl, inr, Bool, true, false, not, ◌||◌, ◌&&◌, option, List, [], ◌∷◌, Option,
  none, some, arith, length, if◌then◌else◌, Option-cases, is_none, Bool-cases, any, map, sym, ap,
  ◌∙◌,
}
use nf_orchestrator.Text.{Text}
use nf_orchestrator.Errors.{
  Kind, deploy_error, cluster_unreachable, cluster_busy, cluster_conflict, host_overloaded,
  host_exhausted, host_misconfigured, deploy, os, crash, Result, ok, err,
}
use nf_orchestrator.Host.{Host}
use nf_orchestrator.Metrics.Tally.{
  Series, cluster_reachable, cluster_busy_now, orchestrator_exhausted, orchestrator_misconfigured,
  releases_unreported, release_reported, deployment_state, desired_replicas, ready_replicas,
  operation_state, plain, Samples, Family, Recorded, Future, tally, record_probe, release, one_if,
}
use nf_orchestrator.Metrics.Tally.Laws.{
  total, reported_count, is_reported, has_raised, tally-counts, tally-reported, tally-raised,
}
use nf_orchestrator.Metrics.Scrape.{Answers, emit, pods_failure, collect}

abbrev series_eq : Series → Series → Bool
series_eq cluster_reachable cluster_reachable = true
series_eq releases_unreported releases_unreported = true
series_eq release_reported release_reported = true
series_eq cluster_busy_now cluster_busy_now = true
series_eq orchestrator_exhausted orchestrator_exhausted = true
series_eq orchestrator_misconfigured orchestrator_misconfigured = true
series_eq deployment_state deployment_state = true
series_eq desired_replicas desired_replicas = true
series_eq ready_replicas ready_replicas = true
series_eq operation_state operation_state = true
series_eq _ _ = false

-- The samples of a series, where the scrape emits it.
abbrev pub samples_of : Series → List Family → Option Samples
samples_of s [] = none
samples_of s (f ∷ fs) = if series_eq f.series s then some f.samples else samples_of s fs

-- What the samples of a series add up to, where the scrape emits it.
abbrev pub sum_of : Series → List Family → ℕ
sum_of s fs = option 0 total (samples_of s fs)

abbrev reachability_after : Kind → Option Samples
reachability_after host_overloaded = none
reachability_after host_exhausted = none
reachability_after host_misconfigured = none
reachability_after cluster_busy = some ((plain, 1) ∷ [])
reachability_after cluster_unreachable = some ((plain, 0) ∷ [])
reachability_after cluster_conflict = some ((plain, 0) ∷ [])
reachability_after deploy_error = some ((plain, 0) ∷ [])

-- What may be said of the cluster's reachability by how the listing of the releases ended: that
-- it can be reached if it answered or refused for being busy, nothing where the host is at fault,
-- and else that it cannot.
abbrev reachability : Result (List Text) → Option Samples
reachability (ok _) = some ((plain, 1) ∷ [])
reachability (err (deploy e)) = reachability_after e.kind
reachability (err (os _)) = some ((plain, 0) ∷ [])
reachability (err crash) = some ((plain, 0) ∷ [])

abbrev is_crash : {A : Type 0} → Result A → Bool
is_crash (ok _) = false
is_crash (err (deploy _)) = false
is_crash (err (os _)) = false
is_crash (err crash) = true

abbrev pub is_ok : {A : Type 0} → Result A → Bool
is_ok (ok _) = true
is_ok (err _) = false

total-samples :
    (fs : List (Text × Future))
    → total (map (λ (name, f). (release name, one_if (is_reported f))) fs) ≡ reported_count fs
total-samples [] = refl
total-samples ((name, f) ∷ fs) = omega (arith, total-samples fs)

module _ (h : Host) (a : Answers) where
  -- A scrape says that the cluster is reachable, that it is not, or nothing of it, by how listing
  -- the releases ended: it makes no claim where this host was at fault.
  collect-reachable :
      (families : List Family)
      → collect h a ≡ some families
      → samples_of cluster_reachable families ≡ reachability a.listed
  unfolding collect
  collect-reachable families e = ground arith

  -- A scrape ends without its series exactly where listing the releases, listing the pods once
  -- those are listed, or the future of a release raises an exception that is no `DeployError` and
  -- no `OSError`.
  collect-crash : is_none (collect h a) ≡ (
      is_crash a.listed
      || is_ok a.listed && (is_crash a.pods_listed || any (λ (_, f). has_raised f) a.futures))
  unfolding collect
  collect-crash = ground (
    arith,
    tally-raised true true a.futures,
    tally-raised true false a.futures,
    tally-raised false true a.futures,
    tally-raised false false a.futures,
  )

  emit-accounts :
      (r : Recorded) (exhausted misconfigured throttled : Bool)
      → (tally exhausted misconfigured a.futures).raised ≡ false
      → let families = emit h a r exhausted misconfigured throttled in
        (sum_of releases_unreported families + sum_of release_reported families ≡ length a.futures)
        × (samples_of release_reported families
            ≡ some (map (λ (name, f). (release name, one_if (is_reported f))) a.futures))
  unfolding emit
  emit-accounts r exhausted misconfigured throttled quiet =
      let same = tally-reported exhausted misconfigured a.futures quiet in
      (
        rw (same) (
            omega (
              arith,
              tally-counts exhausted misconfigured a.futures quiet,
              total-samples a.futures,
            )),
        rw (same) refl,
      )

  -- Once the releases are listed and the scrape survives, each future is accounted for: the series
  -- of the unreported, by reason, and that of the reported add up to the futures, and the latter
  -- has a sample for each of them, in order, that says whether it holds a report.
  pub collect-accounts :
      (families : List Family) (names : List Text)
      → collect h a ≡ some families
      → a.listed ≡ ok names
      → (sum_of releases_unreported families + sum_of release_reported families ≡ length a.futures)
        × (samples_of release_reported families
            ≡ some (map (λ (name, f). (release name, one_if (is_reported f))) a.futures))
  unfolding collect
  collect-accounts families names e l =
      let r = record_probe a.prober_started a.measured in
      elim (Option-cases (pods_failure a.pods_listed)) [
        | inl none_caught ↦ absurd (ground arith)
        | inr ((exhausted, misconfigured, throttled), caught) ↦
            let before = not a.prober_started || exhausted in
            let rejected = a.tool_problems_found || misconfigured in
            elim (Bool-cases (tally before rejected a.futures).raised) [
              | inl loud ↦ absurd (ground arith)
              | inr quiet ↦
                  let (sums, samples) = emit-accounts r before rejected throttled quiet in
                  let same : emit h a r before rejected throttled ≡ families = ground arith in
                  (
                    ap (λ x. sum_of releases_unreported x + sum_of release_reported x) (sym same)
                        ∙ sums,
                    ap (samples_of release_reported) (sym same) ∙ samples,
                  )
            ]
      ]
