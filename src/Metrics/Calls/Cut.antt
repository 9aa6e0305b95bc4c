-- ===== src/Metrics/Calls/Cut.antt =====
-- A scrape of a cluster that helm cannot reach.
use nf_orchestrator.Prelude.{ℕ, suc, ◌≡◌, refl, false, ◌==◌, none, some, List, [], ◌∷◌}
use nf_orchestrator.Text.{Text}
use nf_orchestrator.Errors.{DeployError, cluster_unreachable, deploy, ok, err, is_instance}
use nf_orchestrator.Errors.Classify.{classify_error}
use nf_orchestrator.Host.{Host, State, finished, monotonic, run_process}
use nf_orchestrator.Deploy.Tools.{helm}
use nf_orchestrator.Deploy.Tools.Laws.{tool_problems_total}
use nf_orchestrator.Deploy.Probe.{note_success}
use nf_orchestrator.Deploy.Run.{words_of, run_bounded, run_helm}
use nf_orchestrator.Deploy.Releases.{list_page, list_command, list_batch, list_from, list_releases}
use nf_orchestrator.Metrics.Tally.{
  cluster_reachable, cluster_busy_now, releases_unreported, release_reported, deployment_state,
  desired_replicas, ready_replicas, operation_state, plain, Family,
}
use nf_orchestrator.Metrics.Scrape.{collect, emit_unlisted}
use nf_orchestrator.Metrics.Scrape.Claims.{samples_of}
use nf_orchestrator.Metrics.Calls.{Threads, collect_from, collect_calls}

-- helm's list fails, whenever it is asked for, with words that say that the cluster was not reached.
pub record CannotList (h : Host) : Type 0 where
  pub code : ℕ
  pub stdout : Text
  pub stderr : Text
  pub ends :
      (look limit : ℕ)
      → h.answer look (helm ∷ list_command h list_page 0) limit ≡ finished code stdout stderr
  pub failed : (code == 0) ≡ false
  pub unreached : (classify_error (words_of stdout stderr)).kind ≡ cluster_unreachable

module _ (h : Host) (cut : CannotList h) where
  abbrev error : DeployError
  error = classify_error (words_of cut.stdout cut.stderr)

  list_releases-cut :
      (fuel : ℕ) (s : State) → (list_releases h (suc fuel) list_page s).0 ≡ err (deploy error)
  unfolding list_releases list_from list_batch run_helm run_bounded run_process is_instance
      note_success
  list_releases-cut fuel s = rw (cut.ends, cut.failed, cut.unreached) refl

  -- When helm's list fails, whenever it is asked for, with words that say that the cluster was not
  -- reached, a scrape, with fuel for one page at least, says that the cluster cannot be reached and
  -- nothing of any release, nor that the cluster is busy, whatever the process did before, and
  -- whatever its threads come to.
  pub collect_calls-cut :
      (threads : Threads) (budget fuel : ℕ) (s : State)
      → (families : List Family) × ((collect_calls h threads budget (suc fuel) s).0
          ≡ ok (some families))
        × (samples_of cluster_reachable families ≡ some ((plain, 0) ∷ []))
        × (samples_of cluster_busy_now families ≡ none)
        × (samples_of releases_unreported families ≡ none)
        × (samples_of release_reported families ≡ none)
        × (samples_of deployment_state families ≡ none)
        × (samples_of desired_replicas families ≡ none)
        × (samples_of ready_replicas families ≡ none)
        × (samples_of operation_state families ≡ none)
  unfolding collect_calls collect_from monotonic collect emit_unlisted is_instance
  collect_calls-cut threads budget fuel s =
      let t1 = record s { looks = suc s.looks } in
      let (problems, t2, told, _, _) = tool_problems_total h t1 in
      rw (told, list_releases-cut fuel t2, cut.unreached)
        (_, refl, refl, refl, refl, refl, refl, refl, refl, refl)
