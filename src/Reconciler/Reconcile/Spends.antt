-- ===== src/Reconciler/Reconcile/Spends.antt =====
-- Reconciling makes at most three calls, and a teardown two.
use nf_orchestrator.Prelude.{ℕ, Option, none, some, List, [], ◌∷◌}
use nf_orchestrator.Text.{Text}
use nf_orchestrator.Json.{Json, null, bool, num, neg, str, arr, obj}
use nf_orchestrator.Host.{Host, expect}
use nf_orchestrator.Deploy.Run.Spends.{
  Spends, Spends-expect, Spends-first, Spends-bind, Spends-run_helm, Spends-run_kubectl,
  spends_rules,
}
use nf_orchestrator.Reconciler.State.{Pod}
use nf_orchestrator.Reconciler.History.{
  Entry, deployed_revision, latest_from, existing_history, helm_release_status,
}
use nf_orchestrator.Reconciler.History.Spends.{Spends-existing_history, Spends-helm_release_status}
use nf_orchestrator.Reconciler.Pods.{list_items, pod_states}
use nf_orchestrator.Reconciler.Reconcile.{
  no_replicas, read_replicas, replicas_of, history_or, desired_replicas, pods_or, report_from,
  reconcile_history, reconcile, teardown_status, teardown,
}

module _ (h : Host) (name : Text) where
  Spends-list_items : (selector : Text) → Spends 7 (list_items h selector)
  unfolding list_items
  Spends-list_items selector = search (spends_rules, Spends-run_kubectl) depth 9

  Spends-pods_or : (pods : Option (List Pod)) → Spends 7 (pods_or h name pods)
  unfolding pods_or pod_states
  Spends-pods_or none = search (spends_rules, Spends-list_items)
  Spends-pods_or (some pods) = search spends_rules

  Spends-read_replicas : (o : Option Json) → Spends 0 (read_replicas h name o)
  unfolding read_replicas no_replicas
  Spends-read_replicas none = search spends_rules
  Spends-read_replicas (some null) = search spends_rules
  Spends-read_replicas (some (bool b)) = search spends_rules
  Spends-read_replicas (some (num n)) = search spends_rules
  Spends-read_replicas (some (neg n)) = search spends_rules
  Spends-read_replicas (some (str s)) = search spends_rules
  Spends-read_replicas (some (arr js)) = search spends_rules
  Spends-read_replicas (some (obj fs)) = search spends_rules

  Spends-replicas_of : (revision : Option ℕ) → Spends 7 (replicas_of h name revision)
  unfolding replicas_of
  Spends-replicas_of none = search spends_rules
  Spends-replicas_of (some revision) =
      search (spends_rules, Spends-run_helm, Spends-read_replicas) depth 9

  Spends-report_from :
      (pods : Option (List Pod)) (history : List Entry) (status : Text)
      → Spends 14 (report_from h name pods history status)
  unfolding report_from desired_replicas history_or
  Spends-report_from pods history status =
      Spends-bind 7 7 (replicas_of h name (deployed_revision history)) _
        (Spends-replicas_of (deployed_revision history))
        (λ desired.
          Spends-first 7 (pods_or h name pods) _ (Spends-pods_or pods)
            (λ states. search spends_rules))

  Spends-reconcile_history :
      (pods : Option (List Pod)) (history : Option (List Entry))
      → Spends 14 (reconcile_history h name pods history)
  unfolding reconcile_history
  Spends-reconcile_history pods none = search spends_rules
  Spends-reconcile_history pods (some []) = search spends_rules
  Spends-reconcile_history pods (some (e ∷ es)) =
      Spends-bind 0 14 (expect (latest_from e es).status) _
        (Spends-expect 0 (latest_from e es).status)
        (λ status. Spends-report_from pods (e ∷ es) status)

  pub Spends-reconcile : (pods : Option (List Pod)) → Spends 21 (reconcile h name pods)
  unfolding reconcile
  Spends-reconcile pods =
      Spends-bind 7 14 (existing_history h name) _ (Spends-existing_history h name)
        (Spends-reconcile_history pods)

  Spends-teardown_status : (status : Option Json) → Spends 7 (teardown_status h name status)
  unfolding teardown_status
  Spends-teardown_status none = search spends_rules
  Spends-teardown_status (some status) = search (spends_rules, Spends-run_helm)

  pub Spends-teardown : Spends 14 (teardown h name)
  unfolding teardown
  Spends-teardown =
      Spends-bind 7 7 (helm_release_status h name) _ (Spends-helm_release_status h name)
        Spends-teardown_status
