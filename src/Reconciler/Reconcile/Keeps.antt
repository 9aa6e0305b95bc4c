-- ===== src/Reconciler/Reconcile/Keeps.antt =====
-- Reconciling reads: it runs helm's history and values, kubectl's list of pods and the probe's
-- command, and nothing else; a teardown also runs helm's uninstall.
use nf_orchestrator.Prelude.{ℕ, ◌≡◌, Bool, true, false, Option, none, some, List, [], ◌∷◌, ◌++◌}
use nf_orchestrator.Text.{Text, text}
use nf_orchestrator.Json.{Json, null, bool, num, neg, str, arr, obj}
use nf_orchestrator.Host.{Host, Command}
use nf_orchestrator.Host.Keeps.{Keeps, keeps_rules}
use nf_orchestrator.Deploy.Probe.{probe_command}
use nf_orchestrator.Deploy.Tools.{helm, kubectl}
use nf_orchestrator.Deploy.Run.Keeps.{Keeps-run_helm, Keeps-run_kubectl}
use nf_orchestrator.Reconciler.State.{Pod}
use nf_orchestrator.Reconciler.History.{
  Entry, deployed_revision, status_command, history_command, helm_release_status,
}
use nf_orchestrator.Reconciler.History.Keeps.{Keeps-existing_history, Keeps-helm_release_status}
use nf_orchestrator.Reconciler.Pods.{list_items, pod_states}
use nf_orchestrator.Deploy.Run.{run_helm}
use nf_orchestrator.Deploy.Run.Changes.{
  Changes, Changes-Keeps, Changes-behind, Changes-first, Changes-run_helm,
}
use nf_orchestrator.Reconciler.Reconcile.{
  values_command, no_replicas, read_replicas, replicas_of, history_or, desired_replicas, pods_or,
  report_from, reconcile_history, reconcile, uninstall_command, teardown_status, teardown,
}

-- `kubectl get pods`, as it is run.
abbrev pub pods_command : Host → (selector : Text) → Command
pods_command h selector =
    kubectl
    ∷ text "--context"
    ∷ h.config.kube_context
    ∷ text "get"
    ∷ text "pods"
    ∷ text "-l"
    ∷ selector
    ∷ text "--output"
    ∷ text "json"
    ∷ []

module _ (allowed : Command → Bool) (h : Host) (probing : allowed (probe_command h) ≡ true) where
  pub Keeps-list_items :
      (selector : Text)
      → allowed (pods_command h selector) ≡ true
      → Keeps allowed (list_items h selector)
  unfolding list_items
  Keeps-list_items selector fine = search (keeps_rules, Keeps-run_kubectl) depth 9

  Keeps-pod_states :
      (name : Text)
      → allowed (pods_command h (text "app=" ++ name)) ≡ true
      → Keeps allowed (pod_states h name)
  unfolding pod_states
  Keeps-pod_states name fine = search (keeps_rules, Keeps-list_items)

  module _ (name : Text) where
    Keeps-read_replicas : (o : Option Json) → Keeps allowed (read_replicas h name o)
    unfolding read_replicas no_replicas
    Keeps-read_replicas none = search keeps_rules
    Keeps-read_replicas (some null) = search keeps_rules
    Keeps-read_replicas (some (bool b)) = search keeps_rules
    Keeps-read_replicas (some (num n)) = search keeps_rules
    Keeps-read_replicas (some (neg n)) = search keeps_rules
    Keeps-read_replicas (some (str s)) = search keeps_rules
    Keeps-read_replicas (some (arr js)) = search keeps_rules
    Keeps-read_replicas (some (obj fs)) = search keeps_rules

    module _
        (valuing : (revision : ℕ) → allowed (helm ∷ values_command h name revision) ≡ true) where
      Keeps-replicas_of : (revision : Option ℕ) → Keeps allowed (replicas_of h name revision)
      unfolding replicas_of
      Keeps-replicas_of none = search keeps_rules
      Keeps-replicas_of (some revision) =
          search (keeps_rules, Keeps-run_helm, Keeps-read_replicas) depth 9

      Keeps-desired_replicas :
          (history : List Entry) → Keeps allowed (desired_replicas h name (some history))
      unfolding desired_replicas history_or
      Keeps-desired_replicas history = Keeps-replicas_of (deployed_revision history)

      module _ (listing : allowed (pods_command h (text "app=" ++ name)) ≡ true) where
        Keeps-pods_or : (pods : Option (List Pod)) → Keeps allowed (pods_or h name pods)
        unfolding pods_or
        Keeps-pods_or none = Keeps-pod_states name listing
        Keeps-pods_or (some pods) = search keeps_rules

        Keeps-report_from :
            (pods : Option (List Pod)) (history : List Entry) (helm_status : Text)
            → Keeps allowed (report_from h name pods history helm_status)
        unfolding report_from
        Keeps-report_from pods history helm_status =
            search (keeps_rules, Keeps-desired_replicas, Keeps-pods_or)

        Keeps-reconcile_history :
            (pods : Option (List Pod)) (history : Option (List Entry))
            → Keeps allowed (reconcile_history h name pods history)
        unfolding reconcile_history
        Keeps-reconcile_history pods none = search keeps_rules
        Keeps-reconcile_history pods (some []) = search keeps_rules
        Keeps-reconcile_history pods (some (e ∷ es)) = search (keeps_rules, Keeps-report_from)

        pub Keeps-reconcile :
            (pods : Option (List Pod))
            → allowed (helm ∷ history_command h name) ≡ true
            → Keeps allowed (reconcile h name pods)
        unfolding reconcile
        Keeps-reconcile pods asking =
            search (keeps_rules, Keeps-existing_history, Keeps-reconcile_history)

    Keeps-teardown_status :
        (status : Option Json)
        → allowed (helm ∷ uninstall_command h name) ≡ true
        → Keeps allowed (teardown_status h name status)
    unfolding teardown_status
    Keeps-teardown_status none removing = search keeps_rules
    Keeps-teardown_status (some status) removing = search (keeps_rules, Keeps-run_helm)

    pub Keeps-teardown :
        allowed (helm ∷ status_command h name) ≡ true
        → allowed (helm ∷ uninstall_command h name) ≡ true
        → Keeps allowed (teardown h name)
    unfolding teardown
    Keeps-teardown asking removing =
        search (keeps_rules, Keeps-helm_release_status, Keeps-teardown_status)

    module _ (removing : allowed (helm ∷ uninstall_command h name) ≡ false) where
      Changes-teardown_status :
          (status : Option Json)
          → Changes allowed ((helm ∷ uninstall_command h name) ∷ []) (teardown_status h name status)
      unfolding teardown_status
      Changes-teardown_status none = Changes-Keeps allowed _ (search keeps_rules)
      Changes-teardown_status (some status) =
          Changes-first allowed (run_helm h (uninstall_command h name)) _
            (Changes-run_helm allowed h probing (uninstall_command h name) removing)
            (λ _. search keeps_rules)

      -- Where the uninstall is not allowed, it is run at most once.
      pub Changes-teardown :
          allowed (helm ∷ status_command h name) ≡ true
          → Changes allowed ((helm ∷ uninstall_command h name) ∷ []) (teardown h name)
      unfolding teardown
      Changes-teardown asking =
          Changes-behind allowed (helm_release_status h name) _
            (Keeps-helm_release_status allowed h probing name asking) Changes-teardown_status
