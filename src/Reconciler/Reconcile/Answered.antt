-- ===== src/Reconciler/Reconcile/Answered.antt =====
-- The report on a release for which helm and kubectl print what they document.
use nf_orchestrator.Prelude.{ℕ, ◌≡◌, refl, Option, none, some, List, [], ◌∷◌, ◌++◌}
use nf_orchestrator.Text.{Text, text}
use nf_orchestrator.Json.{Json, num, get, as_list}
use nf_orchestrator.Errors.{ok}
use nf_orchestrator.Host.{Host, State, Command}
use nf_orchestrator.Deploy.Tools.{helm}
use nf_orchestrator.Deploy.Run.Returns.{Prints}
use nf_orchestrator.Deploy.Run.Runs.{
  Runs, Runs-pure, Runs-expect, Runs-bind, Runs-behind, run_helm-Runs, run_kubectl-Runs,
}
use nf_orchestrator.Reconciler.State.{Pod}
use nf_orchestrator.Reconciler.History.{
  Entry, deployed_revision, latest_from, decode_all, decode_entry, history_command,
  absent_if_not_found, release_history, existing_history,
}
use nf_orchestrator.Reconciler.Pods.{Item, decode_item, parse_pods, list_items, pod_states}
use nf_orchestrator.Reconciler.Reconcile.{
  values_command, report, read_replicas, replicas_of, history_or, desired_replicas, pods_or,
  report_from, reconcile_history, reconcile,
}
use nf_orchestrator.Reconciler.Reconcile.Keeps.{pods_command}

-- The count that the values of the deployed revision give; zero where no revision is deployed.
abbrev pub Desires : Host → Text → Option ℕ → ℕ → Type 0
Desires h name none n = n ≡ 0
Desires h name (some revision) n =
    (values : Json) × Prints h (helm ∷ values_command h name revision) values
    × (get (text "replicaCount") values ≡ some (num n))

-- helm's history of the release, as entries.
abbrev pub HasHistory : Host → Text → List Entry → Type 0
HasHistory h name entries =
    (document : Json) × (items : List Json) × Prints h (helm ∷ history_command h name) document
    × (as_list document ≡ some items)
    × (decode_all decode_entry items ≡ some entries)

-- The pods that kubectl lists for a selector.
abbrev pub ListsPods : Host → (selector : Text) → List Item → Type 0
ListsPods h selector items =
    (document field : Json) × (elements : List Json) × Prints h (pods_command h selector) document
    × (get (text "items") document ≡ some field)
    × (as_list field ≡ some elements)
    × (decode_all decode_item elements ≡ some items)

-- The pods that kubectl lists of the release.
abbrev pub HasPods : Host → Text → List Item → Type 0
HasPods h name items = ListsPods h (text "app=" ++ name) items

pub Runs-list_items :
    (h : Host) (selector : Text) (items : List Item)
    → ListsPods h selector items
    → Runs (pods_command h selector ∷ []) (list_items h selector) items
unfolding list_items
Runs-list_items h selector items (document, field, elements, p, found, list, decoded) =
    Runs-bind _ _ p.output items (run_kubectl-Runs h _ document p) (
      Runs-bind _ _ document items (Runs-expect _ document p.parses) (
        Runs-bind _ _ field items (Runs-expect _ field found) (
          Runs-bind _ _ elements items (Runs-expect _ elements list)
            (Runs-expect _ items decoded))))

-- The call that reads the values of the deployed revision, where one is deployed.
abbrev values_reads : Host → Text → Option ℕ → List Command
values_reads h name none = []
values_reads h name (some revision) = (helm ∷ values_command h name revision) ∷ []

module _ (h : Host) (name : Text) where
  Runs-release_history :
      (entries : List Entry)
      → HasHistory h name entries
      → Runs ((helm ∷ history_command h name) ∷ []) (release_history h name) entries
  unfolding release_history
  Runs-release_history entries (document, items, p, list, decoded) =
      Runs-bind _ _ p.output entries (run_helm-Runs h _ p.output p.stderr p.ends) (
        Runs-bind _ _ document entries (Runs-expect _ document p.parses)
          (Runs-bind _ _ items entries (Runs-expect _ items list) (Runs-expect _ entries decoded)))

  Runs-existing_history :
      (entries : List Entry)
      → HasHistory h name entries
      → Runs ((helm ∷ history_command h name) ∷ []) (existing_history h name) (some entries)
  unfolding existing_history absent_if_not_found
  Runs-existing_history entries known = record {
    at = λ s. let (e, ran) = (Runs-release_history entries known).at s in (rw e refl, ran);
  }

  Runs-replicas_of :
      (revision : Option ℕ) (n : ℕ)
      → Desires h name revision n
      → Runs (values_reads h name revision) (replicas_of h name revision) n
  unfolding replicas_of read_replicas
  Runs-replicas_of none n e = rw (e) (Runs-pure 0)
  Runs-replicas_of (some revision) n (values, p, e) =
      Runs-bind _ _ p.output n (run_helm-Runs h _ p.output p.stderr p.ends) (
        Runs-bind {ds = []} _ _ values n (Runs-expect _ values p.parses)
          (rw (e) (Runs-expect (some n) n refl)))

  Runs-pod_states :
      (items : List Item)
      → HasPods h name items
      → Runs (pods_command h (text "app=" ++ name) ∷ []) (pod_states h name) (parse_pods items)
  unfolding pod_states
  Runs-pod_states items listed =
      Runs-bind _ _ items (parse_pods items) (Runs-list_items h (text "app=" ++ name) items listed)
        (Runs-pure (parse_pods items))

  -- The same, for pods that are given or listed.
  Runs-reconcile :
      {listing : List Command} (e : Entry) (es : List Entry) (status : Text) (n : ℕ)
      (given : Option (List Pod)) (pods : List Pod)
      → HasHistory h name (e ∷ es)
      → (latest_from e es).status ≡ some status
      → Desires h name (deployed_revision (e ∷ es)) n
      → Runs listing (pods_or h name given) pods
      → Runs
          ((listing ++ values_reads h name (deployed_revision (e ∷ es)))
            ++ ((helm ∷ history_command h name) ∷ []))
          (reconcile h name given)
          (report name (e ∷ es) status n pods)
  unfolding reconcile reconcile_history report_from desired_replicas history_or
  Runs-reconcile e es status n given pods known latest desired listed =
      let result = report name (e ∷ es) status n pods in
      Runs-bind _ _ (some (e ∷ es)) result (Runs-existing_history (e ∷ es) known) (
        Runs-behind _ _ status result (Runs-expect _ status latest) (
          Runs-bind _ _ n result (Runs-replicas_of (deployed_revision (e ∷ es)) n desired)
            (Runs-bind _ _ pods result listed (Runs-pure result))))

  -- When helm prints the release's history, not empty and with a status on its latest entry, and
  -- the values of the revision that is deployed, where one is, and kubectl prints the release's
  -- pods, then reconciling raises nothing, whatever the process did before, gives the report of that
  -- history, that status, the count in those values (zero where nothing is deployed) and those pods,
  -- and runs, latest first, kubectl's listing, helm's reading of those values and of the history,
  -- and nothing else.
  pub reconcile-answered :
      (e : Entry) (es : List Entry) (status : Text) (n : ℕ) (items : List Item)
      → HasHistory h name (e ∷ es)
      → (latest_from e es).status ≡ some status
      → Desires h name (deployed_revision (e ∷ es)) n
      → HasPods h name items
      → (s : State)
      → ((reconcile h name none s).0 ≡ ok (report name (e ∷ es) status n (parse_pods items)))
        × ((reconcile h name none s).1.ran
            ≡ pods_command h (text "app=" ++ name)
              ∷ ((values_reads h name (deployed_revision (e ∷ es))
                    ++ ((helm ∷ history_command h name) ∷ []))
                  ++ s.ran))
  unfolding pods_or
  reconcile-answered e es status n items known latest desired listed s =
      let answers =
        Runs-reconcile e es status n none (parse_pods items) known latest desired
          (Runs-pod_states items listed) in
      answers.at s

  -- The same of pods that the caller gives, and that need no listing.
  pub reconcile-given :
      (e : Entry) (es : List Entry) (status : Text) (n : ℕ) (pods : List Pod)
      → HasHistory h name (e ∷ es)
      → (latest_from e es).status ≡ some status
      → Desires h name (deployed_revision (e ∷ es)) n
      → (s : State)
      → ((reconcile h name (some pods) s).0 ≡ ok (report name (e ∷ es) status n pods))
        × ((reconcile h name (some pods) s).1.ran
            ≡ (values_reads h name (deployed_revision (e ∷ es))
                ++ ((helm ∷ history_command h name) ∷ []))
              ++ s.ran)
  unfolding pods_or
  reconcile-given e es status n pods known latest desired s =
      let answers =
        Runs-reconcile e es status n (some pods) pods known latest desired (Runs-pure pods) in
      answers.at s
