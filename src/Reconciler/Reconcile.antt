-- ===== src/Reconciler/Reconcile.antt =====
-- `desired_replicas`, `reconcile` and `teardown`.
pub mod Laws
pub mod Tearing
pub mod Keeps
pub mod Spends
pub mod Answered
pub mod Removed
use nf_orchestrator.Prelude.{
  ℕ, Bool, true, false, not, List, [], ◌∷◌, ◌++◌, Option, none, some, if◌then◌else◌, is_none, keep,
  length,
}
use nf_orchestrator.Text.{Text, text, show}
use nf_orchestrator.Json.{Json, null, bool, num, get}
use nf_orchestrator.Errors.{deploy_error}
use nf_orchestrator.Host.{Host, State, Exec, Command, pure, fail, expect, ◌>>=◌, ◌>>◌}
use nf_orchestrator.Deploy.Run.{run_helm}
use nf_orchestrator.Reconciler.State.{NfState, not_instantiated, Pod, derive_state}
use nf_orchestrator.Reconciler.History.{
  Entry, Operation, deployed_revision, latest_from, last_operation, existing_history,
  release_history, helm_release_status,
}
use nf_orchestrator.Reconciler.Pods.{pod_states}

pub record Report : Type 0 where
  pub release : Text
  pub state : NfState
  pub helm_status : Option Text
  pub desired_replicas : ℕ
  pub ready_replicas : ℕ
  pub last_operation : Operation
  pub pods : List Pod

pub record Teardown : Type 0 where
  pub release : Text
  pub state : NfState
  pub uninstalled : Bool

-- `int(replicas)`; a text or a list in its place is not read here.
abbrev int_of : Json → Option ℕ
int_of (num n) = some n
int_of (bool b) = some (if b then 1 else 0)
int_of _ = none

unfoldable pub ready_count : List Pod → ℕ
ready_count pods = length (keep (λ pod. pod.ready) pods)

unfoldable pub absent : Text → Report
absent name = record {
  release = name;
  state = not_instantiated;
  helm_status = none;
  desired_replicas = 0;
  ready_replicas = 0;
  last_operation = last_operation [];
  pods = [];
}

-- The report of a release that exists.
unfoldable pub report : Text → List Entry → Text → ℕ → List Pod → Report
report name history helm_status desired pods = record {
  release = name;
  state =
      derive_state (some helm_status) pods desired (last_operation history).state
        (not (is_none (deployed_revision history)));
  helm_status = some helm_status;
  desired_replicas = desired;
  ready_replicas = ready_count pods;
  last_operation = last_operation history;
  pods = pods;
}

module _ (h : Host) where
  unfoldable pub values_command : Text → ℕ → Command
  values_command name revision =
      text "get"
      ∷ text "values"
      ∷ name
      ∷ text "--kube-context"
      ∷ h.config.kube_context
      ∷ text "--revision"
      ∷ show revision
      ∷ text "--all"
      ∷ text "--output"
      ∷ text "json"
      ∷ []

  no_replicas : Text → Exec ℕ
  no_replicas name = fail (record {
    kind = deploy_error;
    message = text "release '" ++ (name ++ text "' has no replicaCount in its values");
  })

  -- `values.get("replicaCount")` on an object; `None` is refused.
  read_replicas : Text → Option Json → Exec ℕ
  unfolding no_replicas
  read_replicas name none = no_replicas name
  read_replicas name (some null) = no_replicas name
  read_replicas name (some j) = expect (int_of j)

  replicas_of : Text → Option ℕ → Exec ℕ
  unfolding read_replicas
  replicas_of name none = pure 0
  replicas_of name (some revision) = do
    output ← run_helm h (values_command name revision)
    values ← expect (h.loads output)
    read_replicas name (get (text "replicaCount") values)

  history_or : Text → Option (List Entry) → Exec (List Entry)
  history_or name none = release_history h name
  history_or name (some history) = pure history

  unfoldable pub desired_replicas : Text → Option (List Entry) → Exec ℕ
  unfolding replicas_of history_or
  desired_replicas name history = do
    entries ← history_or name history
    replicas_of name (deployed_revision entries)

  pods_or : Text → Option (List Pod) → Exec (List Pod)
  pods_or name none = pod_states h name
  pods_or name (some pods) = pure pods

  -- What is left to read once the history is known.
  report_from : Text → Option (List Pod) → List Entry → Text → Exec Report
  unfolding pods_or
  report_from name pods history helm_status = do
    desired ← desired_replicas name (some history)
    states ← pods_or name pods
    pure (report name history helm_status desired states)

  unfoldable pub reconcile_history : Text → Option (List Pod) → Option (List Entry) → Exec Report
  unfolding report_from
  reconcile_history name pods none = pure (absent name)
  reconcile_history name pods (some []) = pure (absent name)
  reconcile_history name pods (some (e ∷ es)) = do
    helm_status ← expect (latest_from e es).status
    report_from name pods (e ∷ es) helm_status

  unfoldable pub reconcile : Text → Option (List Pod) → Exec Report
  unfolding reconcile_history
  reconcile name pods = do history ← existing_history h name; reconcile_history name pods history

  unfoldable pub uninstall_command : Text → Command
  uninstall_command name =
      text "uninstall" ∷ name ∷ text "--kube-context" ∷ h.config.kube_context ∷ []

  teardown_status : Text → Option Json → Exec Teardown
  teardown_status name none =
      pure (record { release = name; state = not_instantiated; uninstalled = false })
  teardown_status name (some _) = do
    run_helm h (uninstall_command name)
    pure (record { release = name; state = not_instantiated; uninstalled = true })

  unfoldable pub teardown : Text → Exec Teardown
  unfolding teardown_status
  teardown name = do status ← helm_release_status h name; teardown_status name status
