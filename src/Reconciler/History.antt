-- ===== src/Reconciler/History.antt =====
-- The release history and the release status that helm reports.
pub mod Laws
pub mod Keeps
pub mod Spends
use nf_orchestrator.Prelude.{
  ℕ, Bool, true, false, ltb, List, [], ◌∷◌, Option, none, some, if◌then◌else◌, option, max, keep,
  map,
}
use nf_orchestrator.Text.{Text, text, text_eq, lower, contains}
use nf_orchestrator.Json.{Json, null, get, as_list, as_text, as_num}
use nf_orchestrator.Errors.{
  DeployError, cluster_unreachable, is_instance, Exception, deploy, Result, ok, err,
}
use nf_orchestrator.Host.{Host, State, Exec, Command, pure, fail, expect, ◌>>=◌}
use nf_orchestrator.Deploy.Run.{run_helm}
use nf_orchestrator.Reconciler.State.{OperationState, processing, completed, unknown}

-- An entry of `helm history`. A status, where there is one, is a text.
pub record Entry : Type 0 where
  pub revision : ℕ
  pub status : Option Text
  pub description : Option Json

pub record Operation : Type 0 where
  pub revision : Option ℕ
  pub state : OperationState
  pub description : Option Json

abbrev pub release_not_found : Text
release_not_found = text "not found"

-- `OPERATION_STATUS.get(status, OperationState.UNKNOWN)`
unfoldable pub operation_status : Text → OperationState
operation_status s =
    if text_eq s (text "deployed")
    then completed
    else if text_eq s (text "uninstalled")
    then completed
    else if text_eq s (text "superseded")
    then completed
    else if text_eq s (text "failed")
    then OperationState.failed
    else if text_eq s (text "pending-install")
    then processing
    else if text_eq s (text "pending-upgrade")
    then processing
    else if text_eq s (text "pending-rollback")
    then processing
    else if text_eq s (text "uninstalling")
    then processing
    else unknown

unfoldable pub is_deployed : Entry → Bool
is_deployed e = option false (λ s. text_eq s (text "deployed")) e.status

-- `max(revisions) if revisions else None`
unfoldable max_of : List ℕ → Option ℕ
max_of [] = none
max_of (n ∷ ns) = some (option n (max n) (max_of ns))

unfoldable pub deployed_revision : List Entry → Option ℕ
unfolding max_of is_deployed
deployed_revision history = max_of (map (λ e. e.revision) (keep is_deployed history))

-- `max(history, key=...)` keeps the first of the highest.
unfoldable pub latest_from : Entry → List Entry → Entry
latest_from best [] = best
latest_from best (e ∷ es) = latest_from (if ltb best.revision e.revision then e else best) es

unfoldable pub last_operation : List Entry → Operation
unfolding latest_from operation_status
last_operation [] = record { revision = none; state = unknown; description = none }
last_operation (e ∷ es) =
    let latest = latest_from e es in
    record {
      revision = some latest.revision;
      state = option unknown operation_status latest.status;
      description = latest.description;
    }

abbrev with_status : ℕ → Option Json → Option Json → Option Entry
with_status revision none description =
    some (record { revision = revision; status = none; description = description })
with_status revision (some s) description = elim (as_text s) [
  | none ↦ none
  | some t ↦ some (record { revision = revision; status = some t; description = description })
]

unfoldable pub decode_entry : Json → Option Entry
decode_entry j = elim (get (text "revision") j) [
  | none ↦ none
  | some r ↦ elim (as_num r) [
    | none ↦ none
    | some n ↦ with_status n (get (text "status") j) (get (text "description") j)
  ]
]

-- Each element in turn; one that does not decode spoils the list.
unfoldable pub decode_all : {A : Type 0} → (Json → Option A) → List Json → Option (List A)
decode_all decode [] = some []
decode_all decode (j ∷ js) = elim (decode j) [
  | none ↦ none
  | some a ↦ elim (decode_all decode js) [ none ↦ none | some l ↦ some (a ∷ l) ]
]

-- The handlers of `helm_release_status` and `existing_history`: an unreachable cluster is no
-- answer about the release.
unfoldable pub absent_if_not_found : {A : Type 0} → Result A → Result (Option A)
absent_if_not_found (ok a) = ok (some a)
absent_if_not_found (err (deploy e)) =
    if is_instance e.kind cluster_unreachable
    then err (deploy e)
    else if contains release_not_found (lower e.message)
    then ok none
    else err (deploy e)
absent_if_not_found (err e) = err e

abbrev null_is_none : Option Json → Option Json
null_is_none (some null) = none
null_is_none o = o

module _ (h : Host) where
  unfoldable pub status_command : Text → Command
  status_command name =
      text "status"
      ∷ name
      ∷ text "--kube-context"
      ∷ h.config.kube_context
      ∷ text "--output"
      ∷ text "json"
      ∷ []

  unfoldable pub history_command : Text → Command
  history_command name =
      text "history"
      ∷ name
      ∷ text "--kube-context"
      ∷ h.config.kube_context
      ∷ text "--output"
      ∷ text "json"
      ∷ []

  read_status : Option Text → Exec (Option Json)
  read_status none = pure none
  read_status (some output) = do
    document ← expect (h.loads output)
    info ← expect (get (text "info") document)
    status ← expect (get (text "status") info)
    pure (null_is_none (some status))

  unfoldable pub helm_release_status : Text → Exec (Option Json)
  unfolding absent_if_not_found read_status
  helm_release_status name = do
    output ← (λ s. let (r, t) = run_helm h (status_command name) s in (absent_if_not_found r, t))
    read_status output

  unfoldable pub release_history : Text → Exec (List Entry)
  release_history name = do
    output ← run_helm h (history_command name)
    document ← expect (h.loads output)
    items ← expect (as_list document)
    expect (decode_all decode_entry items)

  unfoldable pub existing_history : Text → Exec (Option (List Entry))
  unfolding absent_if_not_found
  existing_history name s = let (r, t) = release_history name s in (absent_if_not_found r, t)

  unfoldable last_deployed_revision : Text → Exec (Option ℕ)
  last_deployed_revision name = do history ← release_history name; pure (deployed_revision history)
