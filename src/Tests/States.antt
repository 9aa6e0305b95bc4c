-- ===== src/Tests/States.antt =====
-- Pods, histories, names, messages and stamps.
use nf_orchestrator.Prelude.{
  ◌≡◌, ◌≢◌, refl, inr, true, false, List, [], ◌∷◌, Option, none, some, arith, keep,
}
use nf_orchestrator.Text.{Text, text, text_eq}
use nf_orchestrator.Reconciler.State.{
  Pod, NfState, instantiated, OperationState, completed, derive_state, live_pods, is_terminal,
  has_failed_reason, is_satisfied,
}
use nf_orchestrator.Reconciler.State.Laws.{derive_state-instantiated, derive_state-failed}
use mathlib.Core.Equiv.{IsContr}
use mathlib.Mathlib.Data.Multiset.Defs.{Multiset}
use nf_orchestrator.Reconciler.State.Bag.{Derives, derive_state-IsContr}
use nf_orchestrator.Reconciler.History.{Entry, deployed_revision, last_operation, is_deployed}
use nf_orchestrator.Reconciler.History.Laws.{deployed_revision_lem, failed_upgrade}
use nf_orchestrator.Reconciler.Pods.{Item, Grouped, group_from, parse_pods, parse_groups, append_to}
use nf_orchestrator.Reconciler.Pods.Laws.{find_or_empty, carries, parse_groups-find}

abbrev ready_pod : Pod
ready_pod = record { phase = some (text "Running"); reason = none; ready = true }

abbrev corpse : Pod
corpse = record { phase = some (text "Failed"); reason = some (text "Evicted"); ready = false }

abbrev deployed : Option Text
deployed = some (text "deployed")

has_release : deployed ≢ none
has_release e = cc e

derive_state-instantiated_example :
    derive_state deployed (corpse ∷ ready_pod ∷ []) 1 OperationState.failed false ≡ instantiated
unfolding live_pods is_terminal text has_failed_reason
derive_state-instantiated_example =
    (derive_state-instantiated deployed (corpse ∷ ready_pod ∷ []) 1 OperationState.failed false).1
      (has_release, refl, omega arith, refl, refl)

derive_state-failed_example :
    derive_state deployed [] 1 OperationState.failed false ≡ NfState.failed
unfolding is_satisfied live_pods
derive_state-failed_example =
    (derive_state-failed deployed [] 1 OperationState.failed false).1
      (has_release, inr (refl, inr (refl, refl)))

derive_state-IsContr_example :
    IsContr ((f : Multiset Pod → NfState) × Derives deployed 1 completed true f)
derive_state-IsContr_example = derive_state-IsContr deployed 1 completed true

abbrev first_install : Entry
first_install = record { revision = 1; status = some (text "deployed"); description = none }

abbrev bad_upgrade : Entry
bad_upgrade = record { revision = 2; status = some (text "failed"); description = none }

failed_upgrade_example :
    (deployed_revision (first_install ∷ bad_upgrade ∷ []) ≡ deployed_revision (first_install ∷ []))
    × (last_operation (first_install ∷ bad_upgrade ∷ [])
        ≡ record { revision = some 2; state = OperationState.failed; description = none })
failed_upgrade_example = failed_upgrade (first_install ∷ []) bad_upgrade refl refl

deployed_revision_lem_example : deployed_revision (first_install ∷ bad_upgrade ∷ []) ≡ some 1
unfolding is_deployed text_eq text
deployed_revision_lem_example =
    (deployed_revision_lem (first_install ∷ bad_upgrade ∷ []) 1).1 (refl, refl)

abbrev item : Text → Item
item app = record {
  app = some app;
  is_deleting = false;
  phase = some (text "Running");
  reason = none;
  containers = [];
}

abbrev items : List Item
items = item (text "a") ∷ item (text "b") ∷ item (text "a") ∷ []

abbrev grouped : Grouped Item
grouped = (text "a", item (text "a") ∷ item (text "a") ∷ []) ∷ (text "b", item (text "b") ∷ []) ∷ []

parse_groups-find_example :
    find_or_empty (text "a") (parse_groups grouped) ≡ parse_pods (keep (carries (text "a")) items)
unfolding group_from append_to text_eq text
parse_groups-find_example = parse_groups-find (text "a") items grouped refl

abbrev refused : Text
refused = text "Connection refused"
