-- ===== src/Reconciler/State.antt =====
-- `State`, `OperationState` and `derive_state`.
pub mod Laws
pub mod Order
pub mod Bag
use nf_orchestrator.Prelude.{
  ℕ, Bool, true, false, not, ◌&&◌, ◌==◌, ltb, List, [], ◌∷◌, Option, none, some, if◌then◌else◌,
  option, keep, any, all, length, is_empty,
}
use nf_orchestrator.Text.{Text, text, one_of}

pub data NfState : Type 0 where
  not_instantiated instantiating instantiated failed : NfState

pub data OperationState : Type 0 where
  processing completed failed unknown : OperationState

-- `state.value`
unfoldable state_value : NfState → Text
state_value not_instantiated = text "NOT_INSTANTIATED"
state_value instantiating = text "INSTANTIATING"
state_value instantiated = text "INSTANTIATED"
state_value NfState.failed = text "FAILED"

-- One of the dicts that `parse_pods` makes.
pub record Pod : Type 0 where
  pub phase : Option Text
  pub reason : Option Text
  pub ready : Bool

abbrev failed_pod_reasons : List Text
failed_pod_reasons = text "ImagePullBackOff" ∷ text "ErrImagePull" ∷ text "CrashLoopBackOff" ∷ []

abbrev terminal_pod_phases : List Text
terminal_pod_phases = text "Succeeded" ∷ text "Failed" ∷ []

unfoldable pub is_terminal : Pod → Bool
unfolding one_of
is_terminal pod = option false (λ phase. one_of phase terminal_pod_phases) pod.phase

unfoldable pub has_failed_reason : Pod → Bool
unfolding one_of
has_failed_reason pod = option false (λ reason. one_of reason failed_pod_reasons) pod.reason

unfoldable pub live_pods : List Pod → List Pod
live_pods pods = keep (λ pod. not (is_terminal pod)) pods

unfoldable pub terminal_pods : List Pod → List Pod
terminal_pods pods = keep is_terminal pods

-- `desired > 0 and len(live) == desired and all(pod.get("ready") for pod in live)`
unfoldable pub is_satisfied : List Pod → ℕ → Bool
is_satisfied live desired = ltb 0 desired && length live == desired && all (λ pod. pod.ready) live

abbrev is_failed : OperationState → Bool
is_failed OperationState.failed = true
is_failed _ = false

unfoldable pub judge_pods : List Pod → ℕ → OperationState → (ever_deployed : Bool) → NfState
judge_pods pods desired operation ever_deployed =
    let live = live_pods pods in
    if any has_failed_reason live
    then NfState.failed
    else if is_satisfied live desired
    then instantiated
    else if not (is_empty (terminal_pods pods))
    then NfState.failed
    else if not ever_deployed && is_failed operation
    then NfState.failed
    else instantiating

unfoldable pub derive_state :
    (helm_status : Option Text)
    → List Pod
    → (desired : ℕ) → OperationState
    → (ever_deployed : Bool) → NfState
unfolding judge_pods
derive_state none pods desired operation ever_deployed = not_instantiated
derive_state (some _) pods desired operation ever_deployed =
    judge_pods pods desired operation ever_deployed
