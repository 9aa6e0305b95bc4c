-- ===== src/Reconciler/State/Laws.antt =====
-- Exactly when `derive_state` answers each of the four states.
use nf_orchestrator.Prelude.{
  ℕ, ◌<◌, ◌≡◌, ◌≢◌, ◌↔◌, ◌⊎◌, Bool, true, false, List, [], Option, none, arith, any, all, length,
}
use nf_orchestrator.Text.{Text}
use nf_orchestrator.Reconciler.State.{
  NfState, not_instantiated, instantiated, OperationState, Pod, has_failed_reason, live_pods,
  terminal_pods, is_satisfied, derive_state,
}

module _ (status : Option Text) (pods : List Pod) (desired : ℕ) (operation : OperationState)
    (ever : Bool) where
  -- INSTANTIATED means the intent is satisfied: a release exists, no pod outside a terminal phase
  -- has a failure's reason, and of those pods there are exactly as many as desired, at least one,
  -- and all ready. Pods in a terminal phase and the last operation have no say.
  pub derive_state-instantiated :
      (derive_state status pods desired operation ever ≡ instantiated) ↔ (
        (status ≢ none)
        × (any has_failed_reason (live_pods pods) ≡ false)
        × (0 < desired)
        × (length (live_pods pods) ≡ desired)
        × (all (λ pod. pod.ready) (live_pods pods) ≡ true))
  unfolding derive_state is_satisfied
  derive_state-instantiated = ground arith

  -- FAILED needs a release, and then either a pod outside a terminal phase with a failure's
  -- reason, or an intent that is not satisfied beside a terminal pod or a first operation that
  -- failed.
  pub derive_state-failed : (derive_state status pods desired operation ever ≡ NfState.failed) ↔ (
      (status ≢ none)
      × ((any has_failed_reason (live_pods pods) ≡ true)
          ⊎ ((is_satisfied (live_pods pods) desired ≡ false)
              × ((terminal_pods pods ≢ [])
                  ⊎ ((ever ≡ false) × (operation ≡ OperationState.failed))))))
  unfolding derive_state
  derive_state-failed = ground arith

  -- NOT_INSTANTIATED is said exactly when there is no release.
  pub derive_state-not_instantiated :
      (derive_state status pods desired operation ever ≡ not_instantiated) ↔ (status ≡ none)
  unfolding derive_state
  derive_state-not_instantiated = ground arith

-- Once any revision has been deployed, the last operation does not change the state.
derive_state_of_deployed :
    (status : Option Text) (pods : List Pod) (desired : ℕ) (a b : OperationState)
    → derive_state status pods desired a true ≡ derive_state status pods desired b true
unfolding derive_state
derive_state_of_deployed status pods desired a b = ground arith
