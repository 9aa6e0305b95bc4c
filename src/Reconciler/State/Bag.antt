-- ===== src/Reconciler/State/Bag.antt =====
-- The pods of a release as the cluster has them, in no order.
use mathlib.Core.Equiv.{IsContr}
use mathlib.Core.HLevel.{Σ_prop_path}
use mathlib.Core.Path.{fun_ext}
use mathlib.Core.Quot.{ind, lift}
use mathlib.Mathlib.Data.Multiset.Defs.{Multiset, of_list}
use nf_orchestrator.Prelude.{ℕ, ◌≡◌, refl, Bool, List, Option}
use nf_orchestrator.Text.{Text}
use nf_orchestrator.Reconciler.State.{NfState, OperationState, Pod, derive_state}
use nf_orchestrator.Reconciler.State.Order.{NfState-set, derive_state-perm}

module _ (status : Option Text) (desired : ℕ) (operation : OperationState) (ever : Bool) where
  -- A function of the pods in no order that `derive_state` computes from any list of them.
  abbrev pub Derives : (Multiset Pod → NfState) → Type 0
  Derives f = (pods : List Pod) → f (of_list pods) ≡ derive_state status pods desired operation ever

  -- The state is a function of what pods there are and not of how they are listed: there is exactly
  -- one function of the pods in no order that gives what `derive_state` gives of any list of them.
  pub derive_state-IsContr : IsContr ((f : Multiset Pod → NfState) × Derives f)
  derive_state-IsContr = (
    (
      lift NfState-set (λ pods. derive_state status pods desired operation ever)
          (λ ps qs same. derive_state-perm status desired operation ever same),
      λ pods. refl,
    ),
    λ (g, e). Σ_prop_path (λ f. hlevel) (fun_ext (ind (λ b. NfState-set _ _) (λ pods. e pods))),
  )
