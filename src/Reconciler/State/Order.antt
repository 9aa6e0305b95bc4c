-- ===== src/Reconciler/State/Order.antt =====
-- The state does not depend on the order in which the pods are listed, nor on pods that are over.
use mathlib.Core.List.{Perm, Permᴰ}
use mathlib.Core.Logic.{∥∥₁_elim}
use nf_orchestrator.Prelude.{
  ℕ, suc, ◌≡◌, refl, ◌∙◌, Bool, true, false, not, ◌&&◌, ◌||◌, if◌then◌else◌, List, [], ◌∷◌, ◌++◌,
  Option, none, some, arith, any, all, length, is_empty,
}
use nf_orchestrator.Text.{Text}
use nf_orchestrator.Reconciler.State.{
  NfState, instantiated, OperationState, Pod, is_terminal, has_failed_reason, live_pods,
  terminal_pods, is_satisfied, judge_pods, derive_state,
}
use nf_orchestrator.Reconciler.State.Laws.{derive_state-instantiated}

-- All that the verdict needs of the pods: whether one outside a terminal phase fails, how many are
-- outside one, whether those are all ready, and whether any is in one.
record Summary : Type 0 where
  failing : Bool
  live : ℕ
  ready : Bool
  over : Bool

add : Pod → Summary → Summary
add p s = if is_terminal p then record s { over = true } else record s {
  failing = has_failed_reason p || s.failing;
  live = suc s.live;
  ready = p.ready && s.ready;
}

summary : List Pod → Summary
summary [] = record { failing = false; live = 0; ready = true; over = false }
summary (p ∷ ps) = add p (summary ps)

add_comm : (p q : Pod) (s : Summary) → add p (add q s) ≡ add q (add p s)
unfolding add
add_comm p q s = ground arith

-- The summary says what the lists say.
summary_lem :
    (pods : List Pod)
    → ((summary pods).failing ≡ any has_failed_reason (live_pods pods))
      × ((summary pods).live ≡ length (live_pods pods))
      × ((summary pods).ready ≡ all (λ pod. pod.ready) (live_pods pods))
      × ((summary pods).over ≡ not (is_empty (terminal_pods pods)))
unfolding summary add live_pods terminal_pods
summary_lem [] = (refl, refl, refl, refl)
summary_lem (p ∷ ps) = ground (arith, summary_lem ps)

summary-permᴰ : {ps qs : List Pod} → Permᴰ ps qs → summary ps ≡ summary qs
unfolding summary
summary-permᴰ Permᴰ.nil = refl
summary-permᴰ (Permᴰ.cons e d) = cc (e, summary-permᴰ d)
summary-permᴰ (Permᴰ.swap {a} {b} {l} e f) = cc (e, f, add_comm a b (summary l))
summary-permᴰ (Permᴰ.trans d e) = summary-permᴰ d ∙ summary-permᴰ e

judge_of_summary :
    (ps qs : List Pod) (desired : ℕ) (operation : OperationState) (ever : Bool)
    → summary ps ≡ summary qs
    → judge_pods ps desired operation ever ≡ judge_pods qs desired operation ever
unfolding judge_pods is_satisfied
judge_of_summary ps qs desired operation ever e = ground (arith, summary_lem ps, summary_lem qs)

pub NfState-set : IsSet NfState
NfState-set = hlevel

-- Listing the same pods in another order does not change the state.
pub derive_state-perm :
    (status : Option Text) {ps qs : List Pod} (desired : ℕ) (operation : OperationState)
    (ever : Bool)
    → Perm ps qs
    → derive_state status ps desired operation ever ≡ derive_state status qs desired operation ever
unfolding derive_state
derive_state-perm none desired operation ever p = refl
derive_state-perm (some _) {ps} {qs} desired operation ever p =
    ∥∥₁_elim p (NfState-set _ _)
      (λ d. judge_of_summary ps qs desired operation ever (summary-permᴰ d))

live_of_corpses :
    (corpses pods : List Pod)
    → all is_terminal corpses ≡ true
    → live_pods (corpses ++ pods) ≡ live_pods pods
unfolding live_pods
live_of_corpses [] pods h = refl
live_of_corpses (p ∷ ps) pods h = ground (arith, live_of_corpses ps pods)

-- Pods in a terminal phase beside a satisfied intent leave it INSTANTIATED, however many there are.
derive_state-corpses :
    (status : Option Text) (corpses pods : List Pod) (desired : ℕ) (operation : OperationState)
    (ever : Bool)
    → all is_terminal corpses ≡ true
    → derive_state status pods desired operation ever ≡ instantiated
    → derive_state status (corpses ++ pods) desired operation ever ≡ instantiated
derive_state-corpses status corpses pods desired operation ever over e =
    (derive_state-instantiated status (corpses ++ pods) desired operation ever).1 (
      rw (live_of_corpses corpses pods over)
        ((derive_state-instantiated status pods desired operation ever).0 e))
