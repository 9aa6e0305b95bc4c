-- ===== src/Reconciler/Reconcile/Laws.antt =====
-- What a report, and a teardown, may be believed to say.
use nf_orchestrator.Prelude.{
  ◌≢◌, true, ℕ, ◌≤◌, ◌<◌, ◌≡◌, refl, sym, ap, ◌↔◌, ◌≢◌, ◌⊎◌, inl, inr, true, not, List, [], ◌∷◌,
  Option, none, some, arith, all, length, is_none,
}
use nf_orchestrator.Text.{Text, lower, contains}
use nf_orchestrator.Errors.{DeployError, cluster_unreachable, is_instance, deploy, ok, err}
use nf_orchestrator.Host.{Host, State, pure, expect, ◌>>=◌}
use nf_orchestrator.Host.Laws.{>>=-eq-ok}
use nf_orchestrator.Deploy.Run.{run_helm}
use nf_orchestrator.Reconciler.State.{not_instantiated, instantiated, Pod, live_pods}
use nf_orchestrator.Reconciler.State.Laws.{derive_state-not_instantiated, derive_state-instantiated}
use nf_orchestrator.Reconciler.History.Laws.{existing_history-absent, existing_history-found}
use nf_orchestrator.Reconciler.History.{
  release_not_found, Entry, last_operation, deployed_revision, latest_from, history_command,
  existing_history, release_history,
}
use nf_orchestrator.Reconciler.Reconcile.{
  Report, ready_count, absent, report, pods_or, report_from, desired_replicas, reconcile_history,
  reconcile,
}

ready_live :
    (pods : List Pod)
    → all (λ pod. pod.ready) (live_pods pods) ≡ true
    → length (live_pods pods) ≤ ready_count pods
unfolding live_pods ready_count
ready_live [] h = omega arith
ready_live (p ∷ ps) h = ground (arith, ready_live ps)

report-instantiated :
    (name : Text) (history : List Entry) (status : Text) (desired : ℕ) (pods : List Pod)
    → (report name history status desired pods).state ≡ instantiated
    → (0 < desired) × (desired ≤ ready_count pods)
unfolding report
report-instantiated name history status desired pods e =
    let said =
      (derive_state-instantiated (some status) pods desired (last_operation history).state
          (not (is_none (deployed_revision history)))).0
        e in
    omega (arith, ready_live pods said.4, said.2, said.3)

report-present :
    (name : Text) (history : List Entry) (status : Text) (desired : ℕ) (pods : List Pod)
    → (report name history status desired pods).state ≢ not_instantiated
unfolding report
report-present name history status desired pods e =
    let gone : some status ≡ none =
      (derive_state-not_instantiated (some status) pods desired (last_operation history).state
          (not (is_none (deployed_revision history)))).0
        e in
    cc gone

-- How a report came about: from a release that is absent or has no revision, or from a history, a
-- desired count and a list of pods.
data Source (name : Text) (r : Report) : Option (List Entry) → Type 0 where
  no_release : r ≡ absent name → Source name r none
  no_revision : r ≡ absent name → Source name r (some [])
  derived :
      {e : Entry} {es : List Entry} (status : Text) (desired : ℕ) (pods : List Pod)
      → r ≡ report name (e ∷ es) status desired pods
      → Source name r (some (e ∷ es))

report_from-derived :
    (h : Host) (name : Text) (pods : Option (List Pod)) (x : Entry) (xs : List Entry)
    (status : Text) (s t : State) (r : Report)
    → report_from h name pods (x ∷ xs) status s ≡ (ok r, t)
    → Source name r (some (x ∷ xs))
unfolding report_from
report_from-derived h name pods x xs status s t r e =
    let (desired, s₁, _, e₁) =
      >>=-eq-ok (desired_replicas h name (some (x ∷ xs)))
        (λ n. pods_or h name pods >>= λ ps. pure (report name (x ∷ xs) status n ps)) s e in
    let (states, s₂, _, e₂) =
      >>=-eq-ok (pods_or h name pods) (λ ps. pure (report name (x ∷ xs) status desired ps)) s₁ e₁ in
    derived status desired states (sym (ground arith))

reconcile_history-Source :
    (h : Host) (name : Text) (pods : Option (List Pod)) (history : Option (List Entry))
    (s t : State) (r : Report)
    → reconcile_history h name pods history s ≡ (ok r, t)
    → Source name r history
unfolding reconcile_history
reconcile_history-Source h name pods none s t r e = no_release (ground arith)
reconcile_history-Source h name pods (some []) s t r e = no_revision (ground arith)
reconcile_history-Source h name pods (some (x ∷ xs)) s t r e =
    let (status, u, _, rest) =
      >>=-eq-ok (expect (latest_from x xs).status) (report_from h name pods (x ∷ xs)) s e in
    report_from-derived h name pods x xs status u t r rest

reconcile-Source :
    (h : Host) (name : Text) (pods : Option (List Pod)) (s t : State) (r : Report)
    → reconcile h name pods s ≡ (ok r, t)
    → (history : Option (List Entry)) × ((existing_history h name s).0 ≡ ok history)
      × Source name r history
unfolding reconcile
reconcile-Source h name pods s t r e =
    let (history, u, found, rest) =
      >>=-eq-ok (existing_history h name) (reconcile_history h name pods) s e in
    (history, ap (λ p. p.0) found, reconcile_history-Source h name pods history u t r rest)

abbrev IsGone : Option (List Entry) → Type 0
IsGone history = (history ≡ none) ⊎ (history ≡ some [])

Source-not_instantiated :
    (name : Text) (r : Report) (history : Option (List Entry))
    → Source name r history
    → (r.state ≡ not_instantiated) ↔ IsGone history
unfolding absent
Source-not_instantiated name r _ (no_release e) = (λ _. inl refl, λ _. rw e)
Source-not_instantiated name r _ (no_revision e) = (λ _. inr refl, λ _. rw e)
Source-not_instantiated name r _ (derived {e = x} {es = xs} status desired pods e) = (
  λ gone. absurd (report-present name (x ∷ xs) status desired pods (rw e at gone)),
  λ gone. ground arith,
)

not_instantiated_gone :
    (h : Host) (name : Text) (pods : Option (List Pod)) (s t : State) (r : Report)
    → reconcile h name pods s ≡ (ok r, t)
    → (r.state ≡ not_instantiated)
      ↔ (((existing_history h name s).0 ≡ ok none) ⊎ ((existing_history h name s).0 ≡ ok (some [])))
not_instantiated_gone h name pods s t r e =
    let (history, found, source) = reconcile-Source h name pods s t r e in
    let (there, back) = Source-not_instantiated name r history source in
    (λ gone. rw found (ground (arith, there gone)), λ gone. back (ground arith))

-- A report says NOT_INSTANTIATED exactly when helm gave a history without a revision, or failed on
-- the history with an error that is not "unreachable" and whose words, in lower case, hold "not
-- found".
pub reconcile-not_instantiated :
    (h : Host) (name : Text) (pods : Option (List Pod)) (s t : State) (r : Report)
    → reconcile h name pods s ≡ (ok r, t)
    → (r.state ≡ not_instantiated) ↔ (
        ((release_history h name s).0 ≡ ok [])
        ⊎ ((e : DeployError) × ((release_history h name s).0 ≡ err (deploy e))
            × (e.kind ≢ cluster_unreachable)
            × (contains release_not_found (lower e.message) ≡ true)))
reconcile-not_instantiated h name pods s t r e =
    let (there, back) = not_instantiated_gone h name pods s t r e in
    let absent_iff = existing_history-absent h name s in
    let empty_iff = existing_history-found h name s [] in
    (
      λ gone. elim (there gone) [
        | inl none_found ↦ inr (absent_iff.0 none_found)
        | inr empty ↦ inl (empty_iff.0 empty)
      ],
      λ gone. elim gone [
        | inl empty ↦ back (inr (empty_iff.1 empty))
        | inr refused ↦ back (inl (absent_iff.1 refused))
      ],
    )

Source-instantiated :
    (name : Text) (r : Report) (history : Option (List Entry))
    → Source name r history
    → r.state ≡ instantiated
    → (0 < r.desired_replicas) × (r.desired_replicas ≤ r.ready_replicas)
unfolding absent
Source-instantiated name r _ (no_release e) up = ground arith
Source-instantiated name r _ (no_revision e) up = ground arith
Source-instantiated name r _ (derived {e = x} {es = xs} status desired pods e) up =
    rw e (unfold report in report-instantiated name (x ∷ xs) status desired pods (rw e at up))

-- A report that says INSTANTIATED asks for at least one replica, and counts at least as many ready
-- pods as it asks for.
reconcile-instantiated :
    (h : Host) (name : Text) (pods : Option (List Pod)) (s t : State) (r : Report)
    → reconcile h name pods s ≡ (ok r, t)
    → r.state ≡ instantiated
    → (0 < r.desired_replicas) × (r.desired_replicas ≤ r.ready_replicas)
reconcile-instantiated h name pods s t r e up =
    let (history, found, source) = reconcile-Source h name pods s t r e in
    Source-instantiated name r history source up

module _ (h : Host) (name : Text) (s : State) (e : DeployError) where
  -- When helm cannot reach the cluster for the history, reconciling raises that very error: no
  -- state is reported of a release that could not be seen.
  pub reconcile-unreachable :
      (pods : Option (List Pod))
      → (run_helm h (history_command h name) s).0 ≡ err (deploy e)
      → e.kind ≡ cluster_unreachable
      → (reconcile h name pods s).0 ≡ err (deploy e)
  unfolding reconcile existing_history release_history is_instance
  reconcile-unreachable pods failed k = ground arith
