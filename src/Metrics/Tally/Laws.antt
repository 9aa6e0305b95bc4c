-- ===== src/Metrics/Tally/Laws.antt =====
-- Every release that was listed is accounted for, once, and a reported one is in one state.
use nf_orchestrator.Prelude.{
  ℕ, ◌+◌, ◌*◌, ◌≡◌, refl, Bool, true, false, ◌||◌, List, [], ◌∷◌, ◌++◌, arith, map, length, any,
}
use nf_orchestrator.Text.{Text}
use nf_orchestrator.Reconciler.State.{NfState, OperationState}
use nf_orchestrator.Reconciler.Reconcile.{Report}
use nf_orchestrator.Metrics.Snapshot.{Snapshot}
use nf_orchestrator.Metrics.Tally.{
  release, Samples, Future, pending, finished, raised, Tally, one_if, same_state, same_operation,
  nf_states, operation_states, state_of, operation_of, add_report, tally,
}

-- The sum of a series' values.
abbrev pub total : Samples → ℕ
total [] = 0
total ((_, n) ∷ xs) = n + total xs

abbrev pub is_reported : Future → Bool
is_reported (finished (Snapshot.reported _)) = true
is_reported _ = false

abbrev pub has_raised : Future → Bool
has_raised raised = true
has_raised pending = false
has_raised (finished _) = false

abbrev is_exhausted : Future → Bool
is_exhausted (finished Snapshot.exhausted) = true
is_exhausted _ = false

abbrev is_misconfigured : Future → Bool
is_misconfigured (finished Snapshot.misconfigured) = true
is_misconfigured _ = false

abbrev pub reported_count : List (Text × Future) → ℕ
reported_count [] = 0
reported_count ((_, f) ∷ fs) = one_if (is_reported f) + reported_count fs

total-append : (xs ys : Samples) → total (xs ++ ys) ≡ total xs + total ys
total-append [] ys = omega arith
total-append ((_, n) ∷ xs) ys = omega (arith, total-append xs ys)

module _ (exhausted misconfigured : Bool) where
  -- Where no future raised, the series of reported releases has one sample for each future, in
  -- order: 1 where it holds a report and 0 where it does not.
  pub tally-reported :
      (fs : List (Text × Future))
      → (tally exhausted misconfigured fs).raised ≡ false
      → (tally exhausted misconfigured fs).reported
        ≡ map (λ (name, f). (release name, one_if (is_reported f))) fs
  unfolding tally
  tally-reported [] quiet = refl
  tally-reported ((name, pending) ∷ fs) quiet = rw (tally-reported fs quiet) refl
  tally-reported ((name, raised) ∷ fs) quiet = absurd (ground arith)
  tally-reported ((name, finished Snapshot.exhausted) ∷ fs) quiet =
      rw (tally-reported fs quiet) refl
  tally-reported ((name, finished Snapshot.misconfigured) ∷ fs) quiet =
      rw (tally-reported fs quiet) refl
  tally-reported ((name, finished Snapshot.host) ∷ fs) quiet = rw (tally-reported fs quiet) refl
  tally-reported ((name, finished Snapshot.busy) ∷ fs) quiet = rw (tally-reported fs quiet) refl
  tally-reported ((name, finished Snapshot.unreadable) ∷ fs) quiet =
      rw (tally-reported fs quiet) refl
  tally-reported ((name, finished (Snapshot.reported r)) ∷ fs) quiet =
      rw (tally-reported fs quiet) refl

  -- Where none raised, each future is counted under one of the four reasons or is reported.
  pub tally-counts :
      (fs : List (Text × Future))
      → (tally exhausted misconfigured fs).raised ≡ false
      → let t = tally exhausted misconfigured fs in
        t.late + t.errored + t.refused + t.ours + reported_count fs ≡ length fs
  unfolding tally
  tally-counts [] quiet = omega arith
  tally-counts ((name, pending) ∷ fs) quiet = omega (arith, tally-counts fs quiet)
  tally-counts ((name, raised) ∷ fs) quiet = absurd (ground arith)
  tally-counts ((name, finished Snapshot.exhausted) ∷ fs) quiet =
      omega (arith, tally-counts fs quiet)
  tally-counts ((name, finished Snapshot.misconfigured) ∷ fs) quiet =
      omega (arith, tally-counts fs quiet)
  tally-counts ((name, finished Snapshot.host) ∷ fs) quiet = omega (arith, tally-counts fs quiet)
  tally-counts ((name, finished Snapshot.busy) ∷ fs) quiet = omega (arith, tally-counts fs quiet)
  tally-counts ((name, finished Snapshot.unreadable) ∷ fs) quiet =
      omega (arith, tally-counts fs quiet)
  tally-counts ((name, finished (Snapshot.reported r)) ∷ fs) quiet =
      omega (arith, tally-counts fs quiet)

  -- The scrape is ended by a future exactly where some future raised.
  pub tally-raised :
      (fs : List (Text × Future))
      → (tally exhausted misconfigured fs).raised ≡ any (λ (_, f). has_raised f) fs
  unfolding tally
  tally-raised [] = refl
  tally-raised ((name, f) ∷ fs) = ground (arith, tally-raised fs)

  -- The host is exhausted or misconfigured if it was so before the loop or some future says so.
  tally-flags :
      (fs : List (Text × Future))
      → let t = tally exhausted misconfigured fs in
        (t.exhausted ≡ (exhausted || any (λ (_, f). is_exhausted f) fs))
        × (t.misconfigured ≡ (misconfigured || any (λ (_, f). is_misconfigured f) fs))
  unfolding tally
  tally-flags [] = ground arith
  tally-flags ((name, f) ∷ fs) = ground (arith, tally-flags fs)

one_state :
    (name : Text) (s : NfState)
    → total (map (λ m. (state_of name m, one_if (same_state s m))) nf_states) ≡ 1
one_state name s = ground arith

one_operation :
    (name : Text) (s : OperationState)
    → total (map (λ m. (operation_of name m, one_if (same_operation s m))) operation_states) ≡ 1
one_operation name s = ground arith

add_report-states :
    (name : Text) (r : Report) (t : Tally)
    → (total (add_report name r t).states ≡ 1 + total t.states)
      × (length (add_report name r t).states ≡ 4 + length t.states)
      × (total (add_report name r t).operations ≡ 1 + total t.operations)
      × (length (add_report name r t).operations ≡ 4 + length t.operations)
unfolding add_report
add_report-states name r t =
    let states : Samples = map (λ m. (state_of name m, one_if (same_state r.state m))) nf_states in
    let operations : Samples =
      map (λ m. (operation_of name m, one_if (same_operation r.last_operation.state m)))
        operation_states in
    (
      omega (arith, total-append states t.states, one_state name r.state),
      omega arith,
      omega
          (arith, total-append operations t.operations, one_operation name r.last_operation.state),
      omega arith,
    )

module _ (exhausted misconfigured : Bool) where
  -- A reported release has four samples of its state, of which one is 1 and the others are 0 in
  -- sum, and four of its last operation's state likewise; no other release has any.
  pub tally-states :
      (fs : List (Text × Future))
      → let t = tally exhausted misconfigured fs in
        (total t.states ≡ reported_count fs)
        × (length t.states ≡ 4 * reported_count fs)
        × (total t.operations ≡ reported_count fs)
        × (length t.operations ≡ 4 * reported_count fs)
  unfolding tally
  tally-states [] = omega arith
  tally-states ((name, finished (Snapshot.reported r)) ∷ fs) =
      omega (arith, tally-states fs, add_report-states name r (tally exhausted misconfigured fs))
  tally-states ((name, finished Snapshot.busy) ∷ fs) = omega (arith, tally-states fs)
  tally-states ((name, finished Snapshot.host) ∷ fs) = omega (arith, tally-states fs)
  tally-states ((name, finished Snapshot.exhausted) ∷ fs) = omega (arith, tally-states fs)
  tally-states ((name, finished Snapshot.misconfigured) ∷ fs) = omega (arith, tally-states fs)
  tally-states ((name, finished Snapshot.unreadable) ∷ fs) = omega (arith, tally-states fs)
  tally-states ((name, raised) ∷ fs) = omega (arith, tally-states fs)
  tally-states ((name, pending) ∷ fs) = omega (arith, tally-states fs)
