-- ===== src/Metrics/Futures/Live.antt =====
-- A scrape of a cluster that keeps up reports every release.
use mathlib.Core.List.{append-nil}
use nf_orchestrator.Prelude.{
  false, ◌||◌, arith, ℕ, suc, ◌+◌, ◌*◌, ◌≤◌, ◌<◌, ◌≡◌, refl, Bool, true, List, [], ◌∷◌, ◌++◌, map,
  length,
}
use nf_orchestrator.Text.{Text, text_eq, one_of}
use nf_orchestrator.Text.Laws.{text_eq_refl}
use nf_orchestrator.Reconciler.Reconcile.{Report}
use nf_orchestrator.Metrics.Snapshot.{Snapshot}
use nf_orchestrator.Metrics.Waves.{Meeting, reconcile_within}
use nf_orchestrator.Metrics.Waves.Laws.{joined}
use nf_orchestrator.Metrics.Waves.Live.{reconcile_within-live}
use nf_orchestrator.Metrics.Tally.{
  state_of, operation_of, one_if, same_state, same_operation, nf_states, operation_states, Samples,
  release, finished, Tally, tally, add_future, add_report,
}
use nf_orchestrator.Metrics.Futures.{Pool, submit, submit_all, futures_of_waves, futures}

-- The samples of a series when every release is reported: those of each report, in order.
abbrev pub each : (Text → Report) → (Text → Report → Samples) → List Text → Samples
each report samples [] = []
each report samples (name ∷ names) = samples name (report name) ++ each report samples names

-- No release is unreported, for any reason, and the series are those of the releases' reports.
pub record IsComplete (report : Text → Report) (names : List Text) (t : Tally) : Type 0 where
  pub late : t.late ≡ 0
  pub errored : t.errored ≡ 0
  pub refused : t.refused ≡ 0
  pub ours : t.ours ≡ 0
  pub quiet : t.raised ≡ false
  pub reported : t.reported ≡ each report (λ name r. (release name, 1) ∷ []) names
  pub states :
      t.states
      ≡ each report
          (λ name r. map (λ s. (state_of name s, one_if (same_state r.state s))) nf_states)
          names
  pub desired : t.desired ≡ each report (λ name r. (release name, r.desired_replicas) ∷ []) names
  pub ready : t.ready ≡ each report (λ name r. (release name, r.ready_replicas) ∷ []) names
  pub operations :
      t.operations
      ≡ each report
          (λ name r.
            map
              (λ s. (operation_of name s, one_if (same_operation r.last_operation.state s)))
              operation_states)
          names

submit_all-append :
    (p : Pool) (xs ys : List Text) → submit_all p (xs ++ ys) ≡ submit_all p xs ++ submit_all p ys
unfolding submit_all
submit_all-append p [] ys = refl
submit_all-append p (x ∷ xs) ys = rw (submit_all-append p xs ys) refl

pub futures_of_waves-joined :
    (p : Pool) (waves : List (List Text)) → futures_of_waves p waves ≡ submit_all p (joined waves)
unfolding futures_of_waves
futures_of_waves-joined p [] = refl
futures_of_waves-joined p (w ∷ ws) =
    rw (submit_all-append p w (joined ws), futures_of_waves-joined p ws) refl

or_right : (b : Bool) {c : Bool} → c ≡ true → (b || c) ≡ true
or_right b e = ground arith

tally-IsComplete :
    (p : Pool) (report : Text → Report) (exhausted misconfigured : Bool) (names : List Text)
    → ((name : Text) → one_of name names ≡ true → p.starts name ≡ true)
    → ((name : Text)
        → one_of name names ≡ true
        → p.outcome name ≡ finished (Snapshot.reported (report name)))
    → IsComplete report names (tally exhausted misconfigured (submit_all p names))
unfolding tally add_future add_report submit_all submit one_of
tally-IsComplete p report exhausted misconfigured [] starts reads = record {
  late = refl;
  errored = refl;
  refused = refl;
  ours = refl;
  quiet = refl;
  reported = refl;
  states = refl;
  desired = refl;
  ready = refl;
  operations = refl;
}
tally-IsComplete p report exhausted misconfigured (x ∷ xs) starts reads =
    let ih =
      tally-IsComplete p report exhausted misconfigured xs
        (λ name i. starts name (or_right (text_eq name x) i))
        (λ name i. reads name (or_right (text_eq name x) i)) in
    let here : one_of x (x ∷ xs) ≡ true = unfold one_of in rw (text_eq_refl x) refl in
    rw (starts x here, reads x here)
      (record {
        late = ih.late;
        errored = ih.errored;
        refused = ih.refused;
        ours = ih.ours;
        quiet = ih.quiet;
        reported = rw (ih.reported) refl;
        states = rw (ih.states) refl;
        desired = rw (ih.desired) refl;
        ready = rw (ih.ready) refl;
        operations = rw (ih.operations) refl;
      })

-- When every wait ends with its releases done, no turn of the waves takes longer than `cost`, the
-- clock does not run backwards, there is a worker whose threads start for each release, whose
-- future holds a report, and the budget has room for `cost` for each release, then the scrape counts no
-- release as unreported for any reason, and its series are those of the reports, in helm's order.
pub scrape-live :
    (m : Meeting) (cost : ℕ) (p : Pool) (report : Text → Report) (names : List Text)
    (exhausted misconfigured : Bool)
    → ((n : ℕ) (name : Text) → m.is_done n name ≡ true)
    → ((n : ℕ) → m.clock n ≤ m.clock (suc n))
    → ((n : ℕ) → m.clock (n + 4) ≤ m.clock n + cost)
    → 0 < cost
    → 0 < m.workers
    → ((name : Text) → one_of name names ≡ true → p.starts name ≡ true)
    → ((name : Text)
        → one_of name names ≡ true
        → p.outcome name ≡ finished (Snapshot.reported (report name)))
    → m.clock 0 + cost * length names ≤ m.deadline
    → IsComplete report names (tally exhausted misconfigured (futures m p names))
unfolding futures
scrape-live m cost p report names exhausted misconfigured done rising keeping some_cost working
      starts reads early =
    let (empty, whole) =
      reconcile_within-live m cost done rising keeping some_cost working names early in
    rw
      (
        empty,
        append-nil (futures_of_waves p (reconcile_within m names).waves),
        futures_of_waves-joined p (reconcile_within m names).waves,
        whole,
      )
      (tally-IsComplete p report exhausted misconfigured names starts reads)
