-- ===== src/Metrics/Tally.antt =====
-- The series of a scrape, `record_probe`, and the loop of `collect` over the futures.
pub mod Laws
use nf_orchestrator.Prelude.{
  ℕ, suc, Bool, true, false, List, [], ◌∷◌, ◌++◌, Option, none, some, map, if◌then◌else◌,
}
use nf_orchestrator.Text.{Text}
use nf_orchestrator.Host.{Probe}
use nf_orchestrator.Deploy.Probe.{local_seconds}
use nf_orchestrator.Reconciler.State.{
  NfState, not_instantiated, instantiating, instantiated, OperationState, processing, completed,
  unknown,
}
use nf_orchestrator.Reconciler.Reconcile.{Report}
use nf_orchestrator.Metrics.Snapshot.{Snapshot}

pub data Series : Type 0 where
  cluster_reachable cluster_busy_now probe_seconds probe_local orchestrator_exhausted : Series
  orchestrator_misconfigured releases_unreported release_reported deployment_state : Series
  desired_replicas ready_replicas operation_state : Series

-- What tells the samples of one series apart: nothing, a release, a release and one of its states,
-- or a reason.
pub data Label : Type 0 where
  plain : Label
  release : Text → Label
  state_of : Text → NfState → Label
  operation_of : Text → OperationState → Label
  deadline error busy host : Label

abbrev pub Samples : Type 0
Samples = List (Label × ℕ)

pub record Family : Type 0 where
  pub series : Series
  pub samples : Samples

-- A release's future when it is read: not done or cancelled, done with a snapshot, or done with an
-- exception that `snapshot` does not catch.
pub data Future : Type 0 where
  pending : Future
  finished : Snapshot → Future
  raised : Future

abbrev pub one_if : Bool → ℕ
one_if true = 1
one_if false = 0

abbrev one_sample : Option ℕ → Samples
one_sample none = []
one_sample (some n) = (plain, n) ∷ []

abbrev cluster_part : Option ℕ → Probe → Option ℕ
cluster_part (some rt) p = some rt
cluster_part none p = if p.started then some p.seconds else none

-- `record_probe`: the probe, where there is one, and what is added to the two series.
pub record Recorded : Type 0 where
  pub probe : Option Probe
  pub cluster_seconds : Samples
  pub host_seconds : Samples

abbrev record_measured : Option Probe → Recorded
record_measured none = record { probe = none; cluster_seconds = []; host_seconds = [] }
record_measured (some p) = record {
  probe = some p;
  cluster_seconds = one_sample (cluster_part p.round_trip p);
  host_seconds = one_sample (local_seconds p);
}

unfoldable pub record_probe : (prober_started : Bool) → Option Probe → Recorded
record_probe false measured = record { probe = none; cluster_seconds = []; host_seconds = [] }
record_probe true measured = record_measured measured

abbrev pub same_state : NfState → NfState → Bool
same_state not_instantiated not_instantiated = true
same_state instantiating instantiating = true
same_state instantiated instantiated = true
same_state NfState.failed NfState.failed = true
same_state _ _ = false

abbrev pub same_operation : OperationState → OperationState → Bool
same_operation processing processing = true
same_operation completed completed = true
same_operation OperationState.failed OperationState.failed = true
same_operation unknown unknown = true
same_operation _ _ = false

abbrev pub nf_states : List NfState
nf_states = not_instantiated ∷ instantiating ∷ instantiated ∷ NfState.failed ∷ []

abbrev pub operation_states : List OperationState
operation_states = processing ∷ completed ∷ OperationState.failed ∷ unknown ∷ []

-- What the loop over the futures adds up, and whether one of them raised its exception again, which
-- ends the loop and the scrape.
pub record Tally : Type 0 where
  pub late : ℕ
  pub errored : ℕ
  pub refused : ℕ
  pub ours : ℕ
  pub exhausted : Bool
  pub misconfigured : Bool
  pub raised : Bool
  pub reported : Samples
  pub states : Samples
  pub desired : Samples
  pub ready : Samples
  pub operations : Samples

abbrev pub unreported : Text → Tally → Tally
unreported name t = record t { reported = (release name, 0) ∷ t.reported }

unfoldable pub add_report : Text → Report → Tally → Tally
add_report name r t = record t {
  reported = (release name, 1) ∷ t.reported;
  states = map (λ s. (state_of name s, one_if (same_state r.state s))) nf_states ++ t.states;
  desired = (release name, r.desired_replicas) ∷ t.desired;
  ready = (release name, r.ready_replicas) ∷ t.ready;
  operations =
      map (λ s. (operation_of name s, one_if (same_operation r.last_operation.state s)))
        operation_states
      ++ t.operations;
}

-- One turn of the loop, before the turns behind it: samples stand in the order of the futures.
unfoldable pub add_future : Text → Future → Tally → Tally
unfolding add_report
add_future name pending t = unreported name (record t { late = suc t.late })
add_future name Future.raised t = record t { raised = true }
add_future name (finished Snapshot.exhausted) t =
    unreported name (record t { ours = suc t.ours; exhausted = true })
add_future name (finished Snapshot.misconfigured) t =
    unreported name (record t { ours = suc t.ours; misconfigured = true })
add_future name (finished Snapshot.host) t = unreported name (record t { ours = suc t.ours })
add_future name (finished Snapshot.busy) t = unreported name (record t { refused = suc t.refused })
add_future name (finished Snapshot.unreadable) t =
    unreported name (record t { errored = suc t.errored })
add_future name (finished (Snapshot.reported r)) t = add_report name r t

unfoldable pub tally : (exhausted misconfigured : Bool) → List (Text × Future) → Tally
unfolding add_future
tally exhausted misconfigured [] = record {
  late = 0;
  errored = 0;
  refused = 0;
  ours = 0;
  exhausted = exhausted;
  misconfigured = misconfigured;
  raised = false;
  reported = [];
  states = [];
  desired = [];
  ready = [];
  operations = [];
}
tally exhausted misconfigured ((name, f) ∷ fs) =
    add_future name f (tally exhausted misconfigured fs)
