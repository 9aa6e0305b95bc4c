-- ===== src/Metrics/Snapshot.antt =====
-- `snapshot`: what a scrape learns of one release, and why it learned nothing.
use nf_orchestrator.Prelude.{Option, List, if◌then◌else◌}
use nf_orchestrator.Text.{Text}
use nf_orchestrator.Errors.{
  Kind, host_exhausted, host_misconfigured, host_overloaded, cluster_busy, is_instance, deploy, os,
  Result, ok, err,
}
use nf_orchestrator.Host.{Host, Exec}
use nf_orchestrator.Reconciler.State.{Pod}
use nf_orchestrator.Reconciler.Reconcile.{Report, reconcile}

-- `Snapshot`: a report, one of the four constants, or `None`.
pub data Snapshot : Type 0 where
  reported : Report → Snapshot
  busy host exhausted misconfigured unreadable : Snapshot

abbrev blame : Kind → Snapshot
blame k =
    if is_instance k host_exhausted
    then exhausted
    else if is_instance k host_misconfigured
    then misconfigured
    else if is_instance k host_overloaded
    then host
    else if is_instance k cluster_busy
    then busy
    else unreadable

-- The handlers of `snapshot`. A `DeployError` and an `OSError` are caught, a crash is not.
unfoldable pub snapshot_of : Result Report → Result Snapshot
unfolding is_instance
snapshot_of (ok report) = ok (reported report)
snapshot_of (err (deploy e)) = ok (blame e.kind)
snapshot_of (err (os e)) = ok unreadable
snapshot_of (err e) = err e

unfoldable pub snapshot : Host → Text → Option (List Pod) → Exec Snapshot
unfolding snapshot_of
snapshot h name pods s = let (r, t) = reconcile h name pods s in (snapshot_of r, t)
