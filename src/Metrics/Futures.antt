-- ===== src/Metrics/Futures.antt =====
-- `submit`, `_never_started` and the dict of futures that `reconcile_within` returns. A release's
-- name stands once in helm's list, so a dict of futures is a list of them.
pub mod Live
pub mod Answered
use nf_orchestrator.Prelude.{
  Bool, true, false, List, [], ◌∷◌, ◌++◌, map, Option, none, some, option,
}
use nf_orchestrator.Text.{Text}
use nf_orchestrator.Reconciler.State.{Pod}
use nf_orchestrator.Reconciler.Pods.{Grouped, find}
use nf_orchestrator.Metrics.Snapshot.{Snapshot}
use nf_orchestrator.Metrics.Waves.{Meeting, Admitted, reconcile_within}
use nf_orchestrator.Metrics.Tally.{Future, pending, finished}

-- A future that the pool took, or one that is done because no thread could be started.
unfoldable pub submit : (started : Bool) → (taken : Future) → Future
submit true taken = taken
submit false taken = finished Snapshot.exhausted

abbrev never_started : Future
never_started = pending

-- What the pool makes of a release: whether its thread started, and what its future is when it is
-- read.
pub record Pool : Type 0 where
  pub starts : Text → Bool
  pub outcome : Text → Future

unfoldable pub submit_all : Pool → List Text → List (Text × Future)
unfolding submit
submit_all p names = map (λ name. (name, submit (p.starts name) (p.outcome name))) names

unfoldable pub futures_of_waves : Pool → List (List Text) → List (Text × Future)
unfolding submit_all
futures_of_waves p [] = []
futures_of_waves p (batch ∷ waves) = submit_all p batch ++ futures_of_waves p waves

-- `futures`, behind the loop over the queue.
unfoldable pub futures : Meeting → Pool → List Text → List (Text × Future)
unfolding futures_of_waves
futures m p names =
    let admitted = reconcile_within m names in
    futures_of_waves p admitted.waves ++ map (λ name. (name, never_started)) admitted.queue

-- `None if pods is None else pods.get(name, [])`
abbrev pub pods_for : Option (Grouped Pod) → Text → Option (List Pod)
pods_for none name = none
pods_for (some grouped) name = some (option [] (λ pods. pods) (find name grouped))
