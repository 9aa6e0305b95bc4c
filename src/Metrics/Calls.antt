-- ===== src/Metrics/Calls.antt =====
-- `LifecycleCollector.collect` with its calls, in their order, on a host. What its threads come to,
-- the prober's and the pool's, is given; what they change of the process's state beside it is not
-- part of the result.
pub mod Accounts
pub mod Published
pub mod Answered
pub mod Cut
pub mod Keeps
pub mod Reads
use nf_orchestrator.Prelude.{ℕ, ◌+◌, Bool, not, List, [], Option, none, some, is_empty}
use nf_orchestrator.Text.{Text}
use nf_orchestrator.Errors.{Result, ok, err}
use nf_orchestrator.Host.{Host, Probe, Exec, pure, ◌>>=◌, monotonic}
use nf_orchestrator.Deploy.Tools.{tool_problems}
use nf_orchestrator.Deploy.Releases.{list_page, list_releases}
use nf_orchestrator.Reconciler.State.{Pod}
use nf_orchestrator.Reconciler.Pods.{Grouped, pods_by_release}
use nf_orchestrator.Metrics.Waves.{Meeting}
use nf_orchestrator.Metrics.Tally.{Family, Future}
use nf_orchestrator.Metrics.Futures.{Pool, futures}
use nf_orchestrator.Metrics.Scrape.{Answers, collect}

-- `measured` is what the prober's thread has stored when the scrape has waited for it. The pool
-- reconciles with the pods that were listed, where they were.
pub record Threads : Type 0 where
  pub prober_started : Bool
  pub measured : Option Probe
  pub clock : ℕ → ℕ
  pub is_done : ℕ → Text → Bool
  pub workers : ℕ
  pub pool : Option (Grouped Pod) → Pool

-- A call whose exception is caught, to be told apart by the handlers.
abbrev pub attempt : {A : Type 0} → Exec A → Exec (Result A)
attempt m s = let (r, t) = m s in (ok r, t)

-- `pods`, which is `None` where the listing failed, and how the listing ended.
abbrev listed_pods : Result (Grouped Pod) → Option (Grouped Pod)
listed_pods (ok pods) = some pods
listed_pods (err e) = none

abbrev ending : {A : Type 0} → Result A → Result (Unit {0})
ending (ok _) = ok tt
ending (err e) = err e

abbrev pub meeting_of : Threads → (deadline : ℕ) → Meeting
meeting_of threads deadline = record {
  clock = threads.clock;
  is_done = threads.is_done;
  deadline = deadline;
  workers = threads.workers;
}

module _ (h : Host) (threads : Threads) where
  abbrev answers_of :
      (problems : List Text)
      → Result (List Text)
      → Result (Unit {0})
      → List (Text × Future)
      → Answers
  answers_of problems listed pods_listed fs = record {
    tool_problems_found = not (is_empty problems);
    prober_started = threads.prober_started;
    measured = threads.measured;
    listed = listed;
    pods_listed = pods_listed;
    futures = fs;
  }

  -- Behind the listing of the releases; `none` where its fuel ran out or the scrape ends with an
  -- exception.
  unfoldable pub collect_from :
      (deadline : ℕ)
      → (problems : List Text) → Result (Option (List Text))
      → Exec (Option (List Family))
  collect_from deadline problems (err e) = pure (collect h (answers_of problems (err e) (ok tt) []))
  collect_from deadline problems (ok none) = pure none
  collect_from deadline problems (ok (some names)) = do
    pods ← attempt (pods_by_release h)
    pure (
        collect h (
          answers_of problems (ok names) (ending pods)
            (futures (meeting_of threads deadline) (threads.pool (listed_pods pods)) names)))

  -- The scrape, with its budget of time and a bound on the pages of helm's list.
  unfoldable pub collect_calls : (budget fuel : ℕ) → Exec (Option (List Family))
  unfolding collect_from
  collect_calls budget fuel = do
    start ← monotonic h
    problems ← tool_problems h
    names ← attempt (list_releases h fuel list_page)
    collect_from (start + budget) problems names
