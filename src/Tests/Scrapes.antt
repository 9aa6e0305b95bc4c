-- ===== src/Tests/Scrapes.antt =====
-- The waves of a scrape.
use nf_orchestrator.Errors.{Result, ok, err}
use nf_orchestrator.Text.{Text, text, text_eq}
use nf_orchestrator.Reconciler.Reconcile.{absent}
use nf_orchestrator.Metrics.Snapshot.{Snapshot}
use nf_orchestrator.Metrics.Tally.{Family, Future, pending, finished}
use nf_orchestrator.Metrics.Calls.{Threads, collect_from}
use nf_orchestrator.Host.{Host, Outcome}
use nf_orchestrator.Tests.Hosts.{started, working}
use nf_orchestrator.Prelude.{
  if◌then◌else◌, none, some, Option, ◌*◌, ◌≡◌, true, List, [], ◌∷◌, arith,
}
use nf_orchestrator.Metrics.Waves.{Meeting, admit, first_wave, reconcile_within}
use nf_orchestrator.Metrics.Waves.Laws.{reconcile_within-fuel}
use nf_orchestrator.Metrics.Waves.Pace.{Paced, reconcile_within-Paced}

-- Five releases, eight workers, and waits that all end with their releases done.
abbrev names : List Text
names = text "a" ∷ text "b" ∷ text "c" ∷ text "d" ∷ text "e" ∷ []

abbrev meeting : Meeting
meeting = record {
  clock = λ n. n * 1000;
  is_done = λ n name. true;
  deadline = 1_000_000;
  workers = 8;
}

reconcile_within-Paced_example : Paced meeting 0 2 0 (reconcile_within meeting names).waves
reconcile_within-Paced_example = reconcile_within-Paced meeting names

reconcile_within-fuel_example :
    reconcile_within meeting names ≡ admit meeting 100 0 names (first_wave meeting) 0
reconcile_within-fuel_example = reconcile_within-fuel meeting names 100 (omega arith) (omega arith)

-- Of the first release there is a report, the second found the cluster busy, and no other is done.
abbrev outcome_of : Text → Future
outcome_of name =
    if text_eq name (text "a")
    then finished (Snapshot.reported (absent name))
    else if text_eq name (text "b")
    then finished Snapshot.busy
    else pending

abbrev threads : Threads
threads = record {
  prober_started = true;
  measured = none;
  clock = λ n. n * 1000;
  is_done = λ n name. true;
  workers = 8;
  pool = λ pods. record { starts = λ name. true; outcome = outcome_of };
}

-- A host whose kubectl is refused.
abbrev refusing : Host
refusing = record working { answer = λ n command timeout. Outcome.finished 1 [] (text "forbidden") }

abbrev families_of : Result (Option (List Family)) → List Family
families_of (ok (some families)) = families
families_of (ok none) = []
families_of (err _) = []

-- The series of a scrape behind the listing of the releases.
abbrev families : List Family
families = families_of (collect_from refusing threads 10_000_000 [] (ok (some names)) started).0
