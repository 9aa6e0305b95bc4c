-- ===== src/Metrics/Calls/Reads.antt =====
-- The commands that a scrape runs, its threads' included.
use nf_orchestrator.Prelude.{ℕ, refl, Option, some, List}
use nf_orchestrator.Text.{Text, text, text_eq, one_of}
use nf_orchestrator.Host.{Host}
use nf_orchestrator.Host.Keeps.{Keeps}
use nf_orchestrator.Deploy.Probe.{api_server_probe}
use nf_orchestrator.Deploy.Probe.Keeps.{Keeps-api_server_probe}
use nf_orchestrator.Deploy.Releases.{list_command}
use nf_orchestrator.Reconciler.State.{Pod}
use nf_orchestrator.Reconciler.History.{history_command}
use nf_orchestrator.Reconciler.Reconcile.{values_command}
use nf_orchestrator.Reconciler.Reconcile.Keeps.{Keeps-reconcile}
use nf_orchestrator.Metrics.Snapshot.{snapshot}
use nf_orchestrator.Metrics.Calls.{Threads, collect_calls}
use nf_orchestrator.Metrics.Calls.Keeps.{Keeps-snapshot, Keeps-collect_calls}
use nf_orchestrator.Routes.Serving.Reads.{is_read}

-- A scrape changes nothing in the cluster and counts nothing, on any path: from whatever state each of
-- them begins, its own calls, whatever its threads come to, the snapshot that a thread of its pool
-- takes of a release, and its prober's probe run no command but readings, leave both counters, and
-- keep an honest probe in the cache.
pub collect_calls-Keeps :
    (h : Host) (threads : Threads) (budget fuel timeout : ℕ)
    → Keeps is_read (collect_calls h threads budget fuel)
      × ((name : Text) (pods : Option (List Pod)) → Keeps is_read (snapshot h name pods))
      × Keeps is_read (api_server_probe h 0 (some timeout))
unfolding is_read text text_eq one_of history_command values_command list_command
collect_calls-Keeps h threads budget fuel timeout = (
  Keeps-collect_calls is_read h refl refl threads budget fuel refl (λ page offset. refl),
  λ name pods.
      Keeps-snapshot is_read h name pods
        (Keeps-reconcile is_read h refl name (λ n. refl) refl pods refl),
  Keeps-api_server_probe is_read h refl 0 (some timeout),
)
