-- ===== src/Metrics/Calls/Keeps.antt =====
-- A scrape runs helm's version and list, kubectl's list of pods and the probe, and nothing else; a
-- snapshot what reconciling runs.
use nf_orchestrator.Prelude.{ℕ, ◌≡◌, Bool, true, Option, none, some, List, ◌∷◌}
use nf_orchestrator.Text.{Text, text}
use nf_orchestrator.Errors.{Result, ok, err}
use nf_orchestrator.Host.{Host, Exec, Command}
use nf_orchestrator.Host.Keeps.{Keeps, Keeps-bind, Keeps-monotonic, keeps_rules}
use nf_orchestrator.Deploy.Probe.{probe_command}
use nf_orchestrator.Deploy.Tools.{helm, version_command}
use nf_orchestrator.Deploy.Tools.Keeps.{Keeps-tool_problems}
use nf_orchestrator.Deploy.Releases.{list_page, list_command, list_releases}
use nf_orchestrator.Deploy.Releases.Keeps.{Keeps-list_releases}
use nf_orchestrator.Reconciler.State.{Pod}
use nf_orchestrator.Reconciler.Pods.{pods_by_release}
use nf_orchestrator.Reconciler.Reconcile.{reconcile}
use nf_orchestrator.Reconciler.Reconcile.Keeps.{pods_command, Keeps-list_items}
use nf_orchestrator.Metrics.Snapshot.{snapshot}
use nf_orchestrator.Metrics.Calls.{Threads, attempt, collect_from, collect_calls}

module _ (allowed : Command → Bool) where
  Keeps-attempt : {A : Type 0} → (m : Exec A) → Keeps allowed m → Keeps allowed (attempt m)
  Keeps-attempt m km = record { at = λ s. km.at s }

  pub Keeps-snapshot :
      (h : Host) (name : Text) (pods : Option (List Pod))
      → Keeps allowed (reconcile h name pods)
      → Keeps allowed (snapshot h name pods)
  unfolding snapshot
  Keeps-snapshot h name pods kept = record { at = λ s. kept.at s }

  module _ (h : Host) (probing : allowed (probe_command h) ≡ true)
      (listing : allowed (pods_command h (text "app")) ≡ true) where
    Keeps-pods_by_release : Keeps allowed (pods_by_release h)
    unfolding pods_by_release
    Keeps-pods_by_release = search (keeps_rules, Keeps-list_items)

    Keeps-collect_from :
        (threads : Threads) (deadline : ℕ) (problems : List Text)
        (names : Result (Option (List Text)))
        → Keeps allowed (collect_from h threads deadline problems names)
    unfolding collect_from
    Keeps-collect_from threads deadline problems (err e) = search keeps_rules
    Keeps-collect_from threads deadline problems (ok none) = search keeps_rules
    Keeps-collect_from threads deadline problems (ok (some names)) =
        search (keeps_rules, Keeps-attempt, Keeps-pods_by_release) depth 9

    pub Keeps-collect_calls :
        (threads : Threads) (budget fuel : ℕ)
        → allowed version_command ≡ true
        → ((page offset : ℕ) → allowed (helm ∷ list_command h page offset) ≡ true)
        → Keeps allowed (collect_calls h threads budget fuel)
    unfolding collect_calls
    Keeps-collect_calls threads budget fuel asking paging =
        Keeps-bind allowed _ _ (Keeps-monotonic allowed h) (λ start.
          Keeps-bind allowed _ _ (Keeps-tool_problems allowed h asking) (λ problems.
            Keeps-bind allowed _ _
              (Keeps-attempt (list_releases h fuel list_page)
                (Keeps-list_releases allowed h probing paging fuel list_page))
              (Keeps-collect_from threads _ problems)))
