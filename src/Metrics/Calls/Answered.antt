-- ===== src/Metrics/Calls/Answered.antt =====
-- A scrape of a host whose tools print what they document, from its first call to its series.
use nf_orchestrator.Prelude.{
  false, not, Option, ◌||◌, ap, arith, ℕ, suc, ◌+◌, ◌*◌, ◌≤◌, ◌<◌, ◌≡◌, refl, Bool, true, some,
  List, [], not, length,
}
use nf_orchestrator.Text.{Text, text, one_of}
use nf_orchestrator.Errors.{ok}
use nf_orchestrator.Host.{Host, State, Exec, monotonic}
use nf_orchestrator.Deploy.Run.Runs.{Runs-Returns}
use nf_orchestrator.Deploy.Run.Returns.{Returns, Returns-pure, Returns-bind, Returns-expect}
use nf_orchestrator.Deploy.Tools.Laws.{tool_problems_total}
use nf_orchestrator.Deploy.Releases.{list_page, list_releases}
use nf_orchestrator.Deploy.Releases.Laws.{IsDistinct, Serves, list_releases-all}
use nf_orchestrator.Reconciler.Pods.{Item, Grouped, group_from, parse_groups, pods_by_release}
use nf_orchestrator.Reconciler.Reconcile.{Report}
use nf_orchestrator.Reconciler.Reconcile.Answered.{ListsPods, Runs-list_items}
use nf_orchestrator.Metrics.Snapshot.{Snapshot, snapshot}
use nf_orchestrator.Metrics.Tally.{Family, finished, tally, record_probe}
use nf_orchestrator.Metrics.Futures.{pods_for, futures}
use nf_orchestrator.Metrics.Futures.Live.{IsComplete}
use nf_orchestrator.Metrics.Futures.Answered.{Documented, said, are_documented, scrape-answered}
use nf_orchestrator.Metrics.Scrape.{Answers, pods_failure, collect}
use nf_orchestrator.Metrics.Calls.{
  Threads, attempt, meeting_of, answers_of, collect_from, collect_calls,
}
use nf_orchestrator.Metrics.Calls.Published.{Publishes, emit-Publishes}

Returns-attempt : {A : Type 0} → (m : Exec A) (a : A) → Returns m a → Returns (attempt m) (ok a)
Returns-attempt m a r = record { at = λ s. rw (r.at s) refl }

Returns-pods_by_release :
    (h : Host) (items : List Item) (grouped : Grouped Item)
    → ListsPods h (text "app") items
    → group_from [] items ≡ some grouped
    → Returns (pods_by_release h) (parse_groups grouped)
unfolding pods_by_release
Returns-pods_by_release h items grouped listed e =
    Returns-bind _ _ items (parse_groups grouped)
      (Runs-Returns (Runs-list_items h (text "app") items listed))
      (Returns-bind _ _ grouped (parse_groups grouped) (Returns-expect _ grouped e)
        (Returns-pure (parse_groups grouped)))

module _ (h : Host) (threads : Threads) (names : List Text) (grouped : Grouped Item)
    (report : Text → Report) where
  -- What the calls of the scrape came to.
  abbrev answers : (deadline : ℕ) → (problems : List Text) → Answers
  answers deadline problems =
      answers_of h threads problems (ok names) (ok tt)
        (futures (meeting_of threads deadline) (threads.pool (some (parse_groups grouped))) names)

  collect-Publishes :
      (deadline : ℕ) (problems : List Text)
      → ((exhausted misconfigured : Bool)
          → IsComplete report names
              (tally exhausted misconfigured (answers deadline problems).futures))
      → (families : List Family) × (collect h (answers deadline problems) ≡ some families)
        × Publishes report names families
  unfolding collect pods_failure
  collect-Publishes deadline problems whole =
      let a = answers deadline problems in
      let exhausted = not a.prober_started || false in
      let misconfigured = a.tool_problems_found || false in
      (
        _,
        rw ((whole exhausted misconfigured).quiet) refl,
        emit-Publishes h a (record_probe a.prober_started a.measured) exhausted misconfigured false
            report names (whole exhausted misconfigured),
      )

  Returns-collect_from :
      (items : List Item) (deadline : ℕ) (problems : List Text) (families : List Family)
      → ListsPods h (text "app") items
      → group_from [] items ≡ some grouped
      → collect h (answers deadline problems) ≡ some families
      → Returns (collect_from h threads deadline problems (ok (some names))) (some families)
  unfolding collect_from
  Returns-collect_from items deadline problems families listed e collected = record {
    at = λ s.
        let pods = Returns-pods_by_release h items grouped listed e in
        rw (pods.at s) (ap ok collected);
  }

-- When helm serves the list of the releases, its names distinct, by pages, with fuel for more than
-- the list fills, kubectl lists all pods, each with its release's label, helm prints its documents
-- of each listed release, the prober's and the pool's threads meet the scrape as follows: every
-- wait ends with its releases done, no turn of the waves takes longer than `cost`, the clock does
-- not run backwards, there is a worker, for each listed release a thread starts and its future
-- holds what its snapshot returned, in whatever state of the process that began, and the budget has
-- room for `cost` for each release from the scrape's start, then `collect` emits its series,
-- whatever the process did before and whatever is wrong with the tools' versions: the cluster can
-- be reached, no release is unreported, and the series of the releases hold the reports that those
-- documents and those pods say, in helm's order.
pub collect_calls-answered :
    (h : Host) (threads : Threads) (cost budget fuel : ℕ) (names : List Text) (items : List Item)
    (grouped : Grouped Item) (documented : (name : Text) → Option (Documented h name))
    (meets : Text → State) (s : State)
    → Serves h list_page names
    → are_documented h documented names ≡ true
    → IsDistinct names
    → length names < fuel * list_page
    → ListsPods h (text "app") items
    → group_from [] items ≡ some grouped
    → ((n : ℕ) (name : Text) → threads.is_done n name ≡ true)
    → ((n : ℕ) → threads.clock n ≤ threads.clock (suc n))
    → ((n : ℕ) → threads.clock (n + 4) ≤ threads.clock n + cost)
    → 0 < cost
    → 0 < threads.workers
    → ((name : Text)
        → one_of name names ≡ true
        → (threads.pool (some (parse_groups grouped))).starts name ≡ true)
    → ((name : Text) (x : Snapshot)
        → one_of name names ≡ true
        → (snapshot h name (pods_for (some (parse_groups grouped)) name) (meets name)).0 ≡ ok x
        → (threads.pool (some (parse_groups grouped))).outcome name ≡ finished x)
    → threads.clock 0 + cost * length names ≤ h.clock s.looks + budget
    → (families : List Family) × ((collect_calls h threads budget fuel s).0 ≡ ok (some families))
      × Publishes (said h (parse_groups grouped) documented) names families
unfolding collect_calls monotonic
collect_calls-answered h threads cost budget fuel names items grouped documented meets s serves
      whole distinct enough listed groups done rising keeping some_cost working starts holds early =
    let t1 = record s { looks = suc s.looks } in
    let final = h.clock s.looks + budget in
    let p = threads.pool (some (parse_groups grouped)) in
    let (problems, t2, told, _, _) = tool_problems_total h t1 in
    let (families, collected, publishes) =
      collect-Publishes h threads names grouped (said h (parse_groups grouped) documented) final
        problems
        (λ exhausted misconfigured.
          scrape-answered h (meeting_of threads final) cost p (parse_groups grouped) documented
            meets names exhausted misconfigured whole done rising keeping some_cost working starts
            holds early) in
    let rest =
      Returns-bind _ (collect_from h threads final problems) (ok (some names)) (some families)
        (Returns-attempt (list_releases h fuel list_page) (some names) (record {
          at = λ t. list_releases-all h list_page names serves (omega arith) distinct fuel t enough;
        }))
        (Returns-collect_from h threads names grouped (said h (parse_groups grouped) documented)
          items final problems families listed groups collected) in
    (families, rw (told) (rest.at t2), publishes)
