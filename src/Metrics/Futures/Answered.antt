-- ===== src/Metrics/Futures/Answered.antt =====
-- A scrape of a cluster that keeps up, and whose tools print what they document, publishes the
-- states that those documents say.
use nf_orchestrator.Prelude.{
  false, none, not, all, is_none, arith, Bool-cases, inl, inr, Option, ℕ, suc, ◌+◌, ◌*◌, ◌≤◌, ◌<◌,
  ◌≡◌, refl, Bool, true, some, option, List, [], ◌∷◌, length,
}
use nf_orchestrator.Text.{Text, text_eq, one_of}
use nf_orchestrator.Text.Laws.{text_eq_iff}
use nf_orchestrator.Errors.{ok}
use nf_orchestrator.Host.{Host, State}
use nf_orchestrator.Reconciler.State.{Pod}
use nf_orchestrator.Reconciler.History.{Entry, deployed_revision, latest_from}
use nf_orchestrator.Reconciler.Pods.{Grouped, find}
use nf_orchestrator.Reconciler.Reconcile.{Report, report, absent}
use nf_orchestrator.Reconciler.Reconcile.Answered.{HasHistory, Desires, reconcile-given}
use nf_orchestrator.Metrics.Snapshot.{Snapshot, snapshot_of, snapshot}
use nf_orchestrator.Metrics.Waves.{Meeting}
use nf_orchestrator.Metrics.Tally.{finished, tally}
use nf_orchestrator.Metrics.Futures.{Pool, pods_for, futures}
use nf_orchestrator.Metrics.Futures.Live.{IsComplete, scrape-live}

-- What helm prints of a release.
pub record Documented (h : Host) (name : Text) : Type 0 where
  pub entry : Entry
  pub entries : List Entry
  pub status : Text
  pub count : ℕ
  pub known : HasHistory h name (entry ∷ entries)
  pub latest : (latest_from entry entries).status ≡ some status
  pub desired : Desires h name (deployed_revision (entry ∷ entries)) count

-- The report that these documents say, with the release's pods among those of all.
abbrev reads_as : (h : Host) → Grouped Pod → (name : Text) → Documented h name → Report
reads_as h grouped name d =
    report name (d.entry ∷ d.entries) d.status d.count
      (option [] (λ pods. pods) (find name grouped))

-- The same of a release that has documents. One that has none stands in no list that this is used
-- of.
abbrev pub said :
    (h : Host) → Grouped Pod → ((name : Text) → Option (Documented h name)) → Text → Report
said h grouped documented name = option (absent name) (reads_as h grouped name) (documented name)

-- Each of the names has documents.
abbrev pub are_documented :
    (h : Host) → ((name : Text) → Option (Documented h name)) → List Text → Bool
are_documented h documented names = all (λ name. not (is_none (documented name))) names

snapshot-read :
    (h : Host) (grouped : Grouped Pod) (name : Text) (d : Documented h name) (s : State)
    → (snapshot h name (pods_for (some grouped) name) s).0
      ≡ ok (Snapshot.reported (reads_as h grouped name d))
unfolding snapshot snapshot_of
snapshot-read h grouped name d s =
    rw
      (reconcile-given h name d.entry d.entries d.status d.count
        (option [] (λ pods. pods) (find name grouped)) d.known d.latest d.desired s).0
      refl

some_of : {A : Type 0} → (x : Option A) → is_none x ≡ false → (a : A) × (x ≡ some a)
some_of none e = absurd (ground arith)
some_of (some a) e = (a, refl)

documents-given :
    (h : Host) (documented : (name : Text) → Option (Documented h name)) (names : List Text)
    (name : Text)
    → are_documented h documented names ≡ true
    → one_of name names ≡ true
    → (d : Documented h name) × (documented name ≡ some d)
unfolding one_of
documents-given h documented [] name whole listed = absurd (ground arith)
documents-given h documented (x ∷ xs) name whole listed = elim (Bool-cases (text_eq name x)) [
  | inl here ↦
      let same = (text_eq_iff name x).0 here in some_of (documented name) (rw (same) (ground arith))
  | inr behind ↦ documents-given h documented xs name (ground arith) (ground arith)
]

snapshot-answered :
    (h : Host) (grouped : Grouped Pod) (documented : (name : Text) → Option (Documented h name))
    (names : List Text) (name : Text) (s : State)
    → are_documented h documented names ≡ true
    → one_of name names ≡ true
    → (snapshot h name (pods_for (some grouped) name) s).0
      ≡ ok (Snapshot.reported (said h grouped documented name))
snapshot-answered h grouped documented names name s whole listed =
    let (d, given) = documents-given h documented names name whole listed in
    rw (given) (snapshot-read h grouped name d s)

-- When every wait of a scrape ends with its releases done, no turn of the waves takes longer than
-- `cost`, the clock does not run backwards, there is a worker, the budget has room for `cost` for
-- each release, and of each listed release helm prints its documents, a thread starts and its
-- future holds what its snapshot returned, in whatever state of the process that began, then the
-- scrape counts no release as unreported, and its series are those of the reports that those
-- documents and the pods of all releases say, in helm's order.
pub scrape-answered :
    (h : Host) (m : Meeting) (cost : ℕ) (p : Pool) (grouped : Grouped Pod)
    (documented : (name : Text) → Option (Documented h name)) (meets : Text → State)
    (names : List Text) (exhausted misconfigured : Bool)
    → are_documented h documented names ≡ true
    → ((n : ℕ) (name : Text) → m.is_done n name ≡ true)
    → ((n : ℕ) → m.clock n ≤ m.clock (suc n))
    → ((n : ℕ) → m.clock (n + 4) ≤ m.clock n + cost)
    → 0 < cost
    → 0 < m.workers
    → ((name : Text) → one_of name names ≡ true → p.starts name ≡ true)
    → ((name : Text) (x : Snapshot)
        → one_of name names ≡ true
        → (snapshot h name (pods_for (some grouped) name) (meets name)).0 ≡ ok x
        → p.outcome name ≡ finished x)
    → m.clock 0 + cost * length names ≤ m.deadline
    → IsComplete
        (said h grouped documented)
        names
        (tally exhausted misconfigured (futures m p names))
scrape-answered h m cost p grouped documented meets names exhausted misconfigured whole done rising
      keeping some_cost working starts holds early =
    scrape-live m cost p (said h grouped documented) names exhausted misconfigured done rising
      keeping some_cost working starts
      (λ name listed.
        holds name (Snapshot.reported (said h grouped documented name)) listed
          (snapshot-answered h grouped documented names name (meets name) whole listed))
      early
