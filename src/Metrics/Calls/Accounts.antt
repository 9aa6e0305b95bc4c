-- ===== src/Metrics/Calls/Accounts.antt =====
-- A scrape of which the releases are listed accounts for each of them.
use nf_orchestrator.Prelude.{List, map}
use nf_orchestrator.Text.{Text}
use nf_orchestrator.Host.{Host}
use nf_orchestrator.Metrics.Tally.{Samples, Future, Label}

-- The releases of the futures, in their order.
abbrev names_of : List (Text × Future) → List Text
names_of fs = map (λ (name, f). name) fs

-- The releases that the samples of a series are labelled with, in their order.
abbrev pub labels_of : Samples → List Label
labels_of samples = map (λ (l, n). l) samples
