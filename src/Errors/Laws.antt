-- ===== src/Errors/Laws.antt =====
-- What the classification of failures says, over every message and every `OSError`.
use nf_orchestrator.Prelude.{◌≡◌, refl, ◌↔◌, true, false, arith}
use nf_orchestrator.Text.{Text, lower}
use nf_orchestrator.Errors.{cluster_unreachable, host_exhausted}
use nf_orchestrator.Errors.Classify.{
  exhaustion_markers, rejected_argument_markers, busy_markers, unreachable_markers, mentions,
  from_crash, classify_error,
}

from_crash-kind : (message : Text) → (from_crash message).kind ≡ host_exhausted
unfolding from_crash
from_crash-kind message = refl

-- A failure is put down to the cluster's not being reachable exactly when its words, in lower
-- case, hold a marker of that and none of this host's limits, of a rejected argument or of a busy
-- server.
classify_error-unreachable :
    (message : Text)
    → ((classify_error message).kind ≡ cluster_unreachable) ↔ (
        (mentions exhaustion_markers (lower message) ≡ false)
        × (mentions rejected_argument_markers (lower message) ≡ false)
        × (mentions busy_markers (lower message) ≡ false)
        × (mentions unreachable_markers (lower message) ≡ true))
unfolding classify_error
classify_error-unreachable message = ground (arith, from_crash-kind message)
