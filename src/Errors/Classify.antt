-- ===== src/Errors/Classify.antt =====
-- `classify_error` of orchestrator/deploy.py: what a failed tool's words say.
use nf_orchestrator.Prelude.{Bool, List, [], ◌∷◌, ◌++◌, if◌then◌else◌, any, take}
use nf_orchestrator.Text.{Text, text, lower, contains, strip, splitlines, before, join}
use nf_orchestrator.Errors.{
  DeployError, deploy_error, cluster_unreachable, cluster_busy, host_exhausted, host_misconfigured,
  cluster_conflict,
}

abbrev pub unreachable_markers : List Text
unreachable_markers =
    text "kubernetes cluster unreachable"
    ∷ text "unable to connect to the server"
    ∷ text "connection refused"
    ∷ text "actively refused"
    ∷ text "no such host"
    ∷ text "i/o timeout"
    ∷ []

abbrev pub busy_markers : List Text
busy_markers = text "too many requests" ∷ text "has asked us to try again later" ∷ []

abbrev pub exhaustion_markers : List Text
exhaustion_markers = text "failed to create new os thread" ∷ text "fatal error: newosproc" ∷ []

abbrev pub rejected_argument_markers : List Text
rejected_argument_markers = text "failed parsing --set-json data" ∷ []

abbrev conflict_markers : List Text
conflict_markers = text "conflict occurred while applying" ∷ text "apply failed with" ∷ []

-- `any(marker in lowered for marker in markers)`
unfoldable pub mentions : List Text → Text → Bool
mentions markers lowered = any (λ m. contains m lowered) markers

unfoldable pub from_crash : Text → DeployError
from_crash message =
    let lines = splitlines (strip (before (text "runtime stack:") message)) in
    record {
      kind = host_exhausted;
      message =
          text "this host could not start the threads helm or kubectl need: "
          ++ join (text " / ") (take 2 lines);
    }

-- The first line of a text that is not empty; `splitlines()[0]`.
abbrev first_line : List Text → Text
first_line [] = []
first_line (l ∷ _) = l

rejected_arguments : Text → DeployError
rejected_arguments message = record {
  kind = host_misconfigured;
  message =
      text "helm rejected the orchestrator's arguments, so its version or install does not "
      ++ (text "match what this orchestrator needs: "
          ++ take 200 (first_line (splitlines (strip message))));
}

unfoldable pub classify_error : Text → DeployError
unfolding rejected_arguments
classify_error message =
    let lowered = lower message in
    if mentions exhaustion_markers lowered
    then from_crash message
    else if mentions rejected_argument_markers lowered
    then rejected_arguments message
    else if mentions busy_markers lowered
    then record { kind = cluster_busy; message = message }
    else if mentions unreachable_markers lowered
    then record { kind = cluster_unreachable; message = message }
    else if mentions conflict_markers lowered
    then record { kind = cluster_conflict; message = message }
    else record { kind = deploy_error; message = message }
