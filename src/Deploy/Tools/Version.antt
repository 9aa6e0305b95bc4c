-- ===== src/Deploy/Tools/Version.antt =====
-- Which versions of helm the tools are in order with.
use nf_orchestrator.Prelude.{
  ℕ, suc, ◌≡◌, refl, ◌∙◌, Bool, true, false, not, List, [], ◌∷◌, none, some, arith, ◌==◌, is_empty,
  if◌then◌else◌,
}
use nf_orchestrator.Text.{Text, strip}
use nf_orchestrator.Errors.{Result, ok, err}
use nf_orchestrator.Host.{Host, State, Outcome, finished, monotonic, run_process}
use nf_orchestrator.Deploy.Klog.{helm_version, word}
use nf_orchestrator.Deploy.Klog.Digits.{ends_number}
use nf_orchestrator.Deploy.Klog.RoundTrip.{version_line, helm_version-line}
use nf_orchestrator.Deploy.Tools.{
  helm, kubectl, version_command, wrong_version_message, reported, ask_version, cached_version,
  version_problems, tool_problems, require_tools,
}
use nf_orchestrator.Deploy.Tools.Laws.{missing_tools_lem, helm_among_missing}

abbrev pub is_ok : {A : Type 0} → Result A → Bool
is_ok (ok _) = true
is_ok (err _) = false

-- The finding about a version.
abbrev finding : (major : ℕ) → Text → List Text
finding major found = if not (major == 4) then wrong_version_message found ∷ [] else []

version_problems-asked :
    (h : Host) (s : State) (o : Outcome) (major : ℕ) (found : Text)
    → s.versions ≡ none
    → h.answer (suc s.looks) version_command h.config.read_timeout ≡ o
    → helm_version (reported o) ≡ some (major, found)
    → (version_problems h s).0 ≡ ok (finding major found)
unfolding version_problems cached_version ask_version monotonic run_process
version_problems-asked h s o major found never answered read = rw (never, answered, read) refl

require_tools-found :
    (h : Host) (s : State) (problems : List Text)
    → h.which s.looks helm ≡ true
    → h.which (suc s.looks) kubectl ≡ true
    → (version_problems h (record s { looks = suc (suc s.looks) })).0 ≡ ok problems
    → is_ok (require_tools h s).0 ≡ is_empty problems
unfolding require_tools tool_problems
require_tools-found h s problems has_helm has_kubectl asked = ground (
  arith,
  missing_tools_lem h s,
  helm_among_missing (h.which s.looks helm) (h.which (suc s.looks) kubectl),
)

finding-is_empty : (major : ℕ) (found : Text) → is_empty (finding major found) ≡ (major == 4)
finding-is_empty major found = ground arith

-- With helm and kubectl on PATH, no answer about helm's version kept, and helm printing a version,
-- between blanks and with whatever behind it that is no digit, and with whatever exit code, the
-- tools are in order exactly when that version's first number is 4.
require_tools-version :
    (h : Host) (s : State) (major minor patch code : ℕ) (rest stdout stderr : Text)
    → h.which s.looks helm ≡ true
    → h.which (suc s.looks) kubectl ≡ true
    → s.versions ≡ none
    → h.answer (suc (suc (suc s.looks))) version_command h.config.read_timeout
      ≡ finished code stdout stderr
    → strip stdout ≡ version_line major minor patch rest
    → ends_number rest ≡ true
    → is_ok (require_tools h s).0 ≡ (major == 4)
require_tools-version h s major minor patch code rest stdout stderr has_helm has_kubectl never
      answered printed no_digit =
    let line = version_line major minor patch rest in
    let read : helm_version (strip stdout) ≡ some (major, word line) =
      rw (printed) (helm_version-line major minor patch rest no_digit) in
    require_tools-found h s (finding major (word line)) has_helm has_kubectl (
      version_problems-asked h (record s { looks = suc (suc s.looks) })
        (finished code stdout stderr) major (word line) never answered read)
    ∙ finding-is_empty major (word line)
