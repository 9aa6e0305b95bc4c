-- ===== src/Deploy/Tools.antt =====
-- Whether this host's helm and kubectl can do the job: `missing_tools`, `version_problems`,
-- `tool_problems` and `require_tools`.
pub mod Keeps
pub mod Laws
pub mod Version
pub mod Right
use nf_orchestrator.Prelude.{
  ℕ, ◌-◌, Bool, not, true, false, List, [], ◌∷◌, ◌++◌, Option, none, some, ltb, ◌==◌, if◌then◌else◌,
  is_empty, any,
}
use nf_orchestrator.Text.{Text, text, text_eq, strip, join, show}
use nf_orchestrator.Errors.{host_misconfigured}
use nf_orchestrator.Host.{
  Command, Host, State, Exec, Outcome, finished, timed_out, not_started, pure, fail, gets, modify,
  ◌>>=◌, ◌>>◌, monotonic, is_on_path, run_process,
}
use nf_orchestrator.Deploy.Klog.{helm_version}

abbrev pub helm : Text
helm = text "helm"

abbrev pub kubectl : Text
kubectl = text "kubectl"

abbrev pub tools : List Text
tools = helm ∷ kubectl ∷ []

abbrev required_helm_major : ℕ
required_helm_major = 4

abbrev pub version_ttl : ℕ
version_ttl = 60_000_000

abbrev pub version_command : Command
version_command = helm ∷ text "version" ∷ text "--short" ∷ []

wrong_version_message : Text → Text
wrong_version_message found =
    text "helm "
    ++ (found
        ++ (text " is installed but Helm "
            ++ (show required_helm_major
                ++ text
                    " is required (server-side apply that refuses conflicting field owners, and --set-json taking a whole object): install Helm 4; retrying will not help")))

not_found_message : List Text → Text
not_found_message missing =
    join (text " and ") missing
    ++ text " not found on PATH on this host: install or fix PATH; retrying will not help"

-- What `subprocess.run` printed, or nothing when it could not be run to its end.
abbrev reported : Outcome → Text
reported (finished _ stdout _) = strip stdout
reported (timed_out _) = []
reported (not_started _) = []

abbrev wrong_version : Option (ℕ × Text) → List Text
wrong_version none = []
wrong_version (some (major, found)) =
    if not (major == required_helm_major) then wrong_version_message found ∷ [] else []

module _ (h : Host) where
  missing_of : List Text → Exec (List Text)
  missing_of [] = pure []
  missing_of (tool ∷ rest) = do
    found ← is_on_path h tool
    others ← missing_of rest
    pure (if found then others else tool ∷ others)

  unfoldable pub missing_tools : Exec (List Text)
  unfolding missing_of
  missing_tools = missing_of tools

  ask_version : ℕ → Exec (List Text)
  unfolding wrong_version_message
  ask_version now = do
    outcome ← run_process h version_command h.config.read_timeout
    let problems = wrong_version (helm_version (reported outcome))
    modify (λ s. record s { versions = some (now, problems) })
    pure problems

  cached_version : ℕ → Option (ℕ × List Text) → Exec (List Text)
  unfolding ask_version
  cached_version now none = ask_version now
  cached_version now (some (at, problems)) =
      if ltb (now - at) version_ttl then pure problems else ask_version now

  unfoldable pub version_problems : Exec (List Text)
  unfolding cached_version
  version_problems = do
    now ← monotonic h
    cached ← gets (λ s. s.versions)
    cached_version now cached

  unfoldable pub tool_problems : Exec (List Text)
  unfolding not_found_message
  tool_problems = do
    missing ← missing_tools
    let problems = if is_empty missing then [] else not_found_message missing ∷ []
    if any (text_eq helm) missing
        then pure problems
        else (do versions ← version_problems; pure (problems ++ versions))

  unfoldable pub require_tools : Exec Unit
  require_tools = do
    problems ← tool_problems
    if is_empty problems
        then pure tt
        else fail (record { kind = host_misconfigured; message = join (text "; ") problems })
