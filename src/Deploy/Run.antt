-- ===== src/Deploy/Run.antt =====
-- `run_bounded`, what explains a call that was killed for silence, and `check_cluster`.
pub mod Blame
pub mod Ready
pub mod Laws
pub mod Keeps
pub mod Returns
pub mod Runs
pub mod Changes
pub mod Spends
use nf_orchestrator.Prelude.{
  ℕ, Bool, true, false, not, ◌&&◌, List, [], ◌∷◌, ◌++◌, Option, none, some, leb, ◌==◌,
  if◌then◌else◌, is_empty, take, is_none,
}
use nf_orchestrator.Text.{Text, text, text_eq, strip, join, one_of}
use nf_orchestrator.Errors.{
  Kind, DeployError, OsError, os, deploy, cluster_unreachable, cluster_busy, host_overloaded,
  is_instance, spawn_failure,
}
use nf_orchestrator.Errors.Classify.{classify_error}
use nf_orchestrator.Host.{
  Host, Probe, State, Exec, Command, Outcome, finished, timed_out, not_started, pure, raise, fail,
  expect, ◌>>=◌, ◌>>◌, run_process,
}
use nf_orchestrator.Deploy.Tools.{helm, kubectl, require_tools}
use nf_orchestrator.Deploy.Probe.{
  readyz, slow, local_seconds, note_success, answered_recently, api_server_probe, settled_probe,
}

abbrev write_verbs : List Text
write_verbs = text "upgrade" ∷ text "install" ∷ text "uninstall" ∷ text "rollback" ∷ []

-- `args == other`, for two lists of texts
unfoldable pub command_eq : Command → Command → Bool
unfolding text_eq
command_eq [] [] = true
command_eq (a ∷ as') (b ∷ bs) = text_eq a b && command_eq as' bs
command_eq _ _ = false

-- `stderr.strip() or stdout.strip()`
unfoldable pub words_of : (stdout stderr : Text) → Text
words_of stdout stderr = if is_empty (strip stderr) then strip stdout else strip stderr

-- The command's first word, and the first of the caller's arguments.
unfoldable pub verb_of : Command → Command → Text
verb_of command args = join (text " ") (take 1 command ++ take 1 args)

module _ (h : Host) where
  could_not_start_message : ℕ → Text
  could_not_start_message seconds =
      text "this host could not start its readiness probe within "
      ++ (h.format_2f seconds
          ++ text "s: it is too overloaded to tell whether the cluster is answering")

  local_message : (round_trip local : ℕ) → Text
  local_message round_trip local =
      text "the API server answered its readiness probe in "
      ++ (h.format_millis round_trip
          ++ (text "ms while this host took "
              ++ (h.format_2f local
                  ++ text "s to run it: the delay is this host's, not the cluster's")))

  blame_host : Probe → Option ℕ → Exec (Option Text)
  unfolding local_message
  blame_host probe none = pure none
  blame_host probe (some local) =
      if probe.answered && not (slow h probe) && leb h.config.slow_probe local
      then (do round_trip ← expect probe.round_trip; pure (some (local_message round_trip local)))
      else pure none

  -- `local_delay`: why this host is the likely reason, or `none` for the empty text. Its `assert`
  -- is `expect`.
  unfoldable pub local_delay : Exec (Option Text)
  unfolding blame_host could_not_start_message
  local_delay = do
    probe ← settled_probe h
    if not probe.started
        then pure (some (could_not_start_message probe.seconds))
        else blame_host probe (local_seconds probe)

  -- `reachability_evidence`, with `none` for the empty text
  unfoldable pub reachability_evidence : Exec (Option Text)
  reachability_evidence = do
    probe ← settled_probe h
    if probe.answered then pure (some (text "the API server answers its readiness probe")) else do
      recently ← answered_recently h
      if recently
          then pure (some (text "the cluster answered another call moments ago"))
          else pure none

  silence_message : Text → ℕ → Text
  silence_message verb timeout =
      verb ++ (text " did not answer within " ++ (h.format_g timeout ++ text "s"))

  unreachable_error : Text → ℕ → DeployError
  unfolding silence_message
  unreachable_error verb timeout = record {
    kind = cluster_unreachable;
    message = silence_message verb timeout;
  }

  overloaded_error : Text → ℕ → Text → DeployError
  unfolding silence_message
  overloaded_error verb timeout local = record {
    kind = host_overloaded;
    message = silence_message verb timeout ++ (text ", and " ++ local);
  }

  busy_error : Text → ℕ → Text → DeployError
  unfolding silence_message
  busy_error verb timeout evidence = record {
    kind = cluster_busy;
    message =
        silence_message verb timeout
        ++ (text ", but "
            ++ (evidence
                ++ text ": it is reachable and not serving this client (throttled or overloaded)"));
  }

  weigh_evidence : {A : Type 0} → Text → ℕ → Option Text → Exec A
  unfolding busy_error unreachable_error
  weigh_evidence verb timeout (some evidence) = fail (busy_error verb timeout evidence)
  weigh_evidence verb timeout none = fail (unreachable_error verb timeout)

  weigh_local : {A : Type 0} → Text → ℕ → Option Text → Exec A
  unfolding overloaded_error weigh_evidence
  weigh_local verb timeout (some local) = fail (overloaded_error verb timeout local)
  weigh_local verb timeout none = do
    evidence ← reachability_evidence
    weigh_evidence verb timeout evidence

  weigh_failure : {A : Type 0} → Text → ℕ → Option DeployError → Exec A
  unfolding weigh_local
  weigh_failure verb timeout (some failure) = fail failure
  weigh_failure verb timeout none = do local ← local_delay; weigh_local verb timeout local

  -- The handler of `subprocess.TimeoutExpired` in `run_bounded`.
  unfoldable pub explain_silence : {A : Type 0} → Command → Command → ℕ → Exec A
  unfolding weigh_failure unreachable_error command_eq
  explain_silence command args timeout =
      if command_eq args readyz
      then fail (unreachable_error (verb_of command args) timeout)
      else (do
        probe ← settled_probe h
        weigh_failure (verb_of command args) timeout probe.spawn_failure)

  abbrev raise_spawn : {A : Type 0} → OsError → Option DeployError → Exec A
  raise_spawn e none = raise (os e)
  raise_spawn e (some failure) = fail failure

  abbrev tool_of : Command → Text
  tool_of [] = []
  tool_of (tool ∷ _) = tool

  -- A tool that ended with an error; whatever but "unreachable" it said, the cluster said it.
  refuse : {A : Type 0} → DeployError → Exec A
  refuse error = do
    if is_instance error.kind cluster_unreachable then pure tt else note_success h
    fail error

  settle : Command → Command → ℕ → Outcome → Exec Text
  unfolding explain_silence refuse note_success
  settle command args timeout (timed_out _) = explain_silence command args timeout
  settle command args timeout (not_started e) = raise_spawn e (spawn_failure (tool_of command) e)
  settle command args timeout (finished code stdout stderr) =
      if not (code == 0)
      then refuse (classify_error (words_of stdout stderr))
      else (do note_success h; pure stdout)

  unfoldable pub run_bounded : Command → Command → ℕ → Exec Text
  unfolding settle
  run_bounded command args timeout = do
    outcome ← run_process h command timeout
    settle command args timeout outcome

  unfoldable pub timeout_for : Command → ℕ
  timeout_for [] = h.config.read_timeout
  timeout_for (verb ∷ _) =
      if one_of verb write_verbs then h.config.write_timeout else h.config.read_timeout

  unfoldable pub run_helm : Command → Exec Text
  run_helm args = run_bounded (helm ∷ args) args (timeout_for args)

  unfoldable pub run_kubectl : Command → Exec Text
  run_kubectl args =
      run_bounded (kubectl ∷ text "--context" ∷ h.config.kube_context ∷ args) args
        (timeout_for args)

  not_started_error : DeployError
  not_started_error = record {
    kind = host_overloaded;
    message =
        text "kubectl get did not start within "
        ++ (h.format_g h.config.read_timeout
            ++ text "s: this host is too overloaded to tell whether the cluster is answering");
  }

  abbrev blame_probe : Probe → Option DeployError → Exec Unit
  blame_probe probe (some failure) = fail failure
  blame_probe probe none =
      if not (is_empty probe.error)
      then fail (classify_error probe.error)
      else if not probe.started
      then fail not_started_error
      else fail (unreachable_error (text "kubectl get") h.config.read_timeout)

  unfoldable pub check_cluster : Exec Unit
  unfolding not_started_error unreachable_error
  check_cluster = do
    require_tools h
    probe ← api_server_probe h 0 (some h.config.read_timeout)
    if probe.answered then pure tt else blame_probe probe probe.spawn_failure
