-- ===== src/Deploy/Probe.antt =====
-- The readiness probe: `Probe`, its cache, `api_server_probe`, `_measure_probe`, `settled_probe`,
-- and `note_success` and `answered_recently`. The lock makes a probe one step of the process.
pub mod Laws
pub mod Keeps
pub mod Honest
pub mod Lock
use nf_orchestrator.Prelude.{
  ℕ, ◌-◌, Bool, true, false, not, ◌||◌, List, [], ◌∷◌, ◌++◌, Option, none, some, ltb, leb, ◌==◌,
  if◌then◌else◌, is_empty,
}
use nf_orchestrator.Text.{Text, text, strip, lower}
use nf_orchestrator.Errors.{Kind, DeployError, host_exhausted, is_instance, spawn_failure}
use nf_orchestrator.Errors.Classify.{mentions, exhaustion_markers}
use nf_orchestrator.Host.{
  Host, Probe, State, Exec, Command, Outcome, finished, timed_out, not_started, pure, gets, modify,
  ◌>>=◌, ◌>>◌, monotonic, day_time, run_process,
}
use nf_orchestrator.Deploy.Klog.{round_trip, startup_delay, error_text}
use nf_orchestrator.Deploy.Tools.{kubectl}

abbrev pub readyz : Command
readyz = text "get" ∷ text "--raw=/readyz" ∷ []

abbrev probe_verbosity : Text
probe_verbosity = text "-v=6"

-- On the round trip where there is one; a probe that never started says nothing of the cluster.
abbrev judge : (threshold : ℕ) → Probe → Option ℕ → Bool
judge threshold p (some rt) = leb threshold rt
judge threshold p none = if not p.started then false else not p.answered || leb threshold p.seconds

-- `Probe.slow`
unfoldable pub slow : Host → Probe → Bool
slow h p = judge h.config.slow_probe p p.round_trip

unfoldable is_exhaustion : Option DeployError → Bool
is_exhaustion none = false
is_exhaustion (some e) = is_instance e.kind host_exhausted

-- `Probe.exhausted`
unfoldable pub exhausted : Probe → Bool
unfolding is_exhaustion
exhausted p = is_exhaustion p.spawn_failure || mentions exhaustion_markers (lower p.error)

abbrev split_seconds : Probe → Option ℕ → Option ℕ
split_seconds p (some rt) = some (p.seconds - rt)
split_seconds p none = if not p.started then some p.seconds else p.startup

-- `Probe.local_seconds`; `-` stops at 0 as `max(0.0, …)` does.
unfoldable pub local_seconds : Probe → Option ℕ
local_seconds p = split_seconds p p.round_trip

-- `reset_probe_state`
reset_probe_state : State → State
reset_probe_state s = record s { probe = none; last_success = none; versions = none }

module _ (h : Host) where
  unfoldable pub note_success : Exec Unit
  note_success = do now ← monotonic h; modify (λ s. record s { last_success = some now })

  within : ℕ → Option ℕ → Exec Bool
  within window none = pure false
  within window (some at) = do now ← monotonic h; pure (leb (now - at) window)

  unfoldable pub answered_recently : Exec Bool
  unfolding within
  answered_recently = do last ← gets (λ s. s.last_success); within h.config.recent_success last

  -- What `_measure_probe` makes of the way in which kubectl ended.
  abbrev probe_of_timeout : (spawned began now : ℕ) → Text → Probe
  probe_of_timeout spawned began now partial = record {
    answered = false;
    seconds = now - began;
    round_trip = round_trip partial;
    started = not (is_empty (strip partial));
    startup = startup_delay partial spawned;
    error = [];
    spawn_failure = none;
  }

  abbrev probe_of_os_error : (began now : ℕ) → Option DeployError → Probe
  probe_of_os_error began now failure = record {
    answered = false;
    seconds = now - began;
    round_trip = none;
    started = false;
    startup = none;
    error = [];
    spawn_failure = failure;
  }

  abbrev probe_of_exit : (spawned began now : ℕ) → Bool → Text → Probe
  probe_of_exit spawned began now answered stderr = record {
    answered = answered;
    seconds = now - began;
    round_trip = round_trip stderr;
    started = true;
    startup = startup_delay stderr spawned;
    error = if answered then [] else error_text stderr;
    spawn_failure = none;
  }

  conclude : (spawned began : ℕ) → Outcome → Exec Probe
  conclude spawned began (timed_out partial) = do
    now ← monotonic h
    pure (probe_of_timeout spawned began now partial)
  conclude spawned began (not_started e) = do
    now ← monotonic h
    pure (probe_of_os_error began now (spawn_failure kubectl e))
  conclude spawned began (finished code stdout stderr) = do
    let answered = code == 0
    if answered then note_success else pure tt
    now ← monotonic h
    pure (probe_of_exit spawned began now answered stderr)

  abbrev pub probe_command : Command
  probe_command =
      kubectl ∷ text "--context" ∷ h.config.kube_context ∷ (readyz ++ probe_verbosity ∷ [])

  unfoldable pub measure_probe : ℕ → Exec Probe
  unfolding conclude note_success
  measure_probe timeout = do
    spawned ← day_time h
    began ← monotonic h
    outcome ← run_process h probe_command timeout
    conclude spawned began outcome

  -- The part of `api_server_probe` behind the cache.
  unfoldable pub remeasure : Option ℕ → Exec Probe
  remeasure timeout = do
    measured ← measure_probe (elim timeout [ none ↦ h.config.probe_timeout | some t ↦ t ])
    now ← monotonic h
    modify (λ s. record s { probe = some (now, measured) })
    pure measured

  reuse : (max_age : ℕ) → Option ℕ → Option (ℕ × Probe) → Exec Probe
  reuse max_age timeout none = remeasure timeout
  reuse max_age timeout (some (at, cached)) =
      if ltb 0 max_age
      then (do now ← monotonic h; if leb (now - at) max_age then pure cached else remeasure timeout)
      else remeasure timeout

  unfoldable pub api_server_probe : (max_age : ℕ) → Option ℕ → Exec Probe
  unfolding reuse
  api_server_probe max_age timeout = do cached ← gets (λ s. s.probe); reuse max_age timeout cached

  -- `api_server_answers`
  unfoldable api_server_answers : Exec Bool
  api_server_answers = do probe ← api_server_probe h.config.probe_ttl none; pure probe.answered

  unfoldable pub settled_probe : Exec Probe
  settled_probe = do
    probe ← api_server_probe h.config.probe_ttl none
    if probe.started then pure probe else api_server_probe 0 (some h.config.escalated_probe_timeout)
