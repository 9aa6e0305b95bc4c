-- ===== src/Deploy/Run/Laws.antt =====
-- What a call of helm or kubectl returns, remembers and costs.
use nf_orchestrator.Prelude.{
  ℕ, suc, ◌+◌, ◌≤◌, ◌≡◌, refl, ◌≢◌, ◌↔◌, inl, inr, true, false, not, ◌||◌, ◌==◌, [], ◌∷◌, Option,
  none, some, arith, length, if◌then◌else◌,
}
use nf_orchestrator.Text.{Text}
use nf_orchestrator.Text.Laws.{text_eq_refl}
use nf_orchestrator.Errors.{DeployError, cluster_unreachable, is_instance, deploy, ok, err}
use nf_orchestrator.Errors.Classify.{classify_error}
use nf_orchestrator.Host.{
  Host, State, Command, Outcome, finished, timed_out, not_started, monotonic, run_process,
}
use nf_orchestrator.Host.Laws.{Result-cases}
use nf_orchestrator.Deploy.Probe.{readyz, answered_recently}
use nf_orchestrator.Deploy.Probe.Laws.{settled_probe_lem}
use nf_orchestrator.Host.Keeps.{HasHonestCache}
use nf_orchestrator.Deploy.Run.{
  command_eq, words_of, local_delay, reachability_evidence, weigh_local, weigh_failure,
  explain_silence, settle, run_bounded, verb_of,
}
use nf_orchestrator.Deploy.Run.Blame.{Justified, Grounds-Justified, explain_silence-Grounds}

module _ (h : Host) (command args : Command) (timeout : ℕ) where
  -- A call, not of the probe's own arguments, that was killed for silence and raises an error:
  -- "unreachable" is said only when a probe of the API server was then unanswered and no call had
  -- been answered recently, "busy" only when one of the two was the case, and "overloaded" only of
  -- a probe that did not start or that this host, not the server, took long over. The cached probe
  -- is one that `api_server_probe` can have stored.
  pub run_bounded-blame :
      (s t : State) (partial : Text) (e : DeployError)
      → HasHonestCache s
      → command_eq args readyz ≡ false
      → h.answer s.looks command timeout ≡ timed_out partial
      → run_bounded h command args timeout s ≡ (err (deploy e), t)
      → Justified h t e.kind
  unfolding run_bounded run_process
  run_bounded-blame s t partial e honest other silent raised =
      let grounds =
        explain_silence-Grounds {A = Text} h command args timeout
          (record s { looks = suc s.looks; ran = command ∷ s.ran }) t e honest other
          (ground arith) in
      Grounds-Justified h e t grounds

  -- Once the tool has ended by itself, the time of the last success becomes the next reading of the
  -- clock where its exit code is 0 or its words are classified as anything but "unreachable", this
  -- host's own exhaustion and rejected arguments included, of which the cluster need not know;
  -- where they are classified as "unreachable", it stays what it was.
  pub run_bounded-last_success :
      (s : State) (code : ℕ) (stdout stderr : Text)
      → h.answer s.looks command timeout ≡ finished code stdout stderr
      → (run_bounded h command args timeout s).1.last_success ≡ (
          if code == 0
            || not (is_instance (classify_error (words_of stdout stderr)).kind cluster_unreachable)
          then some (h.clock (suc s.looks))
          else s.last_success)
  unfolding run_bounded run_process monotonic
  run_bounded-last_success s code stdout stderr e = ground arith

explain-ne-ok :
    {A : Type 0} (h : Host) (command args : Command) (timeout : ℕ) (s t : State) (a : A)
    → explain_silence h command args timeout s ≢ (ok a, t)
unfolding explain_silence
explain-ne-ok h command args timeout s t a e =
    let (p, u, found, _, _) = settled_probe_lem h s in ground arith

settle-ok :
    (h : Host) (command args : Command) (timeout : ℕ) (s : State) (o : Outcome) (output : Text)
    → ((settle h command args timeout o s).0 ≡ ok output)
      ↔ ((stderr : Text) × (o ≡ finished 0 output stderr))
unfolding settle monotonic
settle-ok h command args timeout s (timed_out partial) output = (
  λ e. absurd (
      explain-ne-ok h command args timeout s (explain_silence h {A = Text} command args timeout s).1
        output (ground arith)),
  λ (x, e). ground arith,
)
settle-ok h command args timeout s (not_started e) output =
    (λ k. ground arith, λ (x, k). ground arith)
settle-ok h command args timeout s (finished code stdout stderr) output =
    (λ k. (stderr, ground arith), λ (x, k). ground arith)

-- A call returns exactly when its tool ended with code 0, and then returns what the tool printed.
run_bounded-ok :
    (h : Host) (command args : Command) (timeout : ℕ) (s : State) (output : Text)
    → ((run_bounded h command args timeout s).0 ≡ ok output)
      ↔ ((stderr : Text) × (h.answer s.looks command timeout ≡ finished 0 output stderr))
unfolding run_bounded run_process
run_bounded-ok h command args timeout s output =
    settle-ok h command args timeout (record s { looks = suc s.looks; ran = command ∷ s.ran })
      (h.answer s.looks command timeout) output

reachability-ran :
    (h : Host) (s : State) → length (reachability_evidence h s).1.ran ≤ length s.ran + 2
unfolding reachability_evidence answered_recently monotonic
reachability-ran h s = let (p, u, found, cost, _) = settled_probe_lem h s in ground arith

local_delay-ran : (h : Host) (s : State) → length (local_delay h s).1.ran ≤ length s.ran + 2
unfolding local_delay
local_delay-ran h s = let (p, u, found, cost, _) = settled_probe_lem h s in ground arith

weigh_local-ran :
    (A : Type 0) (h : Host) (verb : Text) (timeout : ℕ) (local : Option Text) (s : State)
    → length (weigh_local h {A = A} verb timeout local s).1.ran ≤ length s.ran + 2
unfolding weigh_local
weigh_local-ran A h verb timeout none s = ground (arith, reachability-ran h s)
weigh_local-ran A h verb timeout (some local) s = omega arith

weigh_failure-ran :
    (A : Type 0) (h : Host) (verb : Text) (timeout : ℕ) (failure : Option DeployError) (s : State)
    → length (weigh_failure h {A = A} verb timeout failure s).1.ran ≤ length s.ran + 4
unfolding weigh_failure
weigh_failure-ran A h verb timeout none s = elim (Result-cases (local_delay h s).0) [
  | inl (local, e) ↦
      ground
        (arith, local_delay-ran h s, weigh_local-ran A h verb timeout local (local_delay h s).1)
  | inr (x, e) ↦ ground (arith, local_delay-ran h s)
]
weigh_failure-ran A h verb timeout (some failure) s = omega arith

explain_silence-ran :
    (A : Type 0) (h : Host) (command args : Command) (timeout : ℕ) (s : State)
    → length (explain_silence h {A = A} command args timeout s).1.ran ≤ length s.ran + 6
unfolding explain_silence
explain_silence-ran A h command args timeout s =
    let (p, u, found, cost, _) = settled_probe_lem h s in
    ground (arith, weigh_failure-ran A h (verb_of command args) timeout p.spawn_failure u)

settle-ran :
    (h : Host) (command args : Command) (timeout : ℕ) (s : State) (o : Outcome)
    → length (settle h command args timeout o s).1.ran ≤ length s.ran + 6
unfolding settle monotonic
settle-ran h command args timeout s (timed_out partial) =
    explain_silence-ran Text h command args timeout s
settle-ran h command args timeout s (not_started e) = ground arith
settle-ran h command args timeout s (finished code stdout stderr) = ground arith

-- However it ends, a call starts at most seven processes: its own, and two probes for each of the
-- three questions that are asked when it was killed for silence.
pub run_bounded-ran :
    (h : Host) (command args : Command) (timeout : ℕ) (s : State)
    → length (run_bounded h command args timeout s).1.ran ≤ length s.ran + 7
unfolding run_bounded run_process
run_bounded-ran h command args timeout s = omega (
  arith,
  settle-ran h command args timeout (record s { looks = suc s.looks; ran = command ∷ s.ran })
      (h.answer s.looks command timeout),
)

command_eq_refl : (c : Command) → command_eq c c ≡ true
unfolding command_eq
command_eq_refl [] = refl
command_eq_refl (a ∷ c) = ground (arith, text_eq_refl a, command_eq_refl c)

settle-readyz :
    (h : Host) (command : Command) (timeout : ℕ) (s : State) (o : Outcome)
    → (settle h command readyz timeout o s).1.ran ≡ s.ran
unfolding settle monotonic
settle-readyz h command timeout s (timed_out partial) =
    rw (command_eq_refl readyz, explain_silence) refl
settle-readyz h command timeout s (not_started e) = ground arith
settle-readyz h command timeout s (finished code stdout stderr) = ground arith

-- The probe's own arguments start that one process and no other, also when it is killed.
run_bounded-readyz :
    (h : Host) (command : Command) (timeout : ℕ) (s : State)
    → (run_bounded h command readyz timeout s).1.ran ≡ command ∷ s.ran
unfolding run_bounded run_process
run_bounded-readyz h command timeout s =
    settle-readyz h command timeout (record s { looks = suc s.looks; ran = command ∷ s.ran })
      (h.answer s.looks command timeout)
