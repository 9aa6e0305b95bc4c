-- ===== src/Deploy/Run/Blame.antt =====
-- Whom a call that was killed for silence blames, and on what evidence.
use nf_orchestrator.Prelude.{
  ℕ, refl, ◌≤◌, Option-cases, ◌≡◌, ◌∙◌, ◌≢◌, ◌⊎◌, inl, inr, true, false, Option, none, some, option,
  arith,
}
use nf_orchestrator.Text.{Text}
use nf_orchestrator.Errors.{
  Kind, DeployError, deploy_error, cluster_unreachable, cluster_busy, host_overloaded,
  host_exhausted, host_misconfigured, cluster_conflict, Exception, deploy, ok, err,
}
use nf_orchestrator.Host.{Host, Probe, State, Command, monotonic}
use nf_orchestrator.Host.Laws.{>>=-eq-err}
use nf_orchestrator.Deploy.Probe.{readyz, answered_recently, settled_probe, slow, local_seconds}
use nf_orchestrator.Deploy.Probe.Laws.{settled_probe_lem}
use nf_orchestrator.Host.Keeps.{is_spawn_kind, HasHonestCache}
use nf_orchestrator.Deploy.Probe.Honest.{settled_probe-honest}
use nf_orchestrator.Deploy.Run.{
  command_eq, verb_of, local_delay, reachability_evidence, weigh_evidence, weigh_local,
  weigh_failure, explain_silence, unreachable_error, overloaded_error, busy_error,
}

-- What `reachability_evidence` found when it found nothing.
reachability-none :
    (h : Host) (s t : State)
    → reachability_evidence h s ≡ (ok none, t)
    → (p : Probe) × (u : State) × (settled_probe h s ≡ (ok p, u))
      × (p.answered ≡ false)
      × (answered_recently h u ≡ (ok false, t))
unfolding reachability_evidence
reachability-none h s t e =
    let (p, u, found, _, _) = settled_probe_lem h s in (p, u, found, ground arith, ground arith)

reachability-some :
    (h : Host) (s t : State) (evidence : Text)
    → reachability_evidence h s ≡ (ok (some evidence), t)
    → (p : Probe) × (u : State) × (settled_probe h s ≡ (ok p, u))
      × (((p.answered ≡ true) × (u ≡ t)) ⊎ (answered_recently h u ≡ (ok true, t)))
unfolding reachability_evidence
reachability-some h s t evidence e =
    let (p, u, found, _, _) = settled_probe_lem h s in (p, u, found, ground arith)

-- No answer to the probe, and no call answered recently: what is left at the end, in state `t`.
abbrev pub NoEvidence : Host → State → Type 0
NoEvidence h t =
    (s : State) × (p : Probe) × (u : State) × (settled_probe h s ≡ (ok p, u))
    × (p.answered ≡ false)
    × (answered_recently h u ≡ (ok false, t))

-- An answer to the probe, or a call answered recently.
abbrev Evidence : Host → State → Type 0
Evidence h t =
    (s : State) × (p : Probe) × (u : State) × (settled_probe h s ≡ (ok p, u))
    × (((p.answered ≡ true) × (u ≡ t)) ⊎ (answered_recently h u ≡ (ok true, t)))

-- This host: the settled probe did not even start, or it was answered in good time by the server
-- and took long here.
abbrev LocalDelay : Host → State → Type 0
LocalDelay h t =
    (s : State) × (p : Probe) × (settled_probe h s ≡ (ok p, t))
    × ((p.started ≡ false)
        ⊎ ((p.answered ≡ true)
            × (slow h p ≡ false)
            × ((local : ℕ) × (local_seconds p ≡ some local) × (h.config.slow_probe ≤ local))))

local_delay-some :
    (h : Host) (s t : State) (why : Text) → local_delay h s ≡ (ok (some why), t) → LocalDelay h t
unfolding local_delay
local_delay-some h s t why e =
    let (p, u, found, _, _) = settled_probe_lem h s in
    elim (Option-cases (local_seconds p)) [
      | inl unsaid ↦ (s, p, ground arith, ground arith)
      | inr (local, said) ↦ (s, p, ground arith, ground arith)
    ]

-- Whom an error raised by a silent call blames, and on what grounds.
pub record Grounds (h : Host) (e : DeployError) (t : State) : Type 0 where
  pub unreachable : e.kind ≡ cluster_unreachable → NoEvidence h t
  pub busy : e.kind ≡ cluster_busy → Evidence h t
  pub overloaded : e.kind ≡ host_overloaded → LocalDelay h t

-- What justifies blaming a kind, where blame is laid.
abbrev pub Justified : Host → State → Kind → Type 0
Justified h t cluster_unreachable = NoEvidence h t
Justified h t cluster_busy = Evidence h t
Justified h t host_overloaded = LocalDelay h t
Justified h t _ = Unit

justify :
    (h : Host) (t : State) (k : Kind)
    → (k ≡ cluster_unreachable → NoEvidence h t)
    → (k ≡ cluster_busy → Evidence h t)
    → (k ≡ host_overloaded → LocalDelay h t)
    → Justified h t k
justify h t cluster_unreachable u b o = u refl
justify h t cluster_busy u b o = b refl
justify h t host_overloaded u b o = o refl
justify h t deploy_error u b o = tt
justify h t host_exhausted u b o = tt
justify h t host_misconfigured u b o = tt
justify h t cluster_conflict u b o = tt

pub Grounds-Justified :
    (h : Host) (e : DeployError) (t : State) → Grounds h e t → Justified h t e.kind
Grounds-Justified h e t g = justify h t e.kind g.unreachable g.busy g.overloaded

reachability-ne-err :
    (h : Host) (s t : State) (x : Exception) → reachability_evidence h s ≢ (err x, t)
unfolding reachability_evidence answered_recently monotonic
reachability-ne-err h s t x e = let (p, u, found, _, _) = settled_probe_lem h s in ground arith

weigh_evidence-Grounds :
    {A : Type 0} (h : Host) (verb : Text) (timeout : ℕ) (evidence : Option Text) (s t u : State)
    (e : DeployError)
    → reachability_evidence h s ≡ (ok evidence, u)
    → weigh_evidence h {A = A} verb timeout evidence u ≡ (err (deploy e), t)
    → Grounds h e t
unfolding weigh_evidence unreachable_error busy_error
weigh_evidence-Grounds h verb timeout none s t u e found w = record {
  unreachable = λ k.
      let (p, v, settled, unanswered, none_recent) =
        reachability-none h s t (found ∙ ground arith) in
      (s, p, v, settled, unanswered, none_recent);
  busy = λ k. ground arith;
  overloaded = λ k. ground arith;
}
weigh_evidence-Grounds h verb timeout (some evidence) s t u e found w = record {
  unreachable = λ k. ground arith;
  busy = λ k.
      let (p, v, settled, answer) = reachability-some h s t evidence (found ∙ ground arith) in
      (s, p, v, settled, answer);
  overloaded = λ k. ground arith;
}

weigh_local-Grounds :
    {A : Type 0} (h : Host) (verb : Text) (timeout : ℕ) (local : Option Text) (r s t : State)
    (e : DeployError)
    → local_delay h r ≡ (ok local, s)
    → weigh_local h {A = A} verb timeout local s ≡ (err (deploy e), t)
    → Grounds h e t
unfolding weigh_local overloaded_error
weigh_local-Grounds h verb timeout (some local) r s t e asked w = record {
  unreachable = λ k. ground arith;
  busy = λ k. ground arith;
  overloaded = λ k. local_delay-some h r t local (asked ∙ ground arith);
}
weigh_local-Grounds {A} h verb timeout none r s t e asked w =
    elim (>>=-eq-err (reachability_evidence h) (weigh_evidence h {A = A} verb timeout) s w) [
      | inl raised ↦ absurd (reachability-ne-err h s t (deploy e) raised)
      | inr (evidence, u, found, rest) ↦
          weigh_evidence-Grounds h verb timeout evidence s t u e found rest
    ]

local_delay-ne-deploy :
    (h : Host) (s t : State) (e : DeployError) → local_delay h s ≢ (err (deploy e), t)
unfolding local_delay
local_delay-ne-deploy h s t e l = let (p, u, found, _, _) = settled_probe_lem h s in ground arith

weigh_failure-Grounds :
    {A : Type 0} (h : Host) (verb : Text) (timeout : ℕ) (failure : Option DeployError) (s t : State)
    (e : DeployError)
    → option true (λ x. is_spawn_kind x.kind) failure ≡ true
    → weigh_failure h {A = A} verb timeout failure s ≡ (err (deploy e), t)
    → Grounds h e t
unfolding weigh_failure
weigh_failure-Grounds h verb timeout (some failure) s t e honest w = record {
  unreachable = λ k. ground arith;
  busy = λ k. ground arith;
  overloaded = λ k. ground arith;
}
weigh_failure-Grounds {A} h verb timeout none s t e honest w =
    elim (>>=-eq-err (local_delay h) (weigh_local h {A = A} verb timeout) s w) [
      | inl raised ↦ absurd (local_delay-ne-deploy h s t e raised)
      | inr (local, u, found, rest) ↦ weigh_local-Grounds h verb timeout local s u t e found rest
    ]

pub explain_silence-Grounds :
    {A : Type 0} (h : Host) (command args : Command) (timeout : ℕ) (s t : State) (e : DeployError)
    → HasHonestCache s
    → command_eq args readyz ≡ false
    → explain_silence h {A = A} command args timeout s ≡ (err (deploy e), t)
    → Grounds h e t
unfolding explain_silence
explain_silence-Grounds {A} h command args timeout s t e honest other w =
    let (p, u, found, _, _) = settled_probe_lem h s in
    weigh_failure-Grounds {A = A} h (verb_of command args) timeout p.spawn_failure u t e
      (ground (arith, settled_probe-honest h s honest)) (ground arith)
