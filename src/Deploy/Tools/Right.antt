-- ===== src/Deploy/Tools/Right.antt =====
-- A machine on which looking at the tools finds nothing wrong, however often they are looked at.
use nf_orchestrator.Prelude.{
  ℕ, suc, ◌-◌, ◌≡◌, refl, inl, inr, true, [], some, none, List, Option, arith, ltb, is_empty,
  option, Bool-cases,
}
use nf_orchestrator.Text.{Text}
use nf_orchestrator.Errors.{ok}
use nf_orchestrator.Host.{Host, State, monotonic, run_process}
use nf_orchestrator.Deploy.Klog.{helm_version}
use nf_orchestrator.Deploy.Tools.{
  helm, kubectl, version_command, version_ttl, reported, ask_version, cached_version,
  version_problems, tool_problems, require_tools,
}
use nf_orchestrator.Deploy.Tools.Laws.{missing_tools_lem}

-- helm and kubectl are on PATH, and helm says that its major version is 4.
pub record HasRightTools (h : Host) : Type 0 where
  pub helm_found : (look : ℕ) → h.which look helm ≡ true
  pub kubectl_found : (look : ℕ) → h.which look kubectl ≡ true
  pub right_version :
      (look : ℕ)
      → (found : Text) × (helm_version
            (reported (h.answer look version_command h.config.read_timeout))
          ≡ some (4, found))

-- What is kept of helm's version, where something is, is no problem.
abbrev pub HasRightVersion : State → Type 0
HasRightVersion s = option true (λ (_, problems). is_empty problems) s.versions ≡ true

module _ (h : Host) (right : HasRightTools h) where
  ask_version-right :
      (now : ℕ) (s : State)
      → ((ask_version h now s).0 ≡ ok []) × HasRightVersion (ask_version h now s).1
  unfolding ask_version run_process
  ask_version-right now s =
      let (found, e) = right.right_version s.looks in (rw (e) refl, rw (e) refl)

  cached_version-right :
      (now : ℕ) (kept : Option (ℕ × List Text)) (s : State)
      → s.versions ≡ kept
      → HasRightVersion s
      → ((cached_version h now kept s).0 ≡ ok []) × HasRightVersion (cached_version h now kept s).1
  unfolding cached_version
  cached_version-right now none s e kept = ask_version-right now s
  cached_version-right now (some (at, problems)) s e kept =
      elim (Bool-cases (ltb (now - at) version_ttl)) [
        | inl recent ↦ (ground arith, ground arith)
        | inr old ↦ rw old (ask_version-right now s)
      ]

  version_problems-right :
      (s : State)
      → HasRightVersion s
      → ((version_problems h s).0 ≡ ok []) × HasRightVersion (version_problems h s).1
  unfolding version_problems monotonic
  version_problems-right s kept =
      cached_version-right (h.clock s.looks) s.versions (record s { looks = suc s.looks }) refl kept

  pub require_tools-right :
      (s : State)
      → HasRightVersion s
      → ((require_tools h s).0 ≡ ok tt) × HasRightVersion (require_tools h s).1
  unfolding require_tools tool_problems
  require_tools-right s kept =
      let (found, after) = version_problems-right (record s { looks = suc (suc s.looks) }) kept in
      rw (missing_tools_lem h s, right.helm_found s.looks, right.kubectl_found (suc s.looks), found)
        (refl, after)
