-- ===== src/Deploy/Tools/Laws.antt =====
-- What it takes for the tools to pass, and what asking about them costs.
use nf_orchestrator.Prelude.{
  ℕ, suc, ◌-◌, ◌≡◌, refl, ◌⊎◌, inl, inr, Bool, true, false, not, List, [], ◌∷◌, ◌++◌, some, arith,
  ltb, is_empty, any, Bool-cases, Option-cases, if◌then◌else◌, option,
}
use nf_orchestrator.Text.{Text, text, text_eq, join}
use nf_orchestrator.Errors.{host_misconfigured, deploy, ok, err}
use nf_orchestrator.Host.{Host, State, monotonic, run_process, is_on_path}
use nf_orchestrator.Host.Laws.{Result-cases}
use nf_orchestrator.Deploy.Tools.{
  helm, kubectl, version_command, version_ttl, missing_tools, ask_version, version_problems,
  tool_problems, require_tools,
}

-- Whether the answer about helm's version is less than a minute old.
abbrev is_recent : Host → State → Bool
is_recent h s = option false (λ (at, _). ltb (h.clock s.looks - at) version_ttl) s.versions

ask_version_lem :
    (h : Host) (now : ℕ) (s : State)
    → (problems : List Text) × (t : State) × (ask_version h now s ≡ (ok problems, t))
      × (t.versions ≡ some (now, problems))
      × (t.ran ≡ version_command ∷ s.ran)
unfolding ask_version run_process
ask_version_lem h now s = (_, _, refl, refl, refl)

-- Asking about helm's version never raises. A finding less than a minute old is repeated with no
-- process; otherwise helm is asked, once, and the finding is kept.
version_problems_lem :
    (h : Host) (s : State)
    → (problems : List Text) × (at : ℕ) × (t : State) × (version_problems h s ≡ (ok problems, t))
      × (t.versions ≡ some (at, problems))
      × (t.ran ≡ (if is_recent h s then s.ran else version_command ∷ s.ran))
unfolding version_problems monotonic
version_problems_lem h s =
    let now = h.clock s.looks in
    let (ps, t, e, kept, ran) = ask_version_lem h now (record s { looks = suc s.looks }) in
    elim (Option-cases s.versions) [
      | inl never ↦ (ps, now, t, ground arith, kept, ground arith)
      | inr ((at, qs), before) ↦ elim (Bool-cases (ltb (now - at) version_ttl)) [
        | inl recent ↦
            (qs, at, record s { looks = suc s.looks }, ground arith, before, ground arith)
        | inr old ↦ (ps, now, t, ground arith, kept, ground arith)
      ]
    ]

pub missing_tools_lem :
    (h : Host) (s : State)
    → missing_tools h s ≡ (
      ok (
          (if h.which s.looks helm then [] else helm ∷ [])
          ++ (if h.which (suc s.looks) kubectl then [] else kubectl ∷ [])),
      record s { looks = suc (suc s.looks) },
    )
unfolding missing_tools is_on_path
missing_tools_lem h s = ground arith

pub helm_among_missing :
    (helm_found kubectl_found : Bool)
    → any
        (text_eq helm)
        ((if helm_found then [] else helm ∷ []) ++ (if kubectl_found then [] else kubectl ∷ []))
      ≡ not helm_found
unfolding text_eq text
helm_among_missing true true = refl
helm_among_missing true false = refl
helm_among_missing false true = refl
helm_among_missing false false = refl

-- The tools are found in order only when both are on PATH and helm's version was looked at and
-- raised nothing.
tool_problems-nil :
    (h : Host) (s t : State)
    → tool_problems h s ≡ (ok [], t)
    → (h.which s.looks helm ≡ true)
      × (h.which (suc s.looks) kubectl ≡ true)
      × (version_problems h (record s { looks = suc (suc s.looks) }) ≡ (ok [], t))
unfolding tool_problems
tool_problems-nil h s t e =
    let (ps, at, u, asked, kept, ran) =
      version_problems_lem h (record s { looks = suc (suc s.looks) }) in
    ground (
      arith,
      missing_tools_lem h s,
      helm_among_missing (h.which s.looks helm) (h.which (suc s.looks) kubectl),
    )

-- Looking at the tools never raises, and starts at most the one process that prints helm's
-- version; with helm missing it starts none.
pub tool_problems_total :
    (h : Host) (s : State)
    → (problems : List Text) × (t : State) × (tool_problems h s ≡ (ok problems, t))
      × ((t.ran ≡ s.ran) ⊎ (t.ran ≡ version_command ∷ s.ran))
      × (h.which s.looks helm ≡ false → t.ran ≡ s.ran)
unfolding tool_problems
tool_problems_total h s =
    let (ps, at, u, asked, kept, ran) =
      version_problems_lem h (record s { looks = suc (suc s.looks) }) in
    let missing = missing_tools_lem h s in
    let among = helm_among_missing (h.which s.looks helm) (h.which (suc s.looks) kubectl) in
    elim (Result-cases (tool_problems h s).0) [
      | inl (problems, e) ↦
          (problems, (tool_problems h s).1, ground arith, ground arith, λ gone. ground arith)
      | inr (x, e) ↦ absurd (ground arith)
    ]

-- What `require_tools` says of the problems that were found.
pub require_tools_lem :
    (h : Host) (s t : State) (problems : List Text)
    → tool_problems h s ≡ (ok problems, t)
    → require_tools h s ≡ (
        if is_empty problems then (ok tt, t) else (
          err (deploy (record { kind = host_misconfigured; message = join (text "; ") problems })),
          t,
        ))
unfolding require_tools
require_tools_lem h s t problems e = ground arith
