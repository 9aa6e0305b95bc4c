-- ===== src/Deploy/Tools/Keeps.antt =====
-- Looking for the tools runs `helm version` only.
use nf_orchestrator.Prelude.{ℕ, ◌≡◌, Bool, true, Option, none, some, List, [], ◌∷◌, if◌then◌else◌}
use nf_orchestrator.Text.{Text}
use nf_orchestrator.Host.{Host, Command, is_on_path}
use nf_orchestrator.Host.Keeps.{Keeps, Keeps-bind, Keeps-pure, Keeps-is_on_path, keeps_rules}
use nf_orchestrator.Deploy.Tools.{
  tools, version_command, missing_of, missing_tools, ask_version, cached_version, version_problems,
  tool_problems, require_tools,
}

module _ (allowed : Command → Bool) (h : Host) where
  Keeps-missing_of : (ts : List Text) → Keeps allowed (missing_of h ts)
  unfolding missing_of
  Keeps-missing_of [] = search keeps_rules
  Keeps-missing_of (t ∷ ts) =
      Keeps-bind allowed (is_on_path h t) _ (Keeps-is_on_path allowed h t) (λ found.
        Keeps-bind allowed (missing_of h ts) _ (Keeps-missing_of ts)
          (λ others. Keeps-pure allowed (if found then others else t ∷ others)))

  module _ (asking : allowed version_command ≡ true) where
    Keeps-ask_version : (now : ℕ) → Keeps allowed (ask_version h now)
    unfolding ask_version
    Keeps-ask_version now = search keeps_rules

    Keeps-cached_version :
        (now : ℕ) (cached : Option (ℕ × List Text)) → Keeps allowed (cached_version h now cached)
    unfolding cached_version
    Keeps-cached_version now none = Keeps-ask_version now
    Keeps-cached_version now (some (at, problems)) = search (keeps_rules, Keeps-ask_version)

    Keeps-version_problems : Keeps allowed (version_problems h)
    unfolding version_problems
    Keeps-version_problems = search (keeps_rules, Keeps-cached_version)

    Keeps-missing_tools : Keeps allowed (missing_tools h)
    unfolding missing_tools
    Keeps-missing_tools = Keeps-missing_of tools

    pub Keeps-tool_problems : Keeps allowed (tool_problems h)
    unfolding tool_problems
    Keeps-tool_problems = search (keeps_rules, Keeps-missing_tools, Keeps-version_problems)

    pub Keeps-require_tools : Keeps allowed (require_tools h)
    unfolding require_tools
    Keeps-require_tools = search (keeps_rules, Keeps-tool_problems)
