-- ===== src/Deploy/Releases.antt =====
-- `list_releases`: helm's list, page by page.
pub mod Laws
pub mod Keeps
use nf_orchestrator.Prelude.{
  ℕ, zero, suc, ◌+◌, List, [], ◌∷◌, ◌++◌, Option, none, some, ltb, if◌then◌else◌, length,
}
use nf_orchestrator.Text.{Text, text, show, one_of}
use nf_orchestrator.Json.{Json, get, as_list, as_text}
use nf_orchestrator.Host.{Host, State, Exec, Command, pure, expect, ◌>>=◌}
use nf_orchestrator.Deploy.Run.{run_helm}

abbrev pub list_page : ℕ
list_page = 256

-- `names.update((name, None) for name in batch)`: a dict keeps the order of the first insertions.
unfoldable pub update : List Text → List Text → List Text
update names [] = names
update names (n ∷ batch) = update (if one_of n names then names else names ++ n ∷ []) batch

unfoldable pub names_of : List Json → Option (List Text)
names_of [] = some []
names_of (j ∷ js) = elim (get (text "name") j) [
  | none ↦ none
  | some v ↦ elim (as_text v) [
    | none ↦ none
    | some n ↦ elim (names_of js) [ none ↦ none | some ns ↦ some (n ∷ ns) ]
  ]
]

module _ (h : Host) where
  unfoldable pub list_command : (page offset : ℕ) → Command
  list_command page offset =
      text "list"
      ∷ text "--kube-context"
      ∷ h.config.kube_context
      ∷ text "--max"
      ∷ show page
      ∷ text "--offset"
      ∷ show offset
      ∷ text "--output"
      ∷ text "json"
      ∷ []

  -- One page, as the names on it.
  unfoldable pub list_batch : (page offset : ℕ) → Exec (List Text)
  list_batch page offset = do
    output ← run_helm h (list_command page offset)
    document ← expect (h.loads output)
    items ← expect (as_list document)
    expect (names_of items)

  -- `while True`. The result is `none` when the fuel runs out.
  unfoldable pub list_from : (fuel page offset : ℕ) → List Text → Exec (Option (List Text))
  list_from zero page offset names = pure none
  list_from (suc fuel) page offset names = do
    batch ← list_batch page offset
    let all_names = update names batch
    if ltb (length batch) page
        then pure (some all_names)
        else list_from fuel page (offset + page) all_names

  -- `list_releases`, with a bound on the number of pages.
  unfoldable pub list_releases : (fuel page : ℕ) → Exec (Option (List Text))
  list_releases fuel page = list_from fuel page 0 []
