-- ===== src/Tests/Scripts.antt =====
-- A gate with one term, and a path that carries it.
use nf_orchestrator.Prelude.{
  ◌≡◌, refl, true, not, all, map, [], ◌∷◌, List, some, any, if◌then◌else◌, is_empty,
}
use nf_orchestrator.Text.{Text, text, text_eq, strip, lower, contains, splitlines, starts_with}
use nf_orchestrator.Scan.{
  Repository, Reading, Ended, parse_terms, main, scan, tracked_files, found_line, read_text,
}
use nf_orchestrator.Scan.Gate.{line_of, main_lem, main-reports}
use nf_orchestrator.Scan.Laws.{file_matches}
use nf_orchestrator.Scan.Redact.{blank_all}

abbrev terms : List Text
terms = text "acme" ∷ text "x-lab" ∷ []

abbrev path : Text
path = text "docs/ACME-acme.md"

abbrev content : Text
content = text "none\nof ACME"

-- A repository of one file that can be read and one that cannot.
abbrev repository : Repository
repository = record {
  ls_files = some (text "docs/ACME-acme.md\nlogo.png\n");
  open_file = λ p. if text_eq p path then Reading.content content else Reading.undecodable;
}

abbrev raw : Text
raw = text "acme, x-lab"

abbrev output : Text
output = text "docs/ACME-acme.md\nlogo.png\n"

main_lem_example :
    (e : Ended) × (main repository raw ≡ some e)
    × (e.code ≡ (
        if is_empty (parse_terms raw)
        then 2
        else if any (file_matches repository (parse_terms raw)) (tracked_files output)
        then 1
        else 0))
main_lem_example = main_lem repository raw output refl

main-reports_example :
    let hits = scan repository (tracked_files output) (parse_terms raw) in
    (main repository raw
      ≡ some (record {
        code = 1;
        stdout = [];
        stderr = found_line hits ∷ map (line_of (parse_terms raw)) hits;
      }))
    × (all
          (λ hit. not (
            any
              (λ term. contains term (lower (blank_all hit.path (parse_terms raw))))
              (parse_terms raw)))
          hits
        ≡ true)
unfolding parse_terms tracked_files text text_eq lower contains starts_with splitlines read_text
    strip
main-reports_example = main-reports repository raw output refl refl refl refl refl refl refl
