-- ===== src/Scan/Gate.antt =====
-- How the gate ends, and what it prints.
use nf_orchestrator.Prelude.{
  ◌+◌, ◌++◌, ltb, Bool, ◌≡◌, refl, ap, ◌∙◌, true, false, not, List, [], ◌∷◌, some, arith, any, all,
  map, keep, is_empty, if◌then◌else◌, Bool-cases, inl, inr,
}
use nf_orchestrator.Text.{text, show, Text, lower, contains, splitlines}
use nf_orchestrator.Scan.{
  Reading, content, undecodable, os_error, is_term, replace_commas, term_of, parse_terms, Hit,
  Repository, tracked_files, scan, report_lines, Ended, unconfigured, clean, conclude, scan_tracked,
  found_line, main,
}
use nf_orchestrator.Scan.Laws.{file_matches, scan-is_empty}
use nf_orchestrator.Scan.Redact.{is_plain, blank_all, redact_lem, blank_all-clean}

keep-full : (ts : List Text) → all (λ term. not (is_empty term)) (keep is_term ts) ≡ true
keep-full [] = refl
keep-full (t ∷ ts) = ground (arith, keep-full ts)

parse_terms-full : (raw : Text) → all (λ term. not (is_empty term)) (parse_terms raw) ≡ true
unfolding parse_terms
parse_terms-full raw = keep-full (map term_of (splitlines (replace_commas raw)))

-- The line of a hit, as it is meant to read: the path blanked out, the number of the line, and that
-- of the term.
abbrev pub line_of : List Text → Hit → Text
line_of terms hit =
    text "  "
    ++ (blank_all hit.path terms
        ++ (text ":"
            ++ (show hit.line
                ++ (text ": matches term #" ++ (show (hit.term + 1) ++ text " (redacted)")))))

-- A text of ASCII characters, of which alone `lower` is Python's.
abbrev pub is_ascii : Text → Bool
is_ascii t = all (λ c. ltb c 128) t

-- The same of what a file can be read as.
abbrev pub reads_ascii : Reading → Bool
reads_ascii (content t) = is_ascii t
reads_ascii undecodable = true
reads_ascii os_error = true

report_lines_lem :
    (terms : List Text) (hits : List Hit)
    → all (λ term. not (is_empty term)) terms ≡ true
    → report_lines terms hits ≡ some (map (line_of terms) hits)
unfolding report_lines
report_lines_lem terms [] full = refl
report_lines_lem terms (hit ∷ hits) full =
    rw (redact_lem hit.path terms full, report_lines_lem terms hits full) refl

paths-clean :
    (terms : List Text) (hits : List Hit)
    → all is_plain terms ≡ true
    → all (λ hit. not (any (λ term. contains term (lower (blank_all hit.path terms))) terms)) hits
      ≡ true
paths-clean terms [] plain = refl
paths-clean terms (hit ∷ hits) plain =
    rw (blank_all-clean hit.path terms plain) (paths-clean terms hits plain)

conclude-found :
    (terms : List Text) (hits : List Hit)
    → all (λ term. not (is_empty term)) terms ≡ true
    → is_empty hits ≡ false
    → conclude terms hits
      ≡ some (record { code = 1; stdout = []; stderr = found_line hits ∷ map (line_of terms) hits })
conclude-found terms hits full some_hits = rw (some_hits, report_lines_lem terms hits full) refl

conclude-clean :
    (terms : List Text) (hits : List Hit)
    → is_empty hits ≡ true
    → conclude terms hits ≡ some (clean terms)
conclude-clean terms hits no_hits = rw (no_hits) refl

module _ (r : Repository) (raw output : Text) (listed : r.ls_files ≡ some output) where
  main-set :
      is_empty (parse_terms raw) ≡ false
      → main r raw ≡ conclude (parse_terms raw) (scan r (tracked_files output) (parse_terms raw))
  unfolding main
  main-set set = rw (set) (ap (scan_tracked r (parse_terms raw)) listed)

  -- Where git lists the files, the gate ends, with its exit code: 2 when its list holds no term,
  -- whatever the files; with a term, 1 when a line of a tracked file that can be read holds a term,
  -- in lower case, and 0 when none does.
  pub main_lem :
      (e : Ended) × (main r raw ≡ some e)
      × (e.code ≡ (
          if is_empty (parse_terms raw)
          then 2
          else if any (file_matches r (parse_terms raw)) (tracked_files output)
          then 1
          else 0))
  unfolding main
  main_lem =
      let terms = parse_terms raw in
      let hits = scan r (tracked_files output) terms in
      let matched = scan-is_empty r (tracked_files output) terms in
      elim (Bool-cases (is_empty terms)) [
        | inl unset ↦ (unconfigured, rw (unset) refl, rw (unset) refl)
        | inr set ↦ elim (Bool-cases (any (file_matches r terms) (tracked_files output))) [
          | inl found ↦ (
            _,
            main-set set
                ∙ conclude-found terms hits (parse_terms-full raw) (ground (arith, matched, found)),
            rw (set, found) refl,
          )
          | inr silent ↦ (
            clean terms,
            main-set set ∙ conclude-clean terms hits (ground (arith, matched, silent)),
            rw (set, silent) refl,
          )
        ]
      ]

  -- Where git lists the files, the list of terms, the paths and what can be read of the tracked
  -- files are in ASCII, and the terms have no star, a gate that finds a match prints nothing but
  -- their number and a line for each of them, in their order: the file's path with each term
  -- blanked out, the number of the line and that of the term. In lower case, no term occurs in such
  -- a path.
  pub main-reports :
      is_ascii raw ≡ true
      → is_ascii output ≡ true
      → all (λ path. reads_ascii (r.open_file path)) (tracked_files output) ≡ true
      → all is_plain (parse_terms raw) ≡ true
      → is_empty (parse_terms raw) ≡ false
      → any (file_matches r (parse_terms raw)) (tracked_files output) ≡ true
      → let hits = scan r (tracked_files output) (parse_terms raw) in
        (main r raw
          ≡ some (record {
            code = 1;
            stdout = [];
            stderr = found_line hits ∷ map (line_of (parse_terms raw)) hits;
          }))
        × (all
              (λ hit. not (
                any
                  (λ term. contains term (lower (blank_all hit.path (parse_terms raw))))
                  (parse_terms raw)))
              hits
            ≡ true)
  unfolding main
  main-reports ascii_terms ascii_paths ascii_files plain set found =
      let terms = parse_terms raw in
      let hits = scan r (tracked_files output) terms in
      let matched = scan-is_empty r (tracked_files output) terms in
      (
        main-set set
            ∙ conclude-found terms hits (parse_terms-full raw) (ground (arith, matched, found)),
        paths-clean terms hits plain,
      )
