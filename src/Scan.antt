-- ===== src/Scan.antt =====
-- scripts/scan_banned_terms.py: the gate that looks for private terms in the tracked files, and the
-- redaction of the paths that it prints. `git ls-files` and the files are given.
pub mod Laws
pub mod Blank
pub mod Redact
pub mod Gate
use nf_orchestrator.Prelude.{
  ℕ, zero, suc, ◌+◌, Bool, not, ◌&&◌, List, [], ◌∷◌, ◌++◌, Option, none, some, map, keep, ◌==◌,
  if◌then◌else◌, length, take, drop, is_empty,
}
use mathlib.Core.Option
use nf_orchestrator.Text.{Text, text, lower, strip, splitlines, starts_with, contains, show}

abbrev not_configured : ℕ
not_configured = 2

-- `raw.replace(",", "\n")`
abbrev pub replace_commas : Text → Text
replace_commas = map (λ c. if c == b',' then 10 else c)

-- `chunk.strip().lower()`
abbrev pub term_of : Text → Text
term_of chunk = lower (strip chunk)

-- `term and not term.startswith("#")`
abbrev pub is_term : Text → Bool
is_term term = not (is_empty term) && not (starts_with (text "#") term)

unfoldable pub parse_terms : Text → List Text
parse_terms raw = keep is_term (map term_of (splitlines (replace_commas raw)))

pub record Hit : Type 0 where
  pub path : Text
  pub line : ℕ
  pub term : ℕ

-- The inner loop, over the terms from an index on.
unfoldable pub hits_in :
    (path : Text) → (line : ℕ) → (lowered : Text) → (index : ℕ) → List Text → List Hit
hits_in path line lowered index [] = []
hits_in path line lowered index (term ∷ terms) =
    let rest = hits_in path line lowered (suc index) terms in
    if contains term lowered then record { path = path; line = line; term = index } ∷ rest else rest

-- The outer loop, over the lines from a number on.
unfoldable pub hits_from : (path : Text) → (line : ℕ) → (lines terms : List Text) → List Hit
unfolding hits_in
hits_from path line [] terms = []
hits_from path line (l ∷ ls) terms =
    hits_in path line (lower l) 0 terms ++ hits_from path (suc line) ls terms

unfoldable pub scan_text : (path t : Text) → (terms : List Text) → List Hit
unfolding hits_from
scan_text path t terms = hits_from path 1 (splitlines t) terms

-- `s.find(term)`
unfoldable pub find : (term s : Text) → Option ℕ
find term [] = if starts_with term [] then some 0 else none
find term (c ∷ s) =
    let later = Option.map suc (find term s) in if starts_with term (c ∷ s) then some 0 else later

abbrev pub stars : Text
stars = text "***"

-- The `while` loop for one term, on fuel; `none` when it runs out.
unfoldable pub redact_term : (fuel : ℕ) → (term t : Text) → (start : ℕ) → Option Text
unfolding find
redact_term zero term t start = none
redact_term (suc fuel) term t start = elim (find term (drop start (lower t))) [
  | none ↦ some t
  | some k ↦
      redact_term fuel term (take (start + k) t ++ (stars ++ drop (start + k + length term) t))
        (start + k + 3)
]

-- The `for` loop over the terms; a turn has one round of fuel more than the text has characters.
unfoldable pub redact : (t : Text) → (terms : List Text) → Option Text
redact t [] = some t
redact t (term ∷ terms) = elim (redact_term (suc (length t)) term t 0) [
  | none ↦ none
  | some redacted ↦ redact redacted terms
]

-- What `handle.read()` comes to.
pub data Reading : Type 0 where
  content : Text → Reading
  undecodable os_error : Reading

-- What the gate asks of the machine: the output of `git ls-files`, which with `check=True` raises
-- where git fails, and the files.
pub record Repository : Type 0 where
  pub ls_files : Option Text
  pub open_file : (path : Text) → Reading

-- `[line for line in output.splitlines() if line]`
unfoldable pub tracked_files : (output : Text) → List Text
tracked_files output = keep (λ line. not (is_empty line)) (splitlines output)

abbrev text_of : Reading → Option Text
text_of (content t) = some t
text_of undecodable = none
text_of os_error = none

abbrev hits_where : (path : Text) → (terms : List Text) → Option Text → List Hit
hits_where path terms none = []
hits_where path terms (some t) = scan_text path t terms

module _ (r : Repository) where
  unfoldable pub read_text : (path : Text) → Option Text
  read_text path = text_of (r.open_file path)

  abbrev pub hits_of : (path : Text) → (terms : List Text) → List Hit
  hits_of path terms = hits_where path terms (read_text path)

  unfoldable pub scan : (paths terms : List Text) → List Hit
  scan [] terms = []
  scan (path ∷ paths) terms = hits_of path terms ++ scan paths terms

-- A line of the report, with the path as it was redacted.
abbrev pub report_line : Hit → (redacted : Text) → Text
report_line hit redacted =
    text "  "
    ++ (redacted
        ++ (text ":"
            ++ (show hit.line
                ++ (text ": matches term #" ++ (show (hit.term + 1) ++ text " (redacted)")))))

abbrev put_line : Hit → Option Text → Option (List Text) → Option (List Text)
put_line hit (some redacted) (some lines) = some (report_line hit redacted ∷ lines)
put_line hit _ _ = none

-- The loop that prints; `none` where the redaction runs out of fuel.
unfoldable pub report_lines : (terms : List Text) → List Hit → Option (List Text)
report_lines terms [] = some []
report_lines terms (hit ∷ hits) = put_line hit (redact hit.path terms) (report_lines terms hits)

-- The exit code, and what was printed.
pub record Ended : Type 0 where
  pub code : ℕ
  pub stdout : List Text
  pub stderr : List Text

abbrev usage : Text
usage =
    text
      "BANNED_TERMS is empty or unset. This gate fails closed: an unconfigured scan is not a passing scan.\nSet it locally to run this by hand, or as a repository secret for CI:\n  gh secret set BANNED_TERMS < your-term-list.txt"

abbrev unconfigured : Ended
unconfigured = record { code = not_configured; stdout = []; stderr = usage ∷ [] }

abbrev clean_line : List Text → Text
clean_line terms = text "banned-terms: clean against " ++ (show (length terms) ++ text " terms")

abbrev clean : List Text → Ended
clean terms = record { code = 0; stdout = clean_line terms ∷ []; stderr = [] }

abbrev pub found_line : List Hit → Text
found_line hits = text "banned-terms: " ++ (show (length hits) ++ text " match(es) found")

abbrev end_with : List Hit → Option (List Text) → Option Ended
end_with hits none = none
end_with hits (some lines) =
    some (record { code = 1; stdout = []; stderr = found_line hits ∷ lines })

abbrev conclude : List Text → List Hit → Option Ended
conclude terms hits =
    if is_empty hits then some (clean terms) else end_with hits (report_lines terms hits)

abbrev scan_tracked : Repository → List Text → Option Text → Option Ended
scan_tracked r terms none = none
scan_tracked r terms (some output) = conclude terms (scan r (tracked_files output) terms)

-- `none` where git's failure ends it.
unfoldable pub main : Repository → (raw : Text) → Option Ended
unfolding scan tracked_files
main r raw =
    let terms = parse_terms raw in
    if is_empty terms then some unconfigured else scan_tracked r terms r.ls_files
