-- ===== src/Scan/Laws.antt =====
-- What the scan finds: every term on every line, and nothing else.
use nf_orchestrator.Prelude.{
  ℕ, zero, suc, ◌+◌, ◌<◌, ◌≡◌, refl, Bool, false, not, ◌&&◌, List, [], ◌∷◌, Option, none, some,
  arith, any, get_elem?, is_empty, ◌==◌, any-append, is_empty-append, Option-cases, inl, inr,
}
use nf_orchestrator.Text.{Text, lower, splitlines, contains}
use nf_orchestrator.Scan.{Hit, hits_in, hits_from, scan_text, Repository, read_text, hits_of, scan}

-- A hit on a line, for a term.
abbrev is_at : (line term : ℕ) → Hit → Bool
is_at line term hit = hit.line == line && hit.term == term

-- Whether a text holds the term of an index.
abbrev pub holds : (lowered : Text) → Option Text → Bool
holds lowered none = false
holds lowered (some term) = contains term lowered

abbrev holds_on : Option Text → Option Text → Bool
holds_on none term = false
holds_on (some line) term = holds (lower line) term

hits_in-below :
    (path lowered : Text) (line n j index : ℕ) (terms : List Text)
    → j < index
    → any (is_at n j) (hits_in path line lowered index terms) ≡ false
unfolding hits_in
hits_in-below path lowered line n j index [] below = refl
hits_in-below path lowered line n j index (term ∷ terms) below =
    ground (arith, hits_in-below path lowered line n j (suc index) terms)

hits_in-other :
    (path lowered : Text) (line n j index : ℕ) (terms : List Text)
    → (line == n) ≡ false
    → any (is_at n j) (hits_in path line lowered index terms) ≡ false
unfolding hits_in
hits_in-other path lowered line n j index [] other = refl
hits_in-other path lowered line n j index (term ∷ terms) other =
    ground (arith, hits_in-other path lowered line n j (suc index) terms)

hits_in_lem :
    (path lowered : Text) (line index i : ℕ) (terms : List Text)
    → any (is_at line (index + i)) (hits_in path line lowered index terms)
      ≡ holds lowered (get_elem? terms i)
unfolding hits_in
hits_in_lem path lowered line index i [] = refl
hits_in_lem path lowered line index zero (term ∷ terms) =
    ground (arith, hits_in-below path lowered line line (index + 0) (suc index) terms)
hits_in_lem path lowered line index (suc i) (term ∷ terms) =
    ground (arith, hits_in_lem path lowered line (suc index) i terms)

-- The hits of the lines from a number on, for the line that is `k` lines further on.
hits_from-below :
    (path : Text) (n j line : ℕ) (lines terms : List Text)
    → n < line
    → any (is_at n j) (hits_from path line lines terms) ≡ false
unfolding hits_from
hits_from-below path n j line [] terms below = refl
hits_from-below path n j line (l ∷ ls) terms below = ground (
  arith,
  any-append (is_at n j) (hits_in path line (lower l) 0 terms) (hits_from path (suc line) ls terms),
  hits_in-other path (lower l) line n j 0 terms,
  hits_from-below path n j (suc line) ls terms,
)

hits_from_lem :
    (path : Text) (line k i : ℕ) (lines terms : List Text)
    → any (is_at (line + k) i) (hits_from path line lines terms)
      ≡ holds_on (get_elem? lines k) (get_elem? terms i)
unfolding hits_from
hits_from_lem path line k i [] terms = refl
hits_from_lem path line zero i (l ∷ ls) terms = ground (
  arith,
  any-append (is_at (line + 0) i) (hits_in path line (lower l) 0 terms)
      (hits_from path (suc line) ls terms),
  hits_in_lem path (lower l) line 0 i terms,
  hits_from-below path (line + 0) i (suc line) ls terms,
)
hits_from_lem path line (suc k) i (l ∷ ls) terms = ground (
  arith,
  any-append (is_at (line + suc k) i) (hits_in path line (lower l) 0 terms)
      (hits_from path (suc line) ls terms),
  hits_in-other path (lower l) line (line + suc k) i 0 terms,
  hits_from_lem path (suc line) k i ls terms,
)

-- A scan of a text reports a line, counted from 1, and a term exactly when that line, in lower
-- case, holds that term; lines and terms that there are not are not reported.
scan_text_lem :
    (path t : Text) (terms : List Text) (k i : ℕ)
    → any (is_at (suc k) i) (scan_text path t terms)
      ≡ holds_on (get_elem? (splitlines t) k) (get_elem? terms i)
unfolding scan_text
scan_text_lem path t terms k i =
    let e : 1 + k ≡ suc k = omega arith in
    ground (arith, hits_from_lem path 1 k i (splitlines t) terms)

-- Whether a line holds one of the terms, and whether a line of a file that can be read does.
abbrev line_matches : List Text → Text → Bool
line_matches terms line = any (λ term. contains term (lower line)) terms

abbrev text_matches : List Text → Option Text → Bool
text_matches terms none = false
text_matches terms (some t) = any (line_matches terms) (splitlines t)

abbrev pub file_matches : Repository → List Text → (path : Text) → Bool
file_matches r terms path = text_matches terms (read_text r path)

hits_in-is_empty :
    (path lowered : Text) (line index : ℕ) (terms : List Text)
    → is_empty (hits_in path line lowered index terms)
      ≡ not (any (λ term. contains term lowered) terms)
unfolding hits_in
hits_in-is_empty path lowered line index [] = refl
hits_in-is_empty path lowered line index (term ∷ terms) =
    ground (arith, hits_in-is_empty path lowered line (suc index) terms)

hits_from-is_empty :
    (path : Text) (line : ℕ) (lines terms : List Text)
    → is_empty (hits_from path line lines terms) ≡ not (any (line_matches terms) lines)
unfolding hits_from
hits_from-is_empty path line [] terms = refl
hits_from-is_empty path line (l ∷ ls) terms = ground (
  arith,
  is_empty-append (hits_in path line (lower l) 0 terms) (hits_from path (suc line) ls terms),
  hits_in-is_empty path (lower l) line 0 terms,
  hits_from-is_empty path (suc line) ls terms,
)

module _ (r : Repository) where
  hits_of-is_empty :
      (path : Text) (terms : List Text)
      → is_empty (hits_of r path terms) ≡ not (file_matches r terms path)
  unfolding scan_text
  hits_of-is_empty path terms = elim (Option-cases (read_text r path)) [
    | inl gone ↦ rw (gone) refl
    | inr (t, read) ↦ rw (read) (hits_from-is_empty path 1 (splitlines t) terms)
  ]

  pub scan-is_empty :
      (paths terms : List Text)
      → is_empty (scan r paths terms) ≡ not (any (file_matches r terms) paths)
  unfolding scan
  scan-is_empty [] terms = refl
  scan-is_empty (path ∷ paths) terms = ground (
    arith,
    is_empty-append (hits_of r path terms) (scan r paths terms),
    hits_of-is_empty path terms,
    scan-is_empty paths terms,
  )
