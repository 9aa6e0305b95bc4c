-- ===== src/Scan/Redact.antt =====
-- What the redaction of a path leaves of the terms.
use nf_orchestrator.Prelude.{
  ℕ, zero, suc, ◌+◌, ◌<◌, ◌≡◌, refl, ap, ◌∙◌, Bool, true, false, not, ◌&&◌, List, [], ◌∷◌, ◌++◌,
  some, arith, any, all, length, take, drop, is_empty, Bool-cases, Option-cases, inl, inr,
  take-append_length, drop-append_length, append_assoc, length-append, length-take, length-drop,
}
use nf_orchestrator.Text.{Text, text, lower, contains}
use nf_orchestrator.Scan.{find, stars, redact_term, redact}
use nf_orchestrator.Scan.Blank.{
  blank, has_no_star, contains-blank, find-none, find-bound, find-some, drop-lower, blank-clean,
}

-- The loop for one term finishes when it has a round for each character left, and one more, and
-- gives the text with the term blanked out.
redact_term_lem :
    (fuel a : ℕ) (u read left : Text)
    → length left < fuel
    → redact_term fuel (a ∷ u) (read ++ left) (length read) ≡ some (read ++ blank 0 (a ∷ u) left)
unfolding redact_term text
redact_term_lem zero a u read left enough = ground arith
redact_term_lem (suc fuel) a u read left enough = elim (Option-cases (find (a ∷ u) (lower left))) [
  | inl absent ↦ rw (redact_term, drop-lower read left, absent, find-none a u left absent) refl
  | inr (k, found) ↦
      let bound = find-bound a u left k found in
      let rest : Text = drop (k + length (a ∷ u)) left in
      let read_next : Text = (read ++ take k left) ++ stars in
      let shorter : length rest < fuel = omega (arith, length-drop (k + length (a ∷ u)) left) in
      let here : length read + k + 3 ≡ length read_next = omega (
        arith,
        length-append (read ++ take k left) stars,
        length-append read (take k left),
        length-take k left,
      ) in
      let e : length read + k + length (a ∷ u) ≡ length read + (k + length (a ∷ u)) = omega arith in
      let next : take (length read + k) (read ++ left) ++ (stars ++ rest) ≡ read_next ++ rest =
        rw (take-append_length k read left, append_assoc (read ++ take k left) stars rest) refl in
      rw
        (
          redact_term,
          drop-lower read left,
          found,
          e,
          drop-append_length (k + length (a ∷ u)) read left,
          next,
          here,
          redact_term_lem fuel a u read_next rest shorter,
          find-some a u left k found,
        )
        (ap some (
          append_assoc (read ++ take k left) stars (blank 0 (a ∷ u) rest)
          ∙ append_assoc read (take k left) (stars ++ blank 0 (a ∷ u) rest)))
]

-- The text with each term blanked out in turn.
abbrev pub blank_all : Text → List Text → Text
blank_all t [] = t
blank_all t (term ∷ terms) = blank_all (blank 0 term t) terms

-- A term that is not empty and has no star.
abbrev pub is_plain : Text → Bool
is_plain term = not (is_empty term) && has_no_star term

blank_all-new :
    (a : ℕ) (u t : Text) (terms : List Text)
    → has_no_star (a ∷ u) ≡ true
    → contains (a ∷ u) (lower t) ≡ false
    → contains (a ∷ u) (lower (blank_all t terms)) ≡ false
blank_all-new a u t [] clean h = h
blank_all-new a u t (term ∷ terms) clean h =
    elim (Bool-cases (contains (a ∷ u) (lower (blank 0 term t)))) [
      | inl there ↦ ground (arith, contains-blank 0 a u term t clean)
      | inr gone ↦ blank_all-new a u (blank 0 term t) terms clean gone
    ]

-- For terms that are not empty, the loops over a text finish, and the result is the text with each
-- term blanked out in turn.
pub redact_lem :
    (t : Text) (terms : List Text)
    → all (λ term. not (is_empty term)) terms ≡ true
    → redact t terms ≡ some (blank_all t terms)
unfolding redact
redact_lem t [] full = refl
redact_lem t ([] ∷ terms) full = ground arith
redact_lem t ((a ∷ u) ∷ terms) full =
    let enough : length t < suc (length t) = omega arith in
    let runs = redact_lem (blank 0 (a ∷ u) t) terms (ground (arith, full)) in
    rw (redact, redact_term_lem (suc (length t)) a u [] t enough) runs

pub blank_all-clean :
    (t : Text) (terms : List Text)
    → all is_plain terms ≡ true
    → any (λ term. contains term (lower (blank_all t terms))) terms ≡ false
blank_all-clean t [] plain = refl
blank_all-clean t ([] ∷ terms) plain = ground arith
blank_all-clean t ((a ∷ u) ∷ terms) plain =
    let starless : has_no_star (a ∷ u) ≡ true = ground (arith, plain) in
    let gone =
      blank_all-new a u (blank 0 (a ∷ u) t) terms starless (blank-clean 0 a u t starless) in
    rw gone (blank_all-clean (blank 0 (a ∷ u) t) terms (ground (arith, plain)))

plain_full :
    (terms : List Text) → all is_plain terms ≡ true → all (λ term. not (is_empty term)) terms ≡ true
plain_full [] plain = refl
plain_full (term ∷ terms) plain = ground (arith, plain_full terms)

-- For terms that are not empty and have no star, the loops over a text finish, the result is the
-- text with each term blanked out in turn, and no term occurs in its lower case any more.
redact-clean :
    (t : Text) (terms : List Text)
    → all is_plain terms ≡ true
    → (redact t terms ≡ some (blank_all t terms))
      × (any (λ term. contains term (lower (blank_all t terms))) terms ≡ false)
unfolding redact
redact-clean t terms plain =
    (redact_lem t terms (plain_full terms plain), blank_all-clean t terms plain)
