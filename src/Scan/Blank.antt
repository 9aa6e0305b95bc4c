-- ===== src/Scan/Blank.antt =====
-- A text with the occurrences of a term blanked out, as a specification of `redact`, and what `find`
-- says of it.
use nf_orchestrator.Prelude.{
  ℕ, zero, suc, ◌+◌, ◌-◌, ◌≤◌, ◌≡◌, refl, ◌∙◌, Bool, true, false, not, [], ◌∷◌, ◌++◌, none, some,
  arith, all, length, take, drop, ◌==◌, if◌then◌else◌, Bool-cases, Option-cases, inl, inr,
}
use mathlib.Core.Option
use nf_orchestrator.Text.{Text, text, lower, contains, starts_with}
use nf_orchestrator.Scan.{find, stars}

-- The text with each occurrence of a term, from the left, replaced by stars; `skip` characters of
-- an occurrence are still to be dropped.
unfoldable pub blank : (skip : ℕ) → (term t : Text) → Text
blank skip term [] = []
blank (suc skip) term (c ∷ t) = blank skip term t
blank zero term (c ∷ t) =
    let covered = stars ++ blank (length term - 1) term t in
    let kept = c ∷ blank zero term t in if starts_with term (lower (c ∷ t)) then covered else kept

-- A text without a star.
abbrev pub has_no_star : Text → Bool
has_no_star term = all (λ c. not (c == b'*')) term

-- What stands at the start of the blanked text, and has no star, stood at the start of the text.
starts_with-blank :
    (u term t : Text)
    → has_no_star u ≡ true
    → starts_with u (lower (blank 0 term t)) ≡ true
    → starts_with u (lower t) ≡ true
unfolding blank starts_with lower text
starts_with-blank [] term t clean h = refl
starts_with-blank (a ∷ u) term [] clean h = h
starts_with-blank (a ∷ u) term (c ∷ t) clean h = ground (arith, starts_with-blank u term t)

-- Blanking a term brings no other text into view.
pub contains-blank :
    (skip : ℕ) (a : ℕ) (u term t : Text)
    → has_no_star (a ∷ u) ≡ true
    → contains (a ∷ u) (lower (blank skip term t)) ≡ true
    → contains (a ∷ u) (lower t) ≡ true
unfolding blank contains starts_with lower text
contains-blank skip a u term [] clean h = h
contains-blank (suc skip) a u term (c ∷ t) clean h = ground (arith, contains-blank skip a u term t)
contains-blank zero a u term (c ∷ t) clean h =
    elim (Bool-cases (starts_with term (lower (c ∷ t)))) [
      | inl found ↦ ground (arith, contains-blank (length term - 1) a u term t)
      | inr other ↦ ground (arith, contains-blank zero a u term t, starts_with-blank u term t)
    ]

starts_with-length : (u t : Text) → starts_with u t ≡ true → length u ≤ length t
unfolding starts_with
starts_with-length [] t h = omega arith
starts_with-length (a ∷ u) [] h = ground arith
starts_with-length (a ∷ u) (c ∷ t) h = ground (arith, starts_with-length u t)

length-lower : (t : Text) → length (lower t) ≡ length t
unfolding lower
length-lower [] = refl
length-lower (c ∷ t) = ground (arith, length-lower t)

blank-drop : (skip : ℕ) (term t : Text) → blank skip term t ≡ blank 0 term (drop skip t)
unfolding blank
blank-drop zero term t = refl
blank-drop (suc skip) term [] = refl
blank-drop (suc skip) term (c ∷ t) = blank-drop skip term t

blank_nil : (term : Text) → blank 0 term [] ≡ []
unfolding blank
blank_nil term = refl

find_nil : (a : ℕ) (u : Text) → find (a ∷ u) (lower []) ≡ none
unfolding find lower starts_with
find_nil a u = refl

blank_found :
    (a c : ℕ) (u t : Text)
    → starts_with (a ∷ u) (lower (c ∷ t)) ≡ true
    → blank 0 (a ∷ u) (c ∷ t) ≡ stars ++ blank 0 (a ∷ u) (drop (length u) t)
unfolding blank
blank_found a c u t h =
    let e : length (a ∷ u) - 1 ≡ length u = omega arith in
    rw (h, e, ← (blank-drop (length u) (a ∷ u) t)) refl

blank_other :
    (a c : ℕ) (u t : Text)
    → starts_with (a ∷ u) (lower (c ∷ t)) ≡ false
    → blank 0 (a ∷ u) (c ∷ t) ≡ c ∷ blank 0 (a ∷ u) t
unfolding blank
blank_other a c u t h = rw (h) refl

find_cons :
    (term : Text) (c : ℕ) (t : Text)
    → find term (lower (c ∷ t))
      ≡ (if starts_with term (lower (c ∷ t)) then some 0 else Option.map suc (find term (lower t)))
unfolding find lower
find_cons term c t = refl

pub find-none : (a : ℕ) (u t : Text) → find (a ∷ u) (lower t) ≡ none → blank 0 (a ∷ u) t ≡ t
find-none a u [] h = blank_nil (a ∷ u)
find-none a u (c ∷ t) h =
    ground (arith, find_cons (a ∷ u) c t, blank_other a c u t, find-none a u t)

pub find-bound :
    (a : ℕ) (u t : Text) (k : ℕ) → find (a ∷ u) (lower t) ≡ some k → k + length (a ∷ u) ≤ length t
find-bound a u [] k h = ground (arith, find_nil a u)
find-bound a u (c ∷ t) k h = ground (
  arith,
  find_cons (a ∷ u) c t,
  starts_with-length (a ∷ u) (lower (c ∷ t)),
  length-lower (c ∷ t),
  find-bound a u t (k - 1),
)

find-suc :
    (term : Text) (c : ℕ) (t : Text) (k : ℕ)
    → find term (lower (c ∷ t)) ≡ some (suc k)
    → (starts_with term (lower (c ∷ t)) ≡ false) × (find term (lower t) ≡ some k)
find-suc term c t k h = elim (Bool-cases (starts_with term (lower (c ∷ t)))) [
  | inl here ↦ ground (arith, find_cons term c t)
  | inr other ↦ elim (Option-cases (find term (lower t))) [
    | inl absent ↦ ground (arith, find_cons term c t)
    | inr (j, found) ↦
        let e : some (suc j) ≡ some (suc k) = rw (← h, find_cons term c t, other, found) refl in
        (other, found ∙ ground (arith, e))
  ]
]

pub drop-lower : (read left : Text) → drop (length read) (lower (read ++ left)) ≡ lower left
unfolding lower
drop-lower [] left = refl
drop-lower (c ∷ read) left = drop-lower read left

pub find-some :
    (a : ℕ) (u t : Text) (k : ℕ)
    → find (a ∷ u) (lower t) ≡ some k
    → blank 0 (a ∷ u) t ≡ take k t ++ (stars ++ blank 0 (a ∷ u) (drop (k + length (a ∷ u)) t))
find-some a u [] k h = ground (arith, find_nil a u)
find-some a u (c ∷ t) zero h = ground (arith, find_cons (a ∷ u) c t, blank_found a c u t)
find-some a u (c ∷ t) (suc k) h =
    let (other, later) = find-suc (a ∷ u) c t k h in
    let e : suc k + length (a ∷ u) ≡ suc (k + length (a ∷ u)) = omega arith in
    rw (e, blank_other a c u t other, find-some a u t k later) refl

-- The blanked text does not hold the term.
pub blank-clean :
    (skip a : ℕ) (u t : Text)
    → has_no_star (a ∷ u) ≡ true
    → contains (a ∷ u) (lower (blank skip (a ∷ u) t)) ≡ false
unfolding blank contains starts_with lower text
blank-clean skip a u [] clean = refl
blank-clean (suc skip) a u (c ∷ t) clean = blank-clean skip a u t clean
blank-clean zero a u (c ∷ t) clean = elim (Bool-cases (starts_with (a ∷ u) (lower (c ∷ t)))) [
  | inl found ↦ ground (arith, blank-clean (length (a ∷ u) - 1) a u t)
  | inr other ↦ ground (arith, blank-clean zero a u t, starts_with-blank u (a ∷ u) t)
]
