-- ===== src/Intent/Laws.antt =====
-- What a name that the schema of orchestrator/intent.py accepts is.
use nf_orchestrator.Prelude.{ℕ, ◌≡◌, refl, Bool, false, ◌&&◌, [], ◌∷◌, arith, all}
use nf_orchestrator.Text.{Text}
use nf_orchestrator.Intent.{is_alnum, is_name_char, matches_tail, matches_name}

-- A test of a text's first character, and of its last; false where there is none.
abbrev pub first : (ℕ → Bool) → Text → Bool
first p [] = false
first p (c ∷ s) = p c

abbrev pub last : (ℕ → Bool) → Text → Bool
last p [] = false
last p (c ∷ []) = p c
last p (c ∷ d ∷ s) = last p (d ∷ s)

matches_tail_lem :
    (c : ℕ) (s : Text) → matches_tail (c ∷ s) ≡ (last is_alnum (c ∷ s) && all is_name_char (c ∷ s))
unfolding matches_tail
matches_tail_lem c [] = ground arith
matches_tail_lem c (d ∷ s) = ground (arith, matches_tail_lem d s)

-- A name matches the pattern exactly when it begins and ends with a letter or a digit and holds
-- letters, digits and dashes only.
pub matches_name_lem :
    (s : Text) → matches_name s ≡ (first is_alnum s && last is_alnum s && all is_name_char s)
unfolding matches_name matches_tail
matches_name_lem [] = refl
matches_name_lem (c ∷ []) = ground arith
matches_name_lem (c ∷ d ∷ s) = ground (arith, matches_tail_lem d s)
