-- ===== src/Translate/Words/Laws.antt =====
-- What a text mentions, its parts mention: a character that is no part of a word parts them.
use nf_orchestrator.Prelude.{
  ℕ, ◌-◌, ◌+◌, ◌*◌, ◌≡◌, refl, Bool, true, false, not, ◌&&◌, ◌||◌, [], ◌∷◌, ◌++◌, List, Option,
  none, some, arith, if◌then◌else◌, length, all, length-append, is_empty,
}
use nf_orchestrator.Text.{Text}
use nf_orchestrator.Deploy.Klog.{after, digit_run}
use nf_orchestrator.Intent.{is_alnum, is_name_char}
use nf_orchestrator.Translate.Words.{
  is_word, begins_in_word, ends_there, mentions_from, mentions_word, is_short, number_at,
  add_number, numbers_from, name_run, skip_spaces,
}

-- A word to look for.
abbrev pub is_whole_word : Text → Bool
is_whole_word w = not (is_empty w) && all is_word w

numbers_from_nil : (in_word : Bool) → numbers_from in_word [] ≡ []
unfolding numbers_from
numbers_from_nil in_word = refl

numbers_from_cons :
    (in_word : Bool) (c : ℕ) (t : Text)
    → numbers_from in_word (c ∷ t) ≡ (
        if in_word
        then numbers_from (is_word c) t
        else add_number (number_at (c ∷ t)) (numbers_from (is_word c) t))
unfolding numbers_from
numbers_from_cons in_word c t = refl

add_number-append :
    (in_word : Bool) (o : Option ℕ) (ns ms : List ℕ)
    → (if in_word then ns ++ ms else add_number o (ns ++ ms))
      ≡ (if in_word then ns else add_number o ns) ++ ms
add_number-append true o ns ms = refl
add_number-append false none ns ms = refl
add_number-append false (some n) ns ms = refl

number_at_nil : number_at [] ≡ none
unfolding number_at
number_at_nil = refl

module _ (c : ℕ) (parts : is_word c ≡ false) where
  begins-parted : (s t : Text) → begins_in_word (s ++ c ∷ t) ≡ begins_in_word s
  begins-parted [] t = parts
  begins-parted (a ∷ s) t = refl

  ends-parted :
      (w s t : Text)
      → all is_word w ≡ true
      → ends_there (after w (s ++ c ∷ t)) ≡ ends_there (after w s)
  unfolding after
  ends-parted [] s t whole = rw (begins-parted s t) refl
  ends-parted (b ∷ w) [] t whole = ground (arith, parts)
  ends-parted (b ∷ w) (a ∷ s) t whole = ground (arith, ends-parted w s t)

  mentions_from-parted :
      (in_word : Bool) (w s t : Text)
      → is_whole_word w ≡ true
      → mentions_from in_word w (s ++ c ∷ t)
        ≡ (mentions_from in_word w s || mentions_from false w t)
  unfolding mentions_from after
  mentions_from-parted in_word [] s t whole = absurd (ground arith)
  mentions_from-parted in_word (b ∷ w) [] t whole = ground (arith, parts)
  mentions_from-parted in_word (b ∷ w) (a ∷ s) t whole =
      ground
        (arith, ends-parted (b ∷ w) (a ∷ s) t, mentions_from-parted (is_word a) (b ∷ w) s t whole)

  pub mentions_word-parted :
      (w s t : Text)
      → is_whole_word w ≡ true
      → mentions_word w (s ++ c ∷ t) ≡ (mentions_word w s || mentions_word w t)
  unfolding mentions_word
  mentions_word-parted w s t whole = mentions_from-parted false w s t whole

  digit_run-parted :
      (acc : ℕ) (s t : Text)
      → digit_run acc (s ++ c ∷ t) ≡ ((digit_run acc s).0, (digit_run acc s).1 ++ c ∷ t)
  unfolding digit_run
  digit_run-parted acc [] t = ground (arith, parts)
  digit_run-parted acc (a ∷ s) t = ground (arith, digit_run-parted (acc * 10 + (a - b'0')) s t)

  is_short-parted :
      (s t r : Text) (n : ℕ) → is_short (s ++ c ∷ t) (n, r ++ c ∷ t) ≡ is_short s (n, r)
  is_short-parted s t r n =
      let e : length (s ++ c ∷ t) - length (r ++ c ∷ t) ≡ length s - length r =
        omega (arith, length-append s (c ∷ t), length-append r (c ∷ t)) in
      rw (e, begins-parted r t) refl

  number_at-parted : (s t : Text) → number_at (s ++ c ∷ t) ≡ number_at s
  unfolding number_at
  number_at-parted [] t = ground (arith, parts)
  number_at-parted (a ∷ s) t =
      rw
        (
          digit_run-parted 0 (a ∷ s) t,
          is_short-parted (a ∷ s) t (digit_run 0 (a ∷ s)).1 (digit_run 0 (a ∷ s)).0,
        )
        refl

  numbers_from-parted_in :
      (in_word : Bool) (s t : Text)
      → numbers_from in_word (s ++ c ∷ t) ≡ numbers_from in_word s ++ numbers_from false t
  numbers_from-parted_in in_word [] t =
      rw
        (
          numbers_from_cons in_word c t,
          number_at-parted [] t,
          number_at_nil,
          parts,
          numbers_from_nil in_word,
        )
        (ground arith)
  numbers_from-parted_in in_word (a ∷ s) t =
      rw
        (
          numbers_from_cons in_word a (s ++ c ∷ t),
          numbers_from_cons in_word a s,
          number_at-parted (a ∷ s) t,
          numbers_from-parted_in (is_word a) s t,
        )
        (add_number-append in_word (number_at (a ∷ s)) (numbers_from (is_word a) s)
          (numbers_from false t))

  pub numbers_from-parted :
      (s t : Text) → numbers_from false (s ++ c ∷ t) ≡ numbers_from false s ++ numbers_from false t
  numbers_from-parted s t = numbers_from-parted_in false s t

-- A name, up to what is no part of one.
pub name_run-append : (s t : Text) → all is_name_char s ≡ true → name_run (s ++ b',' ∷ t) ≡ s
unfolding name_run
name_run-append [] t name = refl
name_run-append (a ∷ s) t name = ground (arith, name_run-append s t)

pub skip_spaces-word : (a : ℕ) (t : Text) → is_alnum a ≡ true → skip_spaces (a ∷ t) ≡ a ∷ t
unfolding skip_spaces
skip_spaces-word a t alnum = ground arith
