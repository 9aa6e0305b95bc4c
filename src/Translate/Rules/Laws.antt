-- ===== src/Translate/Rules/Laws.antt =====
-- What the rules propose is the only choice that the text leaves.
use nf_orchestrator.Prelude.{
  ℕ, ◌≡◌, refl, sym, ◌∙◌, inl, inr, Bool, false, ◌&&◌, ◌||◌, List, [], ◌∷◌, ◌++◌, arith, any, keep,
  ◌==◌, Bool-cases,
}
use nf_orchestrator.Text.{Text, text_eq, one_of, lower}
use nf_orchestrator.Text.Laws.{text_eq_iff, text_eq_refl}
use nf_orchestrator.Json.{Json}
use nf_orchestrator.Intent.{environments}
use nf_orchestrator.Translate.Words.{mentions_word, numbers_from, hint_from, token_from}
use nf_orchestrator.Translate.{Translation, accepted, and_then}
use nf_orchestrator.Translate.Rules.{
  number_words, insert, set_of, words_among, counts_of, mentioned, pick_environment, pick_count,
  pick_name, proposal, propose_by_rules,
}
use nf_orchestrator.Translate.Laws.{and_then-accepted, accepted-injective}

pick_environment-accepted :
    (es : List Text) (e : Text) → pick_environment es ≡ accepted e → es ≡ e ∷ []
unfolding pick_environment
pick_environment-accepted [] e h = ground arith
pick_environment-accepted (x ∷ []) e h = ground arith
pick_environment-accepted (x ∷ y ∷ es) e h = ground arith

pick_count-accepted : (ns : List ℕ) (n : ℕ) → pick_count ns ≡ accepted n → ns ≡ n ∷ []
unfolding pick_count
pick_count-accepted [] n h = ground arith
pick_count-accepted (x ∷ []) n h = ground arith
pick_count-accepted (x ∷ y ∷ ns) n h = ground arith

one_of-keep :
    (p : Text → Bool) (f : Text) (es : List Text) → one_of f (keep p es) ≡ (one_of f es && p f)
unfolding one_of
one_of-keep p f [] = refl
one_of-keep p f (e ∷ es) = elim (Bool-cases (text_eq f e)) [
  | inl same ↦ rw ((text_eq_iff f e).0 same) (ground (arith, one_of-keep p e es, text_eq_refl e))
  | inr other ↦ ground (arith, one_of-keep p f es)
]

abbrev pub contains_number : ℕ → List ℕ → Bool
contains_number m ns = any (λ n. n == m) ns

contains-insert :
    (m n : ℕ) (ns : List ℕ) → contains_number m (insert n ns) ≡ (n == m || contains_number m ns)
unfolding insert
contains-insert m n [] = refl
contains-insert m n (k ∷ ns) = ground (arith, contains-insert m n ns)

contains-set_of : (m : ℕ) (ns : List ℕ) → contains_number m (set_of ns) ≡ contains_number m ns
unfolding set_of
contains-set_of m [] = refl
contains-set_of m (n ∷ ns) = contains-insert m n (set_of ns) ∙ rw (contains-set_of m ns) refl

-- The numbers of a text that the rules read: words of one to three digits, and the words of
-- `NUMBER_WORDS`.
abbrev pub numbers_in : Text → List ℕ
numbers_in lowered = numbers_from false lowered ++ words_among number_words lowered

-- The three choices behind an accepted proposal.
chosen :
    (es : List Text) (ns : List ℕ) (names : Translation Text) (j : Json)
    → and_then (pick_environment es) (λ environment.
      and_then
        (pick_count ns)
        (λ replicas. and_then names (λ name. accepted (proposal name replicas environment))))
      ≡ accepted j
    → (name : Text) × (n : ℕ) × (e : Text) × (j ≡ proposal name n e) × (es ≡ e ∷ []) × (ns ≡ n ∷ [])
chosen es ns names j h =
    let (e, pe, h₁) = and_then-accepted (pick_environment es) _ j h in
    let (n, pn, h₂) = and_then-accepted (pick_count ns) _ j h₁ in
    let (name, pm, h₃) = and_then-accepted names _ j h₂ in
    (
      name,
      n,
      e,
      sym (accepted-injective (proposal name n e) j h₃),
      pick_environment-accepted es e pe,
      pick_count-accepted ns n pn,
    )

only_environment :
    (f e : Text) (lowered : Text)
    → mentioned lowered ≡ e ∷ []
    → (one_of f environments && mentions_word f lowered) ≡ text_eq f e
unfolding mentioned
only_environment f e lowered h =
    sym (one_of-keep (λ x. mentions_word x lowered) f environments)
    ∙ rw h (unfold one_of in ground arith)

only_count :
    (m n : ℕ) (lowered : Text)
    → counts_of lowered ≡ n ∷ []
    → contains_number m (numbers_in lowered) ≡ (n == m)
unfolding counts_of
only_count m n lowered h = sym (contains-set_of m (numbers_in lowered)) ∙ rw h (ground arith)

-- What the rules propose is unambiguous among what they read: of the schema's environments the text
-- mentions the proposed one and no other, and of the numbers that it writes as a word of one to
-- three digits or as one of the words "one" to "ten" the proposed count and no other. Numbers
-- written otherwise, such as 5000 or "eleven", are not read.
pub propose_by_rules_lem :
    (t : Text) (j : Json) (f : Text) (m : ℕ)
    → propose_by_rules t ≡ accepted j
    → (name : Text) × (n : ℕ) × (e : Text) × (j ≡ proposal name n e)
      × ((one_of f environments && mentions_word f (lower t)) ≡ text_eq f e)
      × (contains_number m (numbers_in (lower t)) ≡ (n == m))
unfolding propose_by_rules
propose_by_rules_lem t j f m h =
    let (name, n, e, same, only_e, only_n) =
      chosen (mentioned (lower t)) (counts_of (lower t))
        (pick_name (hint_from false (lower t)) (token_from false (lower t))) j h in
    (name, n, e, same, only_environment f e (lower t) only_e, only_count m n (lower t) only_n)
