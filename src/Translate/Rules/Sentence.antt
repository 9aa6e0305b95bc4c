-- ===== src/Translate/Rules/Sentence.antt =====
-- A sentence that says what an intent holds, and what the rules read of its parts.
use nf_orchestrator.Prelude.{
  ℕ, zero, suc, ◌≡◌, refl, ◌∙◌, true, false, List, [], ◌∷◌, ◌++◌, arith, keep, all, leb, inl, inr,
  Bool-cases, length,
}
use nf_orchestrator.Text.{Text, text, text_eq, one_of, lower, show}
use nf_orchestrator.Text.Laws.{text_eq_iff}
use nf_orchestrator.Intent.{Intent, environments, is_valid, is_name_char}
use nf_orchestrator.Translate.Words.{is_word, mentions_word, mentions_from, numbers_from}
use nf_orchestrator.Translate.Words.Laws.{is_whole_word, mentions_word-parted, numbers_from-parted}
use nf_orchestrator.Translate.Rules.{number_words, words_among, mentioned}

module _ (c : ℕ) (parts : is_word c ≡ false) where
  keep-parted :
      (es : List Text) (s t : Text)
      → all is_whole_word es ≡ true
      → keep (λ e. mentions_word e s) es ≡ []
      → keep (λ e. mentions_word e (s ++ c ∷ t)) es ≡ keep (λ e. mentions_word e t) es
  keep-parted [] s t whole silent = refl
  keep-parted (e ∷ es) s t whole silent =
      ground (arith, keep-parted es s t, mentions_word-parted c parts e s t)

  words_among-parted :
      (ws : List (Text × ℕ)) (s t : Text)
      → all (λ (w, n). is_whole_word w) ws ≡ true
      → words_among ws s ≡ []
      → words_among ws (s ++ c ∷ t) ≡ words_among ws t
  unfolding words_among
  words_among-parted [] s t whole silent = refl
  words_among-parted ((w, n) ∷ ws) s t whole silent =
      ground (arith, words_among-parted ws s t, mentions_word-parted c parts w s t)

environments-whole : all is_whole_word environments ≡ true
unfolding text
environments-whole = refl

number_words-whole : all (λ (w, n). is_whole_word w) number_words ≡ true
unfolding text
number_words-whole = refl

-- What the rules read of a text.
pub record Says (t : Text) (es : List Text) (ns : List ℕ) : Type 0 where
  pub environments_in : mentioned t ≡ es
  pub words_in : words_among number_words t ≡ []
  pub numbers_in : numbers_from false t ≡ ns

behind :
    (c : ℕ) (s t : Text) (es : List Text) (ms ns : List ℕ)
    → is_word c ≡ false
    → Says s [] ms
    → Says t es ns
    → Says (s ++ c ∷ t) es (ms ++ ns)
unfolding mentioned
behind c s t es ms ns parts first next = record {
  environments_in =
      keep-parted c parts environments s t environments-whole first.environments_in
      ∙ next.environments_in;
  words_in =
      words_among-parted c parts number_words s t number_words-whole first.words_in ∙ next.words_in;
  numbers_in = rw (numbers_from-parted c parts s t, first.numbers_in, next.numbers_in) refl;
}

-- A text in lower case.
abbrev pub IsLower : Text → Type 0
IsLower t = lower t ≡ t

-- The same of a short one.
abbrev IsShort : Text → Type 0
IsShort t = IsLower t × (leb (length t) 7 ≡ true)

pub IsLower-append : (s t : Text) → IsLower s → IsLower t → IsLower (s ++ t)
unfolding lower
IsLower-append [] t low low' = low'
IsLower-append (c ∷ s) t low low' = ground (arith, IsLower-append s t)

pub name-IsLower : (s : Text) → all is_name_char s ≡ true → IsLower s
unfolding lower
name-IsLower [] name = refl
name-IsLower (c ∷ s) name = ground (arith, name-IsLower s)

reads :
    (t : Text) (es : List Text) (ns : List ℕ)
    → mentioned t ≡ es
    → words_among number_words t ≡ []
    → numbers_from false t ≡ ns
    → Says t es ns
reads t es ns e w n = record { environments_in = e; words_in = w; numbers_in = n }

-- A count in digits.
pub count_lem :
    (n : ℕ) → leb 1 n ≡ true → leb n 10 ≡ true → IsShort (show n) × Says (show n) [] (n ∷ [])
unfolding lower show mentioned words_among numbers_from mentions_word mentions_from text
count_lem zero small big = absurd (ground arith)
count_lem (suc zero) small big = ((refl, refl), reads (show 1) [] (1 ∷ []) refl refl refl)
count_lem (suc (suc zero)) small big = ((refl, refl), reads (show 2) [] (2 ∷ []) refl refl refl)
count_lem (suc (suc (suc zero))) small big =
    ((refl, refl), reads (show 3) [] (3 ∷ []) refl refl refl)
count_lem (suc (suc (suc (suc zero)))) small big =
    ((refl, refl), reads (show 4) [] (4 ∷ []) refl refl refl)
count_lem (suc (suc (suc (suc (suc zero))))) small big =
    ((refl, refl), reads (show 5) [] (5 ∷ []) refl refl refl)
count_lem (suc (suc (suc (suc (suc (suc zero)))))) small big =
    ((refl, refl), reads (show 6) [] (6 ∷ []) refl refl refl)
count_lem (suc (suc (suc (suc (suc (suc (suc zero))))))) small big =
    ((refl, refl), reads (show 7) [] (7 ∷ []) refl refl refl)
count_lem (suc (suc (suc (suc (suc (suc (suc (suc zero)))))))) small big =
    ((refl, refl), reads (show 8) [] (8 ∷ []) refl refl refl)
count_lem (suc (suc (suc (suc (suc (suc (suc (suc (suc zero))))))))) small big =
    ((refl, refl), reads (show 9) [] (9 ∷ []) refl refl refl)
count_lem (suc (suc (suc (suc (suc (suc (suc (suc (suc (suc zero)))))))))) small big =
    ((refl, refl), reads (show 10) [] (10 ∷ []) refl refl refl)
count_lem (suc (suc (suc (suc (suc (suc (suc (suc (suc (suc (suc n))))))))))) small big =
    absurd (ground arith)

-- The other words of the sentence.
words_lem :
    Says (text "called") [] []
    × Says [] [] []
    × Says (text "replicas") [] []
    × Says (text "in") [] []
unfolding mentioned words_among numbers_from mentions_word mentions_from text
words_lem = (
  reads (text "called") [] [] refl refl refl,
  reads [] [] [] refl refl refl,
  reads (text "replicas") [] [] refl refl refl,
  reads (text "in") [] [] refl refl refl,
)

-- An environment.
abbrev Names : Text → Type 0
Names e = IsShort e × Says e (e ∷ []) []

environments_lem : Names (text "dev") × Names (text "staging") × Names (text "prod")
unfolding lower mentioned words_among numbers_from mentions_word mentions_from text
environments_lem = (
  ((refl, refl), reads (text "dev") (text "dev" ∷ []) [] refl refl refl),
  ((refl, refl), reads (text "staging") (text "staging" ∷ []) [] refl refl refl),
  ((refl, refl), reads (text "prod") (text "prod" ∷ []) [] refl refl refl),
)

pub environment_lem : (e : Text) → one_of e environments ≡ true → Names e
unfolding one_of
environment_lem e known = elim (Bool-cases (text_eq e (text "dev"))) [
  | inl dev ↦ rw ((text_eq_iff e (text "dev")).0 dev) environments_lem.0
  | inr other ↦ elim (Bool-cases (text_eq e (text "staging"))) [
    | inl staging ↦ rw ((text_eq_iff e (text "staging")).0 staging) environments_lem.1
    | inr third ↦
        let prod : text_eq e (text "prod") ≡ true = ground arith in
        rw ((text_eq_iff e (text "prod")).0 prod) environments_lem.2
  ]
]

-- A name that says nothing of an environment or a number, on its own.
abbrev pub IsSilent : Text → Type 0
IsSilent name = Says name [] []

-- "called NAME, N replicas in ENVIRONMENT"
unfoldable pub sentence : Intent → Text
sentence i =
    text "called"
    ++ b' '
      ∷ (i.name
          ++ b','
            ∷ b' '
            ∷ (show i.replicas
                ++ b' ' ∷ (text "replicas" ++ b' ' ∷ (text "in" ++ b' ' ∷ i.environment))))

pub sentence-Says :
    (i : Intent)
    → IsSilent i.name
    → is_valid i ≡ true
    → Says (sentence i) (i.environment ∷ []) (i.replicas ∷ [])
unfolding sentence is_valid
sentence-Says i silent valid =
    let (says_called, says_blank, says_replicas, says_in) = words_lem in
    let (low_e, says_e) = environment_lem i.environment (ground arith) in
    let (low_n, says_n) = count_lem i.replicas (ground arith) (ground arith) in
    behind b' ' _ _ _ _ _ refl says_called (
      behind b',' _ _ _ _ _ refl silent (
        behind b' ' _ _ _ _ _ refl says_blank (
          behind b' ' _ _ _ _ _ refl says_n (
            behind b' ' _ _ _ _ _ refl says_replicas (behind b' ' _ _ _ _ _ refl says_in says_e)))))
