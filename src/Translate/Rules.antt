-- ===== src/Translate/Rules.antt =====
-- `RuleTranslator` of orchestrator/translate.py: what a text mentions, and the one choice it leaves.
pub mod Laws
pub mod Sentence
pub mod RoundTrip
use nf_orchestrator.Prelude.{
  ℕ, Bool, true, false, not, ◌&&◌, ◌||◌, [], ◌∷◌, ◌++◌, List, Option, none, some, ltb, ◌==◌,
  if◌then◌else◌, length, is_empty, keep,
}
use nf_orchestrator.Text.{Text, text, text_eq, one_of, strip, lower, join, show}
use nf_orchestrator.Json.{Json, Fields, null, bool, num, str, arr, obj, end, field, get}
use nf_orchestrator.Intent.{Intent, environments, is_valid}
use nf_orchestrator.Translate.Words.{mentions_word, numbers_from, hint_from, token_from}
use nf_orchestrator.Translate.{Translation, accepted, rejected, and_then, Translator}

abbrev pub number_words : List (Text × ℕ)
number_words =
    (text "one", 1)
    ∷ (text "two", 2)
    ∷ (text "three", 3)
    ∷ (text "four", 4)
    ∷ (text "five", 5)
    ∷ (text "six", 6)
    ∷ (text "seven", 7)
    ∷ (text "eight", 8)
    ∷ (text "nine", 9)
    ∷ (text "ten", 10)
    ∷ []

-- Into a set of numbers, held in increasing order.
unfoldable pub insert : ℕ → List ℕ → List ℕ
insert n [] = n ∷ []
insert n (m ∷ ms) =
    let rest = insert n ms in if ltb n m then n ∷ m ∷ ms else if n == m then m ∷ ms else m ∷ rest

unfoldable pub set_of : List ℕ → List ℕ
unfolding insert
set_of [] = []
set_of (n ∷ ns) = insert n (set_of ns)

-- The values of the number words that the text mentions.
unfoldable pub words_among : List (Text × ℕ) → Text → List ℕ
words_among [] lowered = []
words_among ((word, n) ∷ ws) lowered =
    let rest = words_among ws lowered in if mentions_word word lowered then n ∷ rest else rest

unfoldable pub counts_of : Text → List ℕ
unfolding set_of words_among
counts_of lowered = set_of (numbers_from false lowered ++ words_among number_words lowered)

unfoldable pub mentioned : Text → List Text
mentioned lowered = keep (λ e. mentions_word e lowered) environments

pick_environment : List Text → Translation Text
pick_environment [] =
    rejected
      (text "no environment found in the text; expected one of " ++ join (text ", ") environments)
pick_environment (e ∷ []) = accepted e
pick_environment (e ∷ f ∷ es) = rejected (
    text "text mentions more than one environment ("
    ++ (join (text ", ") (e ∷ f ∷ es) ++ text "); say which one, it will not be guessed"))

shown : List ℕ → List Text
shown [] = []
shown (n ∷ ns) = show n ∷ shown ns

pick_count : List ℕ → Translation ℕ
unfolding shown
pick_count [] = rejected (text "no replica count found in the text")
pick_count (n ∷ []) = accepted n
pick_count (n ∷ m ∷ ns) = rejected (
    text "text mentions more than one replica count ("
    ++ (join (text ", ") (shown (n ∷ m ∷ ns)) ++ text "); say which one, it will not be guessed"))

pick_name : (hint token : Option Text) → Translation Text
pick_name (some name) _ = accepted name
pick_name none (some name) = accepted name
pick_name none none = rejected (
    text
      "no network function name found in the text; name it explicitly, for example 'called edge-nf'")

unfoldable pub proposal : (name : Text) → (replicas : ℕ) → (environment : Text) → Json
proposal name replicas environment = obj (
    field (text "name") (str name)
      (field (text "replicas") (num replicas) (field (text "environment") (str environment) end)))

-- `RuleTranslator.propose`
unfoldable pub propose_by_rules : Text → Translation Json
unfolding pick_environment pick_count pick_name
propose_by_rules t =
    let lowered = lower t in
    and_then (pick_environment (mentioned lowered)) (λ environment.
      and_then (pick_count (counts_of lowered)) (λ replicas.
        and_then (pick_name (hint_from false lowered) (token_from false lowered))
          (λ name. accepted (proposal name replicas environment))))

abbrev pub rules : Translator
rules = record { name = text "rules"; propose = propose_by_rules }
