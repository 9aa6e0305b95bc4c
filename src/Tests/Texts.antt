-- ===== src/Tests/Texts.antt =====
-- Texts that the rules translate.
use nf_orchestrator.Prelude.{
  not, is_none, is_empty, if◌then◌else◌, ◌++◌, ◌&&◌, List, ℕ, ◌≡◌, ◌≤◌, refl, true, false, ◌&&◌, [],
  ◌==◌, none, some, arith, ◌∷◌, map, is_none, length, is_empty,
}
use nf_orchestrator.Text.{Text, text, text_eq, one_of, strip, lower}
use nf_orchestrator.Json.{Json, Fields, str, num, bool, obj, end, field, get}
use nf_orchestrator.Intent.{Intent, environments, is_valid}
use nf_orchestrator.Translate.Words.{
  mentions_word, mentions_from, numbers_from, hint_from, token_from,
}
use nf_orchestrator.Translate.{
  intent_fields, accepted, Translated, translate, pick_fields, validate, warnings_for,
}
use nf_orchestrator.Payloads.{payloads}
use nf_orchestrator.Translate.Warnings.{prod_warning, dropped_warning, translate-accepts}
use nf_orchestrator.Translate.Claude.{
  MessagesClient, ProposedIntent, ClaudeTranslator, responded, pos, installed, messages,
  system_prompt, default_model, claude,
}
use nf_orchestrator.Translate.Claude.Laws.{Answers, claude-translate}
use nf_orchestrator.Translate.Rules.{proposal, propose_by_rules, rules, mentioned, counts_of}
use nf_orchestrator.Translate.Laws.{translate_lem}
use nf_orchestrator.Translate.Rules.Laws.{contains_number, numbers_in, propose_by_rules_lem}

abbrev sentence : Text
sentence = text "Two replicas of edge-nf to dev"

abbrev proposed : Json
proposed = proposal (text "edge-nf") 2 (text "dev")

propose_by_rules_lem_example :
    (name : Text) × (n : ℕ) × (e : Text) × (proposed ≡ proposal name n e)
    × ((one_of (text "prod") environments && mentions_word (text "prod") (lower sentence))
        ≡ text_eq (text "prod") e)
    × (contains_number 3 (numbers_in (lower sentence)) ≡ (n == 3))
unfolding propose_by_rules mentioned mentions_word mentions_from lower text counts_of numbers_from
    hint_from token_from
propose_by_rules_lem_example = propose_by_rules_lem sentence proposed (text "prod") 3 refl

abbrev result : Translated
result = record {
  intent = record { name = text "edge-nf"; replicas = 2; environment = text "dev" };
  translator = text "rules";
  warnings = [];
}

translate_lem_example :
    (is_empty (strip sentence) ≡ false)
    × (length sentence ≤ 500)
    × (is_valid result.intent ≡ true)
    × ((candidate : Json) × (rules.propose sentence ≡ accepted candidate)
        × (get (text "name") candidate ≡ some (str (text "edge-nf")))
        × (get (text "replicas") candidate ≡ some (num 2))
        × (get (text "environment") candidate ≡ some (str (text "dev"))))
unfolding translate text strip propose_by_rules mentioned mentions_word mentions_from lower
    counts_of numbers_from hint_from token_from pick_fields proposal validate get text_eq is_valid
    warnings_for
translate_lem_example = translate_lem (λ j. []) rules sentence result refl

-- A pronoun behind the word `name` is taken for the name.
pronoun :
    propose_by_rules (text "two replicas to dev, name it edge-nf")
    ≡ accepted (proposal (text "it") 2 (text "dev"))
unfolding propose_by_rules mentioned mentions_word mentions_from lower text counts_of numbers_from
    hint_from
pronoun = refl

-- A number in a name is taken for the count, where the text has no other.
number_in_name :
    propose_by_rules (text "deploy edge-2 to dev")
    ≡ accepted (proposal (text "edge-2") 2 (text "dev"))
unfolding propose_by_rules mentioned mentions_word mentions_from lower text counts_of numbers_from
    hint_from token_from
number_in_name = refl

-- An object with a field too many.
abbrev offered : Fields
offered = field (text "name") (str (text "edge-nf")) (
    field (text "replicas") (num 2)
      (field (text "environment") (str (text "prod")) (field (text "force") (bool true) end)))

abbrev wanted : Intent
wanted = record { name = text "edge-nf"; replicas = 2; environment = text "prod" }

translate-accepts_example :
    (named : List Text) × (translate
        (λ j. [])
        (record { name = text "own"; propose = λ t. accepted (obj offered) })
        sentence
      ≡ accepted (record {
        intent = wanted;
        translator = text "own";
        warnings =
            (if text_eq wanted.environment (text "prod") then prod_warning ∷ [] else [])
            ++ (if is_empty named then [] else dropped_warning named ∷ []);
      }))
    × ((k : Text)
        → one_of k named ≡ (not (one_of k intent_fields) && not (is_none (get k (obj offered)))))
unfolding strip text get text_eq is_valid
translate-accepts_example =
    translate-accepts (λ j. [])
      (record { name = text "own"; propose = λ t. accepted (obj offered) }) sentence offered wanted
      refl (omega arith) refl refl refl refl refl

-- A client that reads every request alike.
abbrev client : MessagesClient
client = λ request. responded (some (text "end_turn")) (
    some
      (record { name = text "edge-nf"; replicas = pos 2; environment = text "dev"; problem = [] }))

abbrev model : ClaudeTranslator
model = record { client = none; model = default_model }

claude-translate_example :
    (is_valid result.intent ≡ true)
    × ((c : MessagesClient) × ((messages (installed client) model).0 ≡ accepted c)
        × ((p : ProposedIntent) × Answers p (
              c (record {
                model = default_model;
                tokens = 1024;
                system = system_prompt;
                output_effort = text "low";
                content = sentence;
              }))
            × (p.name ≡ result.intent.name)
            × (p.replicas ≡ pos result.intent.replicas)
            × (p.environment ≡ result.intent.environment)))
unfolding translate text strip claude text_eq pick_fields validate get one_of is_valid warnings_for
claude-translate_example =
    claude-translate (λ j. []) (installed client) model sentence
      (record result { translator = text "claude" }) refl

-- Of the payloads of scripts/intent_validate.py just the first is an intent.
verdicts :
    map (λ (_, payload). is_none (validate payload)) payloads ≡ false ∷ true ∷ true ∷ true ∷ []
unfolding validate one_of text get is_valid
verdicts = refl
