-- ===== src/Tests/Sentences.antt =====
-- A sentence that the rules read back.
use nf_orchestrator.Prelude.{◌≡◌, refl, []}
use nf_orchestrator.Text.{text, text_eq, one_of}
use nf_orchestrator.Intent.{Intent, is_valid, matches_name}
use nf_orchestrator.Translate.Words.{mentions_word, mentions_from, numbers_from}
use nf_orchestrator.Translate.{accepted, translate, warnings_for}
use nf_orchestrator.Translate.Rules.{rules, mentioned, words_among}
use nf_orchestrator.Translate.Rules.Sentence.{IsSilent, sentence}
use nf_orchestrator.Translate.Rules.RoundTrip.{translate-sentence}

abbrev edge : Intent
edge = record { name = text "edge-nf"; replicas = 3; environment = text "prod" }

edge-IsSilent : IsSilent edge.name
unfolding mentioned words_among numbers_from mentions_word mentions_from text
edge-IsSilent = record { environments_in = refl; words_in = refl; numbers_in = refl }

translate-sentence_example :
    translate (λ j. []) rules (sentence edge)
    ≡ accepted
        (record { intent = edge; translator = text "rules"; warnings = warnings_for edge [] })
unfolding is_valid matches_name one_of text text_eq
translate-sentence_example = translate-sentence (λ j. []) edge edge-IsSilent refl
