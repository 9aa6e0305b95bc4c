-- ===== src/Translate/Accepts.antt =====
-- Which texts `translate` accepts, and with what warnings.
use nf_orchestrator.Prelude.{
  ◌≤◌, ◌≡◌, refl, ◌∙◌, inl, inr, true, false, ◌||◌, List, [], ◌∷◌, some, arith, length, is_empty,
  ltb, Option-cases, all,
}
use nf_orchestrator.Text.{Text, text, text_eq, one_of, strip}
use nf_orchestrator.Json.{Json, Fields, obj, num, str, get}
use nf_orchestrator.Intent.{Intent, is_valid}
use nf_orchestrator.Translate.{
  intent_fields, accepted, Translator, pick, pick_fields, validate, warnings_for, dropped_among,
  dropped_of, conclude, translate,
}
use nf_orchestrator.Translate.Laws.{pick_fields-accepted, are_fields}

dropped_among-pick :
    (ks : List Text) (j : Json)
    → all (λ k. one_of k intent_fields) ks ≡ true
    → dropped_among (pick ks j) ≡ []
unfolding pick dropped_among
dropped_among-pick [] j known = refl
dropped_among-pick (k ∷ ks) j known = elim (Option-cases (get k j)) [
  | inl missing ↦ ground (arith, dropped_among-pick ks j)
  | inr (v, found) ↦ ground (arith, dropped_among-pick ks j)
]

intent_fields-known : all (λ k. one_of k intent_fields) intent_fields ≡ true
unfolding one_of text text_eq
intent_fields-known = refl

validate-picked :
    (fs : Fields) (i : Intent)
    → get (text "name") (obj fs) ≡ some (str i.name)
    → get (text "replicas") (obj fs) ≡ some (num i.replicas)
    → get (text "environment") (obj fs) ≡ some (str i.environment)
    → is_valid i ≡ true
    → validate (obj (pick intent_fields (obj fs))) ≡ some i
unfolding validate pick_fields dropped_of
validate-picked fs i name replicas environment valid =
    let picked : Json = obj (pick intent_fields (obj fs)) in
    rw
      (
        dropped_among-pick intent_fields (obj fs) intent_fields-known,
        pick_fields-accepted (obj fs) picked (text "name") refl are_fields.0 ∙ name,
        pick_fields-accepted (obj fs) picked (text "replicas") refl are_fields.1 ∙ replicas,
        pick_fields-accepted (obj fs) picked (text "environment") refl are_fields.2 ∙ environment,
        valid,
      )
      refl

is_empty-strip :
    (t : Text) → is_empty (strip t) ≡ false → (is_empty t || is_empty (strip t)) ≡ false
unfolding strip
is_empty-strip [] h = h
is_empty-strip (c ∷ t) h = h

module _ (explain : Json → Text) (translator : Translator) where
  -- A text that is not blank and within the limit, for which the translator proposes an object with
  -- a valid intent's name, count and environment, is accepted with that intent, whatever else the
  -- object has, and with the warnings for it.
  pub translate-takes :
      (t : Text) (fs : Fields) (i : Intent)
      → is_empty (strip t) ≡ false
      → length t ≤ 500
      → translator.propose t ≡ accepted (obj fs)
      → get (text "name") (obj fs) ≡ some (str i.name)
      → get (text "replicas") (obj fs) ≡ some (num i.replicas)
      → get (text "environment") (obj fs) ≡ some (str i.environment)
      → is_valid i ≡ true
      → translate explain translator t
        ≡ accepted (record {
          intent = i;
          translator = translator.name;
          warnings = warnings_for i (dropped_of (obj fs));
        })
  unfolding translate pick_fields conclude
  translate-takes t fs i present short proposed name replicas environment valid =
      let within : ltb 500 (length t) ≡ false = ground arith in
      rw
        (
          is_empty-strip t present,
          within,
          proposed,
          validate-picked fs i name replicas environment valid,
        )
        refl
