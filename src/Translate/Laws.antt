-- ===== src/Translate/Laws.antt =====
-- What an accepted text says, whatever translator proposed it: a valid intent of its own fields.
use nf_orchestrator.Prelude.{
  ℕ, ◌≤◌, ◌≡◌, refl, sym, ◌∙◌, inl, inr, Bool, true, false, ◌||◌, List, [], ◌∷◌, Option, none, some,
  arith, length, is_empty, ltb, Option-cases, if◌then◌else◌, tests,
}
use nf_orchestrator.Text.{Text, text, one_of, strip}
use nf_orchestrator.Text.Laws.{text_eq_iff}
use nf_orchestrator.Json.{Json, null, bool, num, neg, str, arr, obj, get}
use nf_orchestrator.Json.Laws.{get-end, get-field}
use nf_orchestrator.Intent.{Intent, is_valid}
use nf_orchestrator.Translate.{
  intent_fields, Translation, accepted, rejected, and_then, Translator, pick, pick_fields,
  from_fields, validate, Translated, conclude, translate, dropped_of,
}

pub and_then-accepted :
    {A B : Type 0} (r : Translation A) (f : A → Translation B) (b : B)
    → and_then r f ≡ accepted b
    → (a : A) × (r ≡ accepted a) × (f a ≡ accepted b)
and_then-accepted (accepted a) f b e = (a, refl, e)
and_then-accepted (rejected message) f b e = absurd (ground arith)

pub accepted-injective : {A : Type 0} (a b : A) → accepted a ≡ accepted b → a ≡ b
accepted-injective a b h = ground arith

pick-get :
    (key : Text) (ks : List Text) (j : Json)
    → get key (obj (pick ks j)) ≡ (if one_of key ks then get key j else none)
unfolding pick one_of
pick-get key [] j = get-end key
pick-get key (k ∷ ks) j = elim (Option-cases (get k j)) [
  | inl missing ↦ ground (arith, pick-get key ks j, text_eq_iff key k)
  | inr (v, found) ↦
      ground (arith, pick-get key ks j, get-field key k v (pick ks j), text_eq_iff key k)
]

from_fields-some :
    (n r e : Option Json) (i : Intent)
    → from_fields n r e ≡ some i
    → (is_valid i ≡ true)
      × (n ≡ some (str i.name))
      × (r ≡ some (num i.replicas))
      × (e ≡ some (str i.environment))
from_fields-some n r e i h = ground arith

when_some :
    {A : Type 0} (b : Bool) (o : Option A) (a : A) → (if b then o else none) ≡ some a → o ≡ some a
when_some true o a h = h
when_some false o a h = absurd (ground arith)

validate-some :
    (j : Json) (i : Intent)
    → validate j ≡ some i
    → (is_valid i ≡ true)
      × (get (text "name") j ≡ some (str i.name))
      × (get (text "replicas") j ≡ some (num i.replicas))
      × (get (text "environment") j ≡ some (str i.environment))
unfolding validate
validate-some j i h =
    from_fields-some (get (text "name") j) (get (text "replicas") j) (get (text "environment") j) i
      (when_some (is_empty (dropped_of j)) _ i h)

pub pick_fields-accepted :
    (candidate fields : Json) (key : Text)
    → pick_fields candidate ≡ accepted fields
    → one_of key intent_fields ≡ true
    → get key fields ≡ get key candidate
unfolding pick_fields
pick_fields-accepted (obj fs) fields key h known =
    rw⁻¹ (accepted-injective (obj (pick intent_fields (obj fs))) fields h)
      (pick-get key intent_fields (obj fs) ∙ rw known refl)
pick_fields-accepted null fields key h known = absurd (ground arith)
pick_fields-accepted (bool b) fields key h known = absurd (ground arith)
pick_fields-accepted (num n) fields key h known = absurd (ground arith)
pick_fields-accepted (neg n) fields key h known = absurd (ground arith)
pick_fields-accepted (str t) fields key h known = absurd (ground arith)
pick_fields-accepted (arr js) fields key h known = absurd (ground arith)

pub are_fields :
    (one_of (text "name") intent_fields ≡ true)
    × (one_of (text "replicas") intent_fields ≡ true)
    × (one_of (text "environment") intent_fields ≡ true)
unfolding one_of text
are_fields = (refl, refl, refl)

neither : (a b : Bool) → (a || b) ≡ false → b ≡ false
neither a b h = ground arith

not_above : (m n : ℕ) → ltb m n ≡ false → n ≤ m
not_above m n h = omega tests

pub unless_rejected :
    {A : Type 0} (b : Bool) (message : Text) (rest : Translation A) (a : A)
    → (if b then rejected message else rest) ≡ accepted a
    → (b ≡ false) × (rest ≡ accepted a)
unless_rejected true message rest a h = absurd (ground arith)
unless_rejected false message rest a h = (refl, h)

module _ (explain : Json → Text) (translator : Translator) where
  conclude-accepted :
      (dropped : List Text) (fields : Json) (r : Translated)
      → conclude explain translator dropped fields (validate fields) ≡ accepted r
      → validate fields ≡ some r.intent
  unfolding conclude
  conclude-accepted dropped fields r h = elim (Option-cases (validate fields)) [
    | inl refused ↦ absurd (ground arith)
    | inr (i, valid) ↦ ground arith
  ]

  -- An accepted text is not blank and within the limit, and the intent that it becomes is valid
  -- and has the name, the count and the environment that the translator proposed, whatever else
  -- that proposed.
  pub translate_lem :
      (t : Text) (r : Translated)
      → translate explain translator t ≡ accepted r
      → (is_empty (strip t) ≡ false)
        × (length t ≤ 500)
        × (is_valid r.intent ≡ true)
        × ((candidate : Json) × (translator.propose t ≡ accepted candidate)
            × (get (text "name") candidate ≡ some (str r.intent.name))
            × (get (text "replicas") candidate ≡ some (num r.intent.replicas))
            × (get (text "environment") candidate ≡ some (str r.intent.environment)))
  unfolding translate
  translate_lem t r h =
      let (present, h₁) = unless_rejected _ _ _ r h in
      let (short, h₂) = unless_rejected _ _ _ r h₁ in
      let (candidate, proposed, h₃) = and_then-accepted (translator.propose t) _ r h₂ in
      let (fields, picked, h₄) = and_then-accepted (pick_fields candidate) _ r h₃ in
      let (valid, name, replicas, environment) =
        validate-some fields r.intent (conclude-accepted _ fields r h₄) in
      (
        neither (is_empty t) (is_empty (strip t)) present,
        not_above 500 (length t) short,
        valid,
        (
          candidate,
          proposed,
          sym (pick_fields-accepted candidate fields (text "name") picked are_fields.0) ∙ name,
          sym (pick_fields-accepted candidate fields (text "replicas") picked are_fields.1)
              ∙ replicas,
          sym (pick_fields-accepted candidate fields (text "environment") picked are_fields.2)
              ∙ environment,
        ),
      )
