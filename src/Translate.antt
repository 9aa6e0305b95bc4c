-- ===== src/Translate.antt =====
-- orchestrator/translate.py: free text becomes a candidate intent, which is then validated.
pub mod Words
pub mod Rules
pub mod Claude
pub mod Laws
pub mod Accepts
pub mod Warnings
use nf_orchestrator.Prelude.{
  ℕ, Bool, true, false, not, ◌&&◌, ◌||◌, [], ◌∷◌, ◌++◌, List, Option, none, some, ltb, ◌==◌,
  if◌then◌else◌, length, is_empty, keep,
}
use nf_orchestrator.Text.{Text, text, text_eq, one_of, strip, lower, join, show}
use nf_orchestrator.Json.{Json, Fields, null, bool, num, neg, str, arr, obj, end, field, get}
use nf_orchestrator.Intent.{Intent, environments, is_valid}
use nf_orchestrator.Translate.Words.{mentions_word, numbers_from, hint_from, token_from}

abbrev max_text_length : ℕ
max_text_length = 500

abbrev pub intent_fields : List Text
intent_fields = text "name" ∷ text "replicas" ∷ text "environment" ∷ []

-- What a step comes to: `rejected` is `TranslationError`.
pub data Translation {ℓ} (A : Type ℓ) : Type ℓ where
  accepted : A → Translation A
  rejected : (message : Text) → Translation A

abbrev pub and_then : {A B : Type 0} → Translation A → (A → Translation B) → Translation B
and_then (accepted a) f = f a
and_then (rejected message) f = rejected message

-- A translator may propose any value.
pub record Translator : Type 0 where
  pub name : Text
  pub propose : Text → Translation Json

type_name : Json → Text
type_name null = text "NoneType"
type_name (bool _) = text "bool"
type_name (num _) = text "int"
type_name (neg _) = text "int"
type_name (str _) = text "str"
type_name (arr _) = text "list"
type_name (obj _) = text "dict"

-- `{key: candidate[key] for key in INTENT_FIELDS if key in candidate}`
unfoldable pub pick : List Text → Json → Fields
pick [] j = end
pick (k ∷ ks) j = let rest = pick ks j in elim (get k j) [ none ↦ rest | some v ↦ field k v rest ]

not_an_object : Json → Text
unfolding type_name
not_an_object j = text "translator returned " ++ (type_name j ++ text ", expected an object")

unfoldable pub pick_fields : Json → Translation Json
unfolding not_an_object pick
pick_fields (obj fs) = accepted (obj (pick intent_fields (obj fs)))
pick_fields j = rejected (not_an_object j)

abbrev dropped_key : Text → List Text → List Text
dropped_key k ks = if one_of k intent_fields then ks else k ∷ ks

-- The keys that are not of an intent.
unfoldable pub dropped_among : Fields → List Text
dropped_among end = []
dropped_among (field k v fs) = dropped_key k (dropped_among fs)

unfoldable pub dropped_of : Json → List Text
unfolding dropped_among
dropped_of (obj fs) = dropped_among fs
dropped_of _ = []

-- The order of texts, by code points.
text_ltb : Text → Text → Bool
text_ltb _ [] = false
text_ltb [] (_ ∷ _) = true
text_ltb (a ∷ s) (b ∷ t) = let rest = text_ltb s t in if a == b then rest else ltb a b

put_in : Text → List Text → List Text
put_in k [] = k ∷ []
put_in k (l ∷ ls) = let rest = put_in k ls in if text_ltb k l then k ∷ l ∷ ls else l ∷ rest

sorted : List Text → List Text
sorted [] = []
sorted (k ∷ ks) = put_in k (sorted ks)

unfoldable pub warnings_for : Intent → List Text → List Text
unfolding sorted put_in text_ltb
warnings_for i dropped =
    (if text_eq i.environment (text "prod")
      then text
          "text was translated into a prod intent; deploying it is a separate, deliberate call"
        ∷ []
      else [])
    ++ (if is_empty dropped
        then []
        else (text "translator proposed fields that are not part of an intent and were dropped: "
            ++ join (text ", ") (sorted dropped))
          ∷ [])

abbrev checked : Intent → Option Intent
checked i = if is_valid i then some i else none

abbrev from_fields : Option Json → Option Json → Option Json → Option Intent
from_fields (some (str n)) (some (num r)) (some (str e)) =
    checked (record { name = n; replicas = r; environment = e })
from_fields _ _ _ = none

-- `Intent.model_validate`, strict on the types of its three fields, with no other field.
unfoldable pub validate : Json → Option Intent
unfolding dropped_of dropped_among
validate j =
    if is_empty (dropped_of j)
    then from_fields (get (text "name") j) (get (text "replicas") j) (get (text "environment") j)
    else none

pub record Translated : Type 0 where
  pub intent : Intent
  pub translator : Text
  pub warnings : List Text

-- `explain` is the text of Pydantic's refusal.
module _ (explain : Json → Text) (translator : Translator) where
  conclude : (dropped : List Text) → Json → Option Intent → Translation Translated
  conclude dropped fields none =
      rejected (text "candidate failed intent validation: " ++ explain fields)
  conclude dropped fields (some i) =
      accepted
        (record { intent = i; translator = translator.name; warnings = warnings_for i dropped })

  unfoldable pub translate : Text → Translation Translated
  unfolding conclude dropped_of dropped_among
  translate t =
      if is_empty t || is_empty (strip t)
      then rejected (text "text is empty")
      else if ltb max_text_length (length t)
      then rejected (
          text "text is "
          ++ (show (length t)
              ++ (text " characters, over the " ++ (show max_text_length ++ text " limit"))))
      else and_then (translator.propose t) (λ candidate.
        and_then (pick_fields candidate)
          (λ fields. conclude (dropped_of candidate) fields (validate fields)))
