-- ===== src/Payloads.antt =====
-- scripts/intent_validate.py: a few payloads put to the schema of an intent. How a payload, an
-- intent and a refusal are printed is given.
use nf_orchestrator.Prelude.{List, [], ◌∷◌, ◌++◌, Option, none, some}
use nf_orchestrator.Text.{Text, text}
use nf_orchestrator.Json.{Json, Fields, num, str, obj, end, field}
use nf_orchestrator.Intent.{Intent}
use nf_orchestrator.Translate.{validate}

abbrev payload : Fields → Json
payload fields = obj (field (text "name") (str (text "sample-nf")) fields)

abbrev pub payloads : List (Text × Json)
payloads =
    (
      text "valid",
      payload (field (text "replicas") (num 2) (field (text "environment") (str (text "dev")) end)),
    )
    ∷ (text "missing_required_field", payload (field (text "environment") (str (text "dev")) end))
    ∷ (
      text "wrong_type",
      payload (
          field (text "replicas") (str (text "two"))
            (field (text "environment") (str (text "dev")) end)),
    )
    ∷ (
      text "bad_enum_value",
      payload (
          field (text "replicas") (num 2)
            (field (text "environment") (str (text "production")) end)),
    )
    ∷ []

module _ (print_payload : Json → Text) (print_intent : Intent → Text)
    (print_error : Json → Text) where
  abbrev verdict : Json → Option Intent → List Text
  verdict payload none = text "REJECTED:" ∷ print_error payload ∷ []
  verdict payload (some intent) = (text "ACCEPTED: " ++ print_intent intent) ∷ []

  -- The lines for one payload.
  abbrev lines_of : Text × Json → List Text
  lines_of (label, payload) =
      (text "--- " ++ (label ++ text " ---"))
      ∷ print_payload payload
      ∷ (verdict payload (validate payload) ++ [] ∷ [])

  abbrev print_all : List (Text × Json) → List Text
  print_all [] = []
  print_all (p ∷ ps) = lines_of p ++ print_all ps

  -- What `main` prints, line by line.
  abbrev pub run : List Text
  run = print_all payloads
