-- ===== src/Json/Laws.antt =====
-- Looking a field up, where the object was put together field by field.
use nf_orchestrator.Prelude.{◌≡◌, refl, none, some, if◌then◌else◌}
use nf_orchestrator.Text.{Text, text_eq}
use nf_orchestrator.Json.{Json, Fields, obj, end, field, or_else, get}

pub get-end : (key : Text) → get key (obj end) ≡ none
unfolding get
get-end key = refl

pub get-field :
    (key k : Text) (v : Json) (fs : Fields)
    → get key (obj (field k v fs))
      ≡ or_else (get key (obj fs)) (if text_eq key k then some v else none)
unfolding get
get-field key k v fs = refl
