-- ===== src/Json.antt =====
-- Values of `json.loads`, which the program takes apart with `[...]` and `.get`. Numbers are the
-- integers, `neg n` for -(n + 1); those that helm and kubectl give are read as non-negative.
pub mod Laws
use nf_orchestrator.Prelude.{
  ℕ, Bool, true, false, Option, none, some, List, [], ◌∷◌, not, ◌==◌, if◌then◌else◌, is_empty,
}
use nf_orchestrator.Text.{Text, text_eq}

mutual
  pub data Json : Type 0 where
    null : Json
    bool : Bool → Json
    num : ℕ → Json
    neg : ℕ → Json
    str : Text → Json
    arr : Items → Json
    obj : Fields → Json

  pub data Items : Type 0 where
    nil : Items
    cons : Json → Items → Items

  pub data Fields : Type 0 where
    end : Fields
    field : Text → Json → Fields → Fields

abbrev pub or_else : Option Json → Option Json → Option Json
or_else none o = o
or_else (some v) _ = some v

-- `d.get(key)` on an object; a decoder keeps the last of two equal keys.
lookup_field : Text → Fields → Option Json
lookup_field key end = none
lookup_field key (field k v fs) =
    or_else (lookup_field key fs) (if text_eq key k then some v else none)

unfoldable pub get : Text → Json → Option Json
unfolding lookup_field
get key (obj fs) = lookup_field key fs
get key _ = none

abbrev pub elements : Items → List Json
elements nil = []
elements (cons j js) = j ∷ elements js

unfoldable pub as_list : Json → Option (List Json)
as_list (arr js) = some (elements js)
as_list _ = none

unfoldable pub as_text : Json → Option Text
as_text (str s) = some s
as_text _ = none

unfoldable pub as_num : Json → Option ℕ
as_num (num n) = some n
as_num _ = none

-- Python's truth of a value.
unfoldable pub truthy : Json → Bool
truthy null = false
truthy (bool b) = b
truthy (num n) = not (n == 0)
truthy (neg _) = true
truthy (str s) = not (is_empty s)
truthy (arr nil) = false
truthy (arr (cons _ _)) = true
truthy (obj end) = false
truthy (obj (field _ _ _)) = true
