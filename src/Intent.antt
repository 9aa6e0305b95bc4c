-- ===== src/Intent.antt =====
-- orchestrator/intent.py: the schema of an intent, and the parts of one.
pub mod Laws
use nf_orchestrator.Prelude.{
  ℕ, Bool, true, false, ◌&&◌, ◌||◌, [], ◌∷◌, List, leb, ◌==◌, if◌then◌else◌, length, all, any,
}
use nf_orchestrator.Text.{Text, text, one_of}

pub record Intent : Type 0 where
  pub name : Text
  pub replicas : ℕ
  pub environment : Text

abbrev name_max_length : ℕ
name_max_length = 53

abbrev pub environments : List Text
environments = text "dev" ∷ text "staging" ∷ text "prod" ∷ []

-- `[a-z0-9]`
abbrev pub is_alnum : ℕ → Bool
is_alnum c = (leb b'a' c && leb c b'z') || (leb b'0' c && leb c b'9')

-- `[-a-z0-9]`
abbrev pub is_name_char : ℕ → Bool
is_name_char c = c == b'-' || is_alnum c

-- The rest of a name behind its first character: `([-a-z0-9]*[a-z0-9])?$`.
unfoldable pub matches_tail : Text → Bool
matches_tail [] = true
matches_tail (c ∷ []) = is_alnum c
matches_tail (c ∷ d ∷ s) = is_name_char c && matches_tail (d ∷ s)

-- `NAME_PATTERN`
unfoldable pub matches_name : Text → Bool
unfolding matches_tail
matches_name [] = false
matches_name (c ∷ s) = is_alnum c && matches_tail s

-- What `Intent.model_validate` accepts of three fields of the right types.
unfoldable pub is_valid : Intent → Bool
unfolding matches_name one_of
is_valid i =
    matches_name i.name
    && leb (length i.name) name_max_length
    && leb 1 i.replicas
    && leb i.replicas 10
    && one_of i.environment environments
