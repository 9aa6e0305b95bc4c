-- ===== src/Translate/Words.antt =====
-- The regular expressions of orchestrator/translate.py, on text in lower case: `\b`, `\s`, `\d` and
-- the letters are those of ASCII. A match that ignores case and is then lowered is a match in the
-- lowered text.
pub mod Laws
use nf_orchestrator.Prelude.{
  ℕ, ◌-◌, Bool, true, false, not, ◌&&◌, ◌||◌, [], ◌∷◌, List, Option, none, some, leb, ◌==◌,
  if◌then◌else◌, length,
}
use nf_orchestrator.Text.{Text, text, is_space}
use nf_orchestrator.Deploy.Klog.{after, digit_run}
use nf_orchestrator.Intent.{is_alnum, is_name_char}

-- `\w`, of a text without capital letters
abbrev pub is_word : ℕ → Bool
is_word c = is_alnum c || c == b'_'

abbrev pub begins_in_word : Text → Bool
begins_in_word [] = false
begins_in_word (c ∷ _) = is_word c

abbrev or_later : {A : Type 0} → Option A → Option A → Option A
or_later none later = later
or_later (some a) later = some a

abbrev put : ℕ → Option Text → Option Text
put c none = none
put c (some s) = some (c ∷ s)

-- A word, up to a boundary.
abbrev ends_there : Option Text → Bool
ends_there none = false
ends_there (some rest) = not (begins_in_word rest)

-- `re.search(rf"\b{word}\b", text)`, behind a character that is part of a word or is not.
unfoldable pub mentions_from : (in_word : Bool) → (word : Text) → Text → Bool
unfolding after
mentions_from in_word word [] = false
mentions_from in_word word (c ∷ t) =
    let later = mentions_from (is_word c) word t in
    (not in_word && ends_there (after word (c ∷ t))) || later

unfoldable pub mentions_word : (word : Text) → Text → Bool
mentions_word word lowered = mentions_from false word lowered

abbrev is_short : Text → ℕ × Text → Option ℕ
is_short t (n, rest) =
    if leb (length t - length rest) 3 && not (begins_in_word rest) then some n else none

-- `(\d{1,3})\b`; fewer digits than there are would end inside a word.
unfoldable pub number_at : Text → Option ℕ
unfolding digit_run
number_at [] = none
number_at (c ∷ t) =
    if leb b'0' c && leb c b'9' then is_short (c ∷ t) (digit_run 0 (c ∷ t)) else none

abbrev add_number : Option ℕ → List ℕ → List ℕ
add_number none ns = ns
add_number (some n) ns = n ∷ ns

-- `COUNT.findall`, as numbers
unfoldable pub numbers_from : (in_word : Bool) → Text → List ℕ
unfolding number_at
numbers_from in_word [] = []
numbers_from in_word (c ∷ t) =
    let later = numbers_from (is_word c) t in
    if in_word then later else add_number (number_at (c ∷ t)) later

unfoldable pub skip_spaces : Text → Text
skip_spaces [] = []
skip_spaces (c ∷ t) = let rest = skip_spaces t in if is_space c then rest else c ∷ t

-- `[-a-z0-9]*`
unfoldable pub name_run : Text → Text
name_run [] = []
name_run (c ∷ t) = let rest = c ∷ name_run t in if is_name_char c then rest else []

abbrev name_at : Text → Option Text
name_at [] = none
name_at (c ∷ t) = if is_alnum c then some (c ∷ name_run t) else none

-- `\s+(?P<name>[a-z0-9][-a-z0-9]*)`
abbrev spaced_name : Option Text → Option Text
spaced_name none = none
spaced_name (some []) = none
spaced_name (some (c ∷ t)) = if is_space c then name_at (skip_spaces t) else none

-- `NAME_HINT` at the start of a text
unfoldable pub hint_at : Text → Option Text
unfolding after skip_spaces name_run text
hint_at t =
    or_later (spaced_name (after (text "called") t))
      (or_later (spaced_name (after (text "named") t)) (spaced_name (after (text "name") t)))

-- `NAME_HINT.search(text)`
unfoldable pub hint_from : (in_word : Bool) → Text → Option Text
unfolding hint_at
hint_from in_word [] = none
hint_from in_word (c ∷ t) =
    let later = hint_from (is_word c) t in
    if in_word then later else or_later (hint_at (c ∷ t)) later

abbrev if_grouped : Bool → Option Text
if_grouped true = some []
if_grouped false = none

-- `NAME_TOKEN` behind its first character: whether a group `-[a-z0-9]+` is complete, and whether a
-- dash was just read. The longest match comes first.
unfoldable token_rest : (grouped dashed : Bool) → Text → Option Text
token_rest grouped true [] = none
token_rest grouped false [] = if_grouped grouped
token_rest grouped true (c ∷ t) =
    let rest = token_rest true false t in if is_alnum c then put c rest else none
token_rest grouped false (c ∷ t) =
    let same = token_rest grouped false t in
    let dash = token_rest grouped true t in
    if is_alnum c
    then put c same
    else if c == b'-'
    then or_later (put c dash) (if_grouped grouped)
    else if is_word c
    then none
    else if_grouped grouped

-- `NAME_TOKEN.search(text)`
unfoldable pub token_from : (in_word : Bool) → Text → Option Text
unfolding token_rest
token_from in_word [] = none
token_from in_word (c ∷ t) =
    let later = token_from (is_word c) t in
    if in_word
    then later
    else if is_alnum c
    then or_later (put c (token_rest false false t)) later
    else later
