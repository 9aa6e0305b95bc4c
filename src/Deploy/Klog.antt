-- ===== src/Deploy/Klog.antt =====
-- The regular expressions of orchestrator/deploy.py, as functions of the text, and what is read
-- from kubectl's log with them. `\d` is an ASCII digit.
pub mod Laws
pub mod Digits
pub mod RoundTrip
use nf_orchestrator.Prelude.{
  ℕ, zero, suc, ◌+◌, ◌-◌, ◌*◌, Bool, not, ◌&&◌, ◌||◌, [], ◌∷◌, map, Option, none, some, ltb, leb,
  ◌==◌, if◌then◌else◌, is_none, is_empty, keep,
}
use nf_orchestrator.Text.{Text, text, text_eq, strip, splitlines, join, is_space}

abbrev is_digit : ℕ → Bool
is_digit c = leb b'0' c && leb c b'9'

-- What follows a literal prefix.
unfoldable pub after : Text → Text → Option Text
after [] t = some t
after (a ∷ s) [] = none
after (a ∷ s) (b ∷ t) = let rest = after s t in if a == b then rest else none

infixl 5 ◌>>=◌
abbrev pub ◌>>=◌ : {A B : Type 0} → Option A → (A → Option B) → Option B
none >>= f = none
some a >>= f = f a

-- `(\d{n})`, on the value read so far.
unfoldable pub fixed_digits : ℕ → ℕ → Text → Option (ℕ × Text)
fixed_digits zero acc t = some (acc, t)
fixed_digits (suc n) acc [] = none
fixed_digits (suc n) acc (c ∷ t) =
    let rest = fixed_digits n (acc * 10 + (c - b'0')) t in if is_digit c then rest else none

-- `\d*`, on the value read so far.
unfoldable pub digit_run : ℕ → Text → ℕ × Text
digit_run acc [] = (acc, [])
digit_run acc (c ∷ t) =
    let rest = digit_run (acc * 10 + (c - b'0')) t in if is_digit c then rest else (acc, c ∷ t)

-- `(\d+)`
unfoldable pub some_digits : Text → Option (ℕ × Text)
unfolding digit_run
some_digits [] = none
some_digits (c ∷ t) = if is_digit c then some (digit_run 0 (c ∷ t)) else none

-- `([^"]*)"`, with the quote dropped.
unfoldable pub until_quote : Text → Option (Text × Text)
until_quote [] = none
until_quote (c ∷ t) =
    if c == b'"' then some ([], t) else (do (s, rest) ← until_quote t; some (c ∷ s, rest))

unfoldable pub ends_with : Text → Text → Bool
unfolding text_eq
ends_with suffix [] = text_eq suffix []
ends_with suffix (c ∷ t) = text_eq suffix (c ∷ t) || ends_with suffix t

abbrev or_later : {A : Type 0} → Option A → Option A → Option A
or_later none later = later
or_later (some a) later = some a

-- `pattern.search(log)`: the first place at which the pattern matches.
unfoldable pub search_from : {A : Type 0} → (Text → Option A) → Text → Option A
search_from m [] = m []
search_from m (c ∷ t) = or_later (m (c ∷ t)) (search_from m t)

-- The same under `re.MULTILINE` with `^`: only at the start and behind each LF.
search_lines : {A : Type 0} → (Text → Option A) → Text → Option A
search_lines m [] = none
search_lines m (c ∷ t) =
    let later = search_lines m t in if c == 10 then or_later (m t) later else later

abbrev is_severity : ℕ → Bool
is_severity c = c == b'I' || c == b'W' || c == b'E' || c == b'F'

severity : Text → Option Text
severity [] = none
severity (c ∷ t) = if is_severity c then some t else none

-- `FIRST_LINE.match(line)`, as the microseconds of the local day that the stamp says.
unfoldable pub first_line : Text → Option ℕ
unfolding severity fixed_digits after text
first_line line = do
  t ← severity line
  (_, t) ← fixed_digits 4 0 t
  t ← after (text " ") t
  (hour, t) ← fixed_digits 2 0 t
  t ← after (text ":") t
  (minute, t) ← fixed_digits 2 0 t
  t ← after (text ":") t
  (second, t) ← fixed_digits 2 0 t
  t ← after (text ".") t
  (micros, _) ← fixed_digits 6 0 t
  some ((hour * 3600 + minute * 60 + second) * 1_000_000 + micros)

-- `FIRST_LINE.search(log)`
unfoldable pub first_stamp : Text → Option ℕ
unfolding first_line search_lines
first_stamp log = or_later (first_line log) (search_lines first_line log)

-- `ROUND_TRIP` at the start of a text, as its milliseconds.
response : Text → Option ℕ
unfolding after until_quote ends_with some_digits text
response t = do
  t ← after (text "\"Response\" verb=\"GET\" url=\"") t
  (url, t) ← until_quote t
  t ← (if ends_with (text "/readyz") url then some t else none)
  t ← after (text " status=\"") t
  (_, t) ← until_quote t
  t ← after (text " milliseconds=") t
  (millis, _) ← some_digits t
  some millis

-- `_round_trip(log)`, in microseconds.
unfoldable pub round_trip : Text → Option ℕ
unfolding search_from response
round_trip log = do millis ← search_from response log; some (millis * 1000)

-- Half a day and a day.
abbrev pub half_day : ℕ
half_day = 43_200_000_000

abbrev pub day : ℕ
day = 86_400_000_000

-- From one time of day to another, folded at midnight; a negative delay is no delay. The two
-- branches are `delay >= 0` and `delay < 0`.
unfoldable pub fold_midnight : (first at_spawn : ℕ) → ℕ
fold_midnight first at_spawn =
    if leb at_spawn first
    then (let delay = first - at_spawn in if ltb half_day delay then delay - day else delay)
    else (let behind = at_spawn - first in if ltb half_day behind then day - behind else 0)

unfoldable pub startup_delay : Text → ℕ → Option ℕ
unfolding first_stamp fold_midnight
startup_delay log at_spawn = do first ← first_stamp log; some (fold_midnight first at_spawn)

-- The text up to the first whitespace.
unfoldable pub word : Text → Text
word [] = []
word (c ∷ t) = let rest = c ∷ word t in if is_space c then [] else rest

-- `HELM_VERSION.match(reported)`: the major version and the text that matched.
unfoldable pub helm_version : Text → Option (ℕ × Text)
unfolding after some_digits text word
helm_version reported = do
  t ← after (text "v") reported
  (major, t) ← some_digits t
  t ← after (text ".") t
  (_, t) ← some_digits t
  t ← after (text ".") t
  (_, _) ← some_digits t
  some (major, word reported)

-- `_error_text(log)`
unfoldable pub error_text : Text → Text
unfolding first_line strip splitlines join
error_text log = join (text "\n") (
    map strip
      (keep (λ line. not (is_empty (strip line)) && is_none (first_line line)) (splitlines log)))
