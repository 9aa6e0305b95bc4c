-- ===== src/Text.antt =====
-- Python's `str`, as the list of its code points, with the methods that the program calls.
-- `lower` and `strip` know ASCII letters and whitespace.
pub mod Laws
use Prim.Native.Char.{code}
use nf_orchestrator.Prelude.{
  ℕ, zero, suc, ◌+◌, ◌-◌, ◌/◌, ◌%◌, String, Bool, true, false, not, ◌&&◌, ◌||◌, List, [], ◌∷◌, ◌++◌,
  map, Option, none, some, ltb, leb, ◌==◌, if◌then◌else◌, take, any, keep,
}

abbrev pub Text : Type 0
Text = List ℕ

-- A literal.
unfoldable pub text : String → Text
text String.[] = []
text (String.◌∷◌ c s) = code c ∷ text s

-- `s == t`
unfoldable pub text_eq : Text → Text → Bool
text_eq [] [] = true
text_eq (a ∷ s) (b ∷ t) = a == b && text_eq s t
text_eq _ _ = false

-- `s in ts` for a tuple or a frozenset of texts
unfoldable pub one_of : Text → List Text → Bool
unfolding text_eq
one_of s ts = any (text_eq s) ts

unfoldable pub starts_with : Text → Text → Bool
starts_with [] t = true
starts_with (a ∷ s) [] = false
starts_with (a ∷ s) (b ∷ t) = a == b && starts_with s t

-- `needle in s`
unfoldable pub contains : Text → Text → Bool
unfolding starts_with
contains needle [] = starts_with needle []
contains needle (c ∷ s) = starts_with needle (c ∷ s) || contains needle s

abbrev is_upper : ℕ → Bool
is_upper c = leb b'A' c && leb c b'Z'

unfoldable pub lower : Text → Text
lower = map (λ c. if is_upper c then c + 32 else c)

abbrev pub is_space : ℕ → Bool
is_space c = c == 32 || (leb 9 c && leb c 13) || (leb 28 c && leb c 31) || c == 0x85 || c == 0xa0

unfoldable lstrip : Text → Text
lstrip [] = []
lstrip (c ∷ s) = let rest = lstrip s in if is_space c then rest else c ∷ s

abbrev rstrip_cons : ℕ → Text → Text
rstrip_cons c [] = if is_space c then [] else c ∷ []
rstrip_cons c (d ∷ r) = c ∷ d ∷ r

unfoldable rstrip : Text → Text
rstrip [] = []
rstrip (c ∷ s) = rstrip_cons c (rstrip s)

unfoldable pub strip : Text → Text
unfolding lstrip rstrip
strip s = rstrip (lstrip s)

-- Line ends of `splitlines`, where CR LF counts once; the empty rest after the last one is no line.
abbrev is_line_end : ℕ → Bool
is_line_end c =
    (leb 10 c && leb c 13) || (leb 28 c && leb c 30) || c == 0x85 || c == 0x2028 || c == 0x2029

abbrev push_char : ℕ → List Text → List Text
push_char c [] = (c ∷ []) ∷ []
push_char c (l ∷ ls) = (c ∷ l) ∷ ls

-- Drops the LF of a CR LF, which `splitlines` takes as one end.
abbrev join_crlf : Text → Text
join_crlf [] = []
join_crlf (c ∷ []) = c ∷ []
join_crlf (c ∷ d ∷ s) =
    let rest = join_crlf s in
    let kept = join_crlf (d ∷ s) in if c == 13 && d == 10 then c ∷ rest else c ∷ kept

split_ends : Text → List Text
split_ends [] = []
split_ends (c ∷ s) =
    let rest = split_ends s in if is_line_end c then [] ∷ rest else push_char c rest

unfoldable pub splitlines : Text → List Text
unfolding split_ends
splitlines s = split_ends (join_crlf s)

-- `s.split(sep)[0]`
unfoldable pub before : Text → Text → Text
unfolding starts_with
before sep [] = []
before sep (c ∷ s) = let rest = c ∷ before sep s in if starts_with sep (c ∷ s) then [] else rest

-- `sep.join(parts)`
unfoldable pub join : Text → List Text → Text
join sep [] = []
join sep (s ∷ []) = s
join sep (s ∷ t ∷ ts) = s ++ sep ++ join sep (t ∷ ts)

-- `str(n)` of an `int` that is not negative. A number has at most as many digits as its value plus
-- one, so the fuel does not run out.
unfoldable pub digits : ℕ → ℕ → Text
digits zero n = []
digits (suc f) n =
    let higher = digits f (n / 10) in
    if ltb n 10 then (b'0' + n) ∷ [] else higher ++ (b'0' + n % 10) ∷ []

unfoldable pub show : ℕ → Text
unfolding digits
show n = digits (suc n) n
