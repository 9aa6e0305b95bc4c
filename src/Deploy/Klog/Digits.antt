-- ===== src/Deploy/Klog/Digits.antt =====
-- What the parsers of digits read back.
use nf_orchestrator.Prelude.{
  ℕ, zero, suc, ◌+◌, ◌-◌, ◌*◌, ◌/◌, ◌%◌, ◌≡◌, ◌<◌, refl, ap, ◌∙◌, Bool, true, not, [], ◌∷◌, ◌++◌,
  some, arith, append_assoc, ltb, Bool-cases, inl, inr,
}
use nf_orchestrator.Text.{Text, show, digits}
use nf_orchestrator.Deploy.Klog.{is_digit, fixed_digits, digit_run, some_digits}

-- A number in a field of `n` digits.
abbrev pub padded : ℕ → ℕ → Text
padded zero v = []
padded (suc n) v = padded n (v / 10) ++ (b'0' + v % 10) ∷ []

abbrev pub pow10 : ℕ → ℕ
pow10 zero = 1
pow10 (suc n) = 10 * pow10 n

fixed_digits-digit :
    (k acc d : ℕ) (t : Text)
    → d < 10
    → fixed_digits (suc k) acc ((b'0' + d) ∷ t) ≡ fixed_digits k (acc * 10 + d) t
unfolding fixed_digits
fixed_digits-digit k acc d t small =
    let e : b'0' + d - b'0' ≡ d = omega arith in
    let digit : is_digit (b'0' + d) ≡ true = ground arith in rw (digit, e) refl

fixed_digits-padded :
    (n k v : ℕ) (t : Text)
    → v < pow10 n
    → fixed_digits (n + k) 0 (padded n v ++ t) ≡ fixed_digits k v t
fixed_digits-padded zero k v t small =
    let e : zero + k ≡ k = omega arith in let z : v ≡ 0 = omega arith in rw (e, z) refl
fixed_digits-padded (suc n) k v t small =
    let e : suc n + k ≡ n + suc k = omega arith in
    let whole : v / 10 * 10 + v % 10 ≡ v = omega arith in
    let less : v / 10 < pow10 n = omega arith in
    let last : v % 10 < 10 = omega arith in
    rw
      (
        e,
        append_assoc (padded n (v / 10)) ((b'0' + v % 10) ∷ []) t,
        fixed_digits-padded n (suc k) (v / 10) ((b'0' + v % 10) ∷ t) less,
        fixed_digits-digit k (v / 10) (v % 10) t last,
        whole,
      )
      refl

pub read_digits :
    (n v : ℕ) (t : Text) → v < pow10 n → fixed_digits n 0 (padded n v ++ t) ≡ some (v, t)
unfolding fixed_digits
read_digits n v t small =
    let e : n ≡ n + 0 = omega arith in
    ap (λ k. fixed_digits k 0 (padded n v ++ t)) e ∙ fixed_digits-padded n 0 v t small

-- A text that does not begin with a digit.
abbrev pub ends_number : Text → Bool
ends_number [] = true
ends_number (c ∷ t) = not (is_digit c)

digit_run-end : (n : ℕ) (t : Text) → ends_number t ≡ true → digit_run n t ≡ (n, t)
unfolding digit_run
digit_run-end n [] h = refl
digit_run-end n (c ∷ t) h = ground arith

digit_run-digit :
    (acc d : ℕ) (t : Text) → d < 10 → digit_run acc ((b'0' + d) ∷ t) ≡ digit_run (acc * 10 + d) t
unfolding digit_run
digit_run-digit acc d t small =
    let e : b'0' + d - b'0' ≡ d = omega arith in
    let digit : is_digit (b'0' + d) ≡ true = ground arith in rw (digit, e) refl

digit_run-digits :
    (fuel n : ℕ) (t : Text) → n < fuel → digit_run 0 (digits fuel n ++ t) ≡ digit_run n t
unfolding digits
digit_run-digits zero n t enough = absurd (omega arith)
digit_run-digits (suc fuel) n t enough = elim (Bool-cases (ltb n 10)) [
  | inl small ↦
      let less : n < 10 = ground arith in
      let same : 0 * 10 + n ≡ n = omega arith in
      rw (small) (digit_run-digit 0 n t less ∙ ap (λ k. digit_run k t) same)
  | inr large ↦
      let less : n / 10 < fuel = ground arith in
      let last : n % 10 < 10 = omega arith in
      let whole : n / 10 * 10 + n % 10 ≡ n = omega arith in
      rw
        (
          large,
          append_assoc (digits fuel (n / 10)) ((b'0' + n % 10) ∷ []) t,
          digit_run-digits fuel (n / 10) ((b'0' + n % 10) ∷ t) less,
          digit_run-digit (n / 10) (n % 10) t last,
          whole,
        )
        refl
]

-- The digits of a number begin with a digit.
digits-start :
    (fuel n : ℕ) (t : Text)
    → n < fuel
    → (c : ℕ) × (r : Text) × (digits fuel n ++ t ≡ c ∷ r) × (is_digit c ≡ true)
unfolding digits
digits-start zero n t enough = absurd (omega arith)
digits-start (suc fuel) n t enough = elim (Bool-cases (ltb n 10)) [
  | inl small ↦ rw (small) (b'0' + n, t, refl, ground arith)
  | inr large ↦
      let less : n / 10 < fuel = ground arith in
      rw (large, append_assoc (digits fuel (n / 10)) ((b'0' + n % 10) ∷ []) t)
        (digits-start fuel (n / 10) ((b'0' + n % 10) ∷ t) less)
]

some_digits-start :
    (s : Text) (c : ℕ) (r : Text) (x : ℕ × Text)
    → s ≡ c ∷ r
    → is_digit c ≡ true
    → digit_run 0 s ≡ x
    → some_digits s ≡ some x
unfolding some_digits
some_digits-start [] c r x e digit run = absurd (ground arith)
some_digits-start (d ∷ u) c r x e digit run = ground (arith, e, digit, run)

pub some_digits-show :
    (n : ℕ) (t : Text) → ends_number t ≡ true → some_digits (show n ++ t) ≡ some (n, t)
unfolding show
some_digits-show n t h =
    let enough : n < suc n = omega arith in
    let (c, r, e, digit) = digits-start (suc n) n t enough in
    some_digits-start (digits (suc n) n ++ t) c r (n, t) e digit
      (digit_run-digits (suc n) n t enough ∙ digit_run-end n t h)
