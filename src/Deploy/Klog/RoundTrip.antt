-- ===== src/Deploy/Klog/RoundTrip.antt =====
-- What the regular expressions read back from the lines that kubectl and helm print.
use nf_orchestrator.Prelude.{
  ℕ, ◌+◌, ◌*◌, ◌/◌, ◌%◌, ◌≡◌, ◌<◌, refl, ◌∙◌, Bool, true, false, not, [], ◌∷◌, ◌++◌, Option, none,
  some, arith, all, ◌==◌,
}
use nf_orchestrator.Text.{Text, text, show}
use nf_orchestrator.Deploy.Klog.{
  after, until_quote, search_from, ends_with, is_severity, severity, first_line, first_stamp,
  response, round_trip, half_day, day, startup_delay, helm_version, word,
}
use nf_orchestrator.Deploy.Klog.Laws.{fold_midnight-exact}
use nf_orchestrator.Deploy.Klog.Digits.{padded, pow10, read_digits, ends_number, some_digits-show}

-- A line of klog: a severity, the month and the day in four digits, and a time of day.
abbrev pub stamped : (severity date time : ℕ) → Text → Text
stamped severity date time rest =
    severity
    ∷ (padded 4 date
        ++ (text " "
            ++ (padded 2 (time / 3_600_000_000)
                ++ (text ":"
                    ++ (padded 2 (time / 60_000_000 % 60)
                        ++ (text ":"
                            ++ (padded 2 (time / 1_000_000 % 60)
                                ++ (text "." ++ (padded 6 (time % 1_000_000) ++ rest)))))))))

first_line-stamped :
    (c date time : ℕ) (rest : Text)
    → is_severity c ≡ true
    → date < 10_000
    → time < day
    → first_line (stamped c date time rest) ≡ some time
unfolding first_line severity after text
first_line-stamped c date time rest known dated timed =
    let whole : (time / 3_600_000_000 * 3600 + time / 60_000_000 % 60 * 60 + time / 1_000_000 % 60)
            * 1_000_000
          + time % 1_000_000
        ≡ time =
      omega arith in
    let hours : time / 3_600_000_000 < pow10 2 = omega arith in
    let minutes : time / 60_000_000 % 60 < pow10 2 = omega arith in
    let seconds : time / 1_000_000 % 60 < pow10 2 = omega arith in
    let micros : time % 1_000_000 < pow10 6 = omega arith in
    let dates : date < pow10 4 = omega arith in
    rw
      (
        known,
        read_digits 4 date _ dates,
        read_digits 2 (time / 3_600_000_000) _ hours,
        read_digits 2 (time / 60_000_000 % 60) _ minutes,
        read_digits 2 (time / 1_000_000 % 60) _ seconds,
        read_digits 6 (time % 1_000_000) rest micros,
        whole,
      )
      refl

-- Of a log that begins with a line that klog stamped, with one of its severities and a date of four
-- digits, less than half a day after kubectl was spawned, `startup_delay` reads the delay exactly,
-- also where midnight lies between the two.
pub startup_delay-stamped :
    (c date at delay : ℕ) (rest : Text)
    → is_severity c ≡ true
    → date < 10_000
    → delay < half_day
    → startup_delay (stamped c date ((at + delay) % day) rest) (at % day) ≡ some delay
unfolding startup_delay first_stamp
startup_delay-stamped c date at delay rest known dated short =
    let timed : (at + delay) % day < day = omega arith in
    rw
      (
        first_line-stamped c date ((at + delay) % day) rest known dated timed,
        fold_midnight-exact at delay short,
      )
      refl

-- The line in which client-go logs a response.
abbrev pub response_line : (url status : Text) (millis : ℕ) → Text → Text
response_line url status millis rest =
    text "\"Response\" verb=\"GET\" url=\""
    ++ (url
        ++ (text "\""
            ++ (text " status=\""
                ++ (status ++ (text "\"" ++ (text " milliseconds=" ++ (show millis ++ rest)))))))

abbrev has_no_quote : Text → Bool
has_no_quote = all (λ c. not (c == b'"'))

until_quote-append :
    (s t : Text) → has_no_quote s ≡ true → until_quote (s ++ (b'"' ∷ t)) ≡ some (s, t)
unfolding until_quote
until_quote-append [] t h = refl
until_quote-append (c ∷ s) t h =
    let other : (c == b'"') ≡ false = ground (arith, h) in
    let later : has_no_quote s ≡ true = ground (arith, h) in
    rw (other, until_quote-append s t later) refl

response-line :
    (url status : Text) (millis : ℕ) (rest : Text)
    → has_no_quote url ≡ true
    → has_no_quote status ≡ true
    → ends_with (text "/readyz") url ≡ true
    → ends_number rest ≡ true
    → response (response_line url status millis rest) ≡ some millis
unfolding response after text
response-line url status millis rest u v w h =
    rw
      (until_quote-append url _ u, w, until_quote-append status _ v, some_digits-show millis rest h)
      refl

search_from-later :
    {A : Type 0} (m : Text → Option A) (c : ℕ) (t : Text)
    → m (c ∷ t) ≡ none
    → search_from m (c ∷ t) ≡ search_from m t
unfolding search_from
search_from-later m c t h = rw (h) refl

search_from-found :
    {A : Type 0} (m : Text → Option A) (t : Text) (a : A) → m t ≡ some a → search_from m t ≡ some a
unfolding search_from
search_from-found m [] a h = h
search_from-found m (c ∷ t) a h = rw (h) refl

response-other : (c : ℕ) (t : Text) → (c == b'"') ≡ false → response (c ∷ t) ≡ none
unfolding response after text
response-other c t h = let flipped : (b'"' == c) ≡ false = ground (arith, h) in rw (flipped) refl

search_from-response :
    (header t : Text)
    → has_no_quote header ≡ true
    → search_from response (header ++ t) ≡ search_from response t
search_from-response [] t h = refl
search_from-response (c ∷ header) t h =
    let other : (c == b'"') ≡ false = ground (arith, h) in
    let later : has_no_quote header ≡ true = ground (arith, h) in
    search_from-later response c (header ++ t) (response-other c (header ++ t) other)
    ∙ search_from-response header t later

-- Of a log in which a header without quotes is followed by the response to a probe, with a URL that
-- ends with `/readyz` and no quote in it or in the status, the round trip is read as the number of
-- milliseconds that the line gives, whatever follows that number that is no digit.
pub round_trip-line :
    (header url status : Text) (millis : ℕ) (rest : Text)
    → has_no_quote header ≡ true
    → has_no_quote url ≡ true
    → has_no_quote status ≡ true
    → ends_with (text "/readyz") url ≡ true
    → ends_number rest ≡ true
    → round_trip (header ++ response_line url status millis rest) ≡ some (millis * 1000)
unfolding round_trip
round_trip-line header url status millis rest before u v w h =
    rw
      (
        search_from-response header (response_line url status millis rest) before,
        search_from-found response (response_line url status millis rest) millis
            (response-line url status millis rest u v w h),
      )
      refl

-- What `helm version --short` prints of a version, and what follows it.
abbrev pub version_line : (major minor patch : ℕ) → Text → Text
version_line major minor patch rest =
    text "v" ++ (show major ++ (text "." ++ (show minor ++ (text "." ++ (show patch ++ rest)))))

-- The major version of helm is read back from the line that gives it.
pub helm_version-line :
    (major minor patch : ℕ) (rest : Text)
    → ends_number rest ≡ true
    → helm_version (version_line major minor patch rest)
      ≡ some (major, word (version_line major minor patch rest))
unfolding helm_version after text
helm_version-line major minor patch rest h =
    rw
      (
        some_digits-show major (text "." ++ (show minor ++ (text "." ++ (show patch ++ rest))))
            refl,
        some_digits-show minor (text "." ++ (show patch ++ rest)) refl,
        some_digits-show patch rest h,
      )
      refl
