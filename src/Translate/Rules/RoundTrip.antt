-- ===== src/Translate/Rules/RoundTrip.antt =====
-- The rules on a sentence that says what an intent holds.
use nf_orchestrator.Prelude.{
  ◌≤◌, ◌≡◌, refl, ap, true, false, [], ◌∷◌, ◌++◌, arith, tests, all, leb, some, length, is_empty,
  length-append,
}
use nf_orchestrator.Text.{Text, text, text_eq, one_of, lower, show, strip}
use nf_orchestrator.Json.{Json, get}
use nf_orchestrator.Intent.{Intent, is_valid, is_alnum, is_name_char}
use nf_orchestrator.Intent.Laws.{first, matches_name_lem}
use nf_orchestrator.Translate.Words.{hint_from, hint_at}
use nf_orchestrator.Deploy.Klog.{after}
use nf_orchestrator.Translate.Words.Laws.{name_run-append, skip_spaces-word}
use nf_orchestrator.Translate.{accepted, dropped_of, translate, warnings_for}
use nf_orchestrator.Translate.Accepts.{translate-takes}
use nf_orchestrator.Translate.Rules.{set_of, counts_of, proposal, propose_by_rules, rules}
use nf_orchestrator.Translate.Rules.Sentence.{
  IsLower, IsSilent, sentence, sentence-Says, environment_lem, count_lem, IsLower-append,
  name-IsLower,
}

valid_name :
    (i : Intent)
    → is_valid i ≡ true
    → (first is_alnum i.name ≡ true)
      × (all is_name_char i.name ≡ true)
      × (leb (length i.name) 53 ≡ true)
unfolding is_valid
valid_name i valid = ground (arith, matches_name_lem i.name)

sentence-IsLower :
    (i : Intent) → is_valid i ≡ true → IsLower (sentence i) × (length (sentence i) ≤ 500)
unfolding sentence is_valid text lower
sentence-IsLower i valid =
    let (starts, chars, short) = valid_name i valid in
    let ((low_n, short_n), _) = count_lem i.replicas (ground arith) (ground arith) in
    let ((low_e, short_e), _) = environment_lem i.environment (ground arith) in
    let behind_count : Text = text " replicas in " ++ i.environment in
    let behind_name : Text = text ", " ++ (show i.replicas ++ behind_count) in
    let low_count : IsLower (show i.replicas ++ behind_count) =
      IsLower-append (show i.replicas) behind_count low_n
        (ap (λ t. text " replicas in " ++ t) low_e) in
    let low_name : IsLower (i.name ++ behind_name) =
      IsLower-append i.name behind_name (name-IsLower i.name chars)
        (ap (λ t. text ", " ++ t) low_count) in
    (
      ap (λ t. text "called " ++ t) low_name,
      omega (
        tests,
        short,
        short_n,
        short_e,
        length-append i.name behind_name,
        length-append (show i.replicas) behind_count,
      ),
    )

strip-called : (t : Text) → is_empty (strip (text "called " ++ t)) ≡ false
unfolding strip text
strip-called t = ground arith

-- The name is what stands behind "called".
hint-called :
    (name t : Text)
    → first is_alnum name ≡ true
    → all is_name_char name ≡ true
    → hint_at (text "called " ++ (name ++ b',' ∷ t)) ≡ some name
unfolding hint_at after text
hint-called [] t starts chars = absurd (ground arith)
hint-called (a ∷ name) t starts chars =
    rw
      (
        skip_spaces-word a (name ++ b',' ∷ t) starts,
        starts,
        name_run-append name t (ground (arith, chars)),
      )
      refl

hint-sentence : (i : Intent) → is_valid i ≡ true → hint_from false (sentence i) ≡ some i.name
unfolding hint_from sentence text
hint-sentence i valid =
    let (starts, chars, short) = valid_name i valid in
    let behind_name : Text = b' ' ∷ (show i.replicas ++ (text " replicas in " ++ i.environment)) in
    rw (hint-called i.name behind_name starts chars) refl

propose-sentence :
    (i : Intent)
    → IsSilent i.name
    → is_valid i ≡ true
    → propose_by_rules (sentence i) ≡ accepted (proposal i.name i.replicas i.environment)
unfolding propose_by_rules counts_of
propose-sentence i silent valid =
    let (low, short) = sentence-IsLower i valid in
    let says = sentence-Says i silent valid in
    rw (low, says.environments_in, says.numbers_in, says.words_in, hint-sentence i valid)
      (unfold set_of in refl)

-- The sentence "called NAME, N replicas in ENVIRONMENT" of a valid intent, whose name mentions no
-- environment and no number as a word of its own, is translated by the rules into that intent: its
-- only warning is that of an intent for `prod`.
pub translate-sentence :
    (explain : Json → Text) (i : Intent)
    → IsSilent i.name
    → is_valid i ≡ true
    → translate explain rules (sentence i)
      ≡ accepted (record { intent = i; translator = text "rules"; warnings = warnings_for i [] })
unfolding proposal text text_eq get sentence dropped_of one_of
translate-sentence explain i silent valid =
    let (low, short) = sentence-IsLower i valid in
    translate-takes explain rules (sentence i) _ i (strip-called _) short
      (propose-sentence i silent valid) refl refl refl valid
