-- ===== src/Translate/Warnings.antt =====
-- What the warnings of an accepted text say: that it is for production, and which fields that a
-- translator proposed were dropped.
use nf_orchestrator.Prelude.{
  Option, none, ◌≤◌, ◌≡◌, refl, ◌∙◌, inl, inr, true, false, not, ◌&&◌, ◌||◌, List, [], ◌∷◌, ◌++◌,
  some, arith, length, is_empty, Bool-cases, is_none, if◌then◌else◌, ap,
}
use nf_orchestrator.Text.{Text, text, text_eq, one_of, strip, join}
use nf_orchestrator.Text.Laws.{text_eq_iff}
use nf_orchestrator.Json.{or_else, Json, Fields, end, field, obj, num, str, get}
use nf_orchestrator.Json.Laws.{get-end, get-field}
use nf_orchestrator.Intent.{Intent, is_valid}
use nf_orchestrator.Translate.{
  intent_fields, accepted, Translator, put_in, sorted, warnings_for, dropped_among, dropped_of,
  translate, dropped_key,
}
use nf_orchestrator.Translate.Accepts.{translate-takes}

put_in-one_of :
    (k x : Text) (ls : List Text) → one_of k (put_in x ls) ≡ (text_eq k x || one_of k ls)
unfolding put_in one_of
put_in-one_of k x [] = refl
put_in-one_of k x (l ∷ ls) = ground (arith, put_in-one_of k x ls)

sorted-one_of : (k : Text) (ks : List Text) → one_of k (sorted ks) ≡ one_of k ks
unfolding sorted one_of
sorted-one_of k [] = refl
sorted-one_of k (x ∷ xs) =
    put_in-one_of k x (sorted xs) ∙ ap (λ b. text_eq k x || b) (sorted-one_of k xs)

put_in-is_empty : (x : Text) (ls : List Text) → is_empty (put_in x ls) ≡ false
unfolding put_in
put_in-is_empty x [] = refl
put_in-is_empty x (l ∷ ls) = ground arith

sorted-is_empty : (ks : List Text) → is_empty (sorted ks) ≡ is_empty ks
unfolding sorted
sorted-is_empty [] = refl
sorted-is_empty (x ∷ xs) = put_in-is_empty x (sorted xs)

dropped_key-one_of :
    (k key : Text) (ks : List Text)
    → one_of k (dropped_key key ks)
      ≡ (text_eq k key && not (one_of key intent_fields) || one_of k ks)
dropped_key-one_of k key ks = elim (Bool-cases (one_of key intent_fields)) [
  | inl kept ↦ rw (kept) (unfold one_of in ground arith)
  | inr lost ↦ rw (lost) (unfold one_of in ground arith)
]

or_else-some : (o : Option Json) (v : Json) → is_none (or_else o (some v)) ≡ false
or_else-some none v = refl
or_else-some (some x) v = refl

or_else-none : (o : Option Json) → or_else o none ≡ o
or_else-none none = refl
or_else-none (some x) = refl

dropped_among-one_of :
    (k : Text) (fs : Fields)
    → one_of k (dropped_among fs) ≡ (not (one_of k intent_fields) && not (is_none (get k (obj fs))))
unfolding dropped_among
dropped_among-one_of k end = rw (get-end k) (unfold one_of in ground arith)
dropped_among-one_of k (field key v fs) =
    dropped_key-one_of k key (dropped_among fs)
    ∙ (let ih = dropped_among-one_of k fs in
        let found = get-field k key v fs in
        elim (Bool-cases (text_eq k key)) [
          | inl here ↦
              let same = (text_eq_iff k key).0 here in
              rw (found, ih, here, or_else-some (get k (obj fs)) v, same) (ground arith)
          | inr other ↦ rw (found, ih, other, or_else-none (get k (obj fs))) refl
        ])

-- The warning for an intent of production.
abbrev pub prod_warning : Text
prod_warning =
    text "text was translated into a prod intent; deploying it is a separate, deliberate call"

-- The warning that names the fields that were dropped.
abbrev pub dropped_warning : List Text → Text
dropped_warning names =
    text "translator proposed fields that are not part of an intent and were dropped: "
    ++ join (text ", ") names

module _ (explain : Json → Text) (translator : Translator) where
  -- A text that is not blank and within the limit, for which the translator proposes an object with
  -- a valid intent's name, count and environment, is accepted with that intent, whatever else the
  -- object has. The first warning says that the intent is for production, where it is; the next,
  -- where the object has a key that is not of an intent, names a list of texts, in which a text
  -- occurs exactly if it is such a key.
  pub translate-accepts :
      (t : Text) (fs : Fields) (i : Intent)
      → is_empty (strip t) ≡ false
      → length t ≤ 500
      → translator.propose t ≡ accepted (obj fs)
      → get (text "name") (obj fs) ≡ some (str i.name)
      → get (text "replicas") (obj fs) ≡ some (num i.replicas)
      → get (text "environment") (obj fs) ≡ some (str i.environment)
      → is_valid i ≡ true
      → (named : List Text) × (translate explain translator t
          ≡ accepted (record {
            intent = i;
            translator = translator.name;
            warnings =
                (if text_eq i.environment (text "prod") then prod_warning ∷ [] else [])
                ++ (if is_empty named then [] else dropped_warning named ∷ []);
          }))
        × ((k : Text)
            → one_of k named ≡ (not (one_of k intent_fields) && not (is_none (get k (obj fs)))))
  unfolding warnings_for dropped_of
  translate-accepts t fs i present short proposed name replicas environment valid = (
    sorted (dropped_among fs),
    translate-takes explain translator t fs i present short proposed name replicas environment valid
        ∙ rw (sorted-is_empty (dropped_among fs)) refl,
    λ k. sorted-one_of k (dropped_among fs) ∙ dropped_among-one_of k fs,
  )
