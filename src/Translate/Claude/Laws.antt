-- ===== src/Translate/Claude/Laws.antt =====
-- What a text that Claude translated says.
use nf_orchestrator.Prelude.{
  ℕ, ◌≡◌, refl, sym, ap, ◌∙◌, inl, inr, true, false, not, [], ◌∷◌, Option, none, some, arith,
  is_empty, Option-cases,
}
use nf_orchestrator.Text.{Text, text, text_eq}
use nf_orchestrator.Json.{Json, num, str, get}
use nf_orchestrator.Intent.{is_valid}
use nf_orchestrator.Translate.{accepted, Translated, translate, and_then}
use nf_orchestrator.Translate.Laws.{
  translate_lem, and_then-accepted, accepted-injective, unless_rejected,
}
use nf_orchestrator.Translate.Claude.{
  ℤ, pos, negsuc, ProposedIntent, MessagesClient, Response, failed, untranslated, responded, Sdk,
  missing, broken, installed, system_prompt, ClaudeTranslator, messages, int_json, fields_of,
  is_refusal, read_proposal, read_response, request_of, propose, claude,
}

-- The response is no refusal, and its proposal names no problem.
abbrev pub Answers : ProposedIntent → Response → Type 0
Answers p r =
    (stop : Option Text) × (r ≡ responded stop (some p))
    × (is_refusal stop ≡ false)
    × (p.problem ≡ [])

empty_of : (t : Text) → not (is_empty t) ≡ false → t ≡ []
empty_of [] h = refl
empty_of (c ∷ t) h = absurd (ground arith)

read_proposal-accepted :
    (o : Option ProposedIntent) (j : Json)
    → read_proposal o ≡ accepted j
    → (p : ProposedIntent) × (o ≡ some p) × (p.problem ≡ []) × (fields_of p ≡ j)
unfolding read_proposal
read_proposal-accepted none j h = absurd (ground arith)
read_proposal-accepted (some p) j h =
    let (clear, e) = unless_rejected (not (is_empty p.problem)) _ _ j h in
    (p, refl, empty_of p.problem clear, accepted-injective (fields_of p) j e)

read_response-accepted :
    (r : Response) (j : Json)
    → read_response r ≡ accepted j
    → (p : ProposedIntent) × Answers p r × (fields_of p ≡ j)
unfolding read_response
read_response-accepted (failed message) j h = absurd (ground arith)
read_response-accepted (untranslated message) j h = absurd (ground arith)
read_response-accepted (responded stop o) j h =
    let (willing, e) = unless_rejected (is_refusal stop) _ _ j h in
    let (p, there, clear, same) = read_proposal-accepted o j e in
    (p, (stop, ap (responded stop) there, willing, clear), same)

propose-first :
    (sdk : Sdk) (t : Text) (c : ClaudeTranslator)
    → c.client ≡ none
    → (propose sdk t c).0
      ≡ and_then (messages sdk c).0 (λ client. read_response (client (request_of c t)))
unfolding propose messages request_of
propose-first missing t c own = rw (own) refl
propose-first (broken message) t c own = rw (own) refl
propose-first (installed client) t c own = rw (own) refl

-- A proposal is the reading of what the client answers to the request.
propose_lem :
    (sdk : Sdk) (t : Text) (c : ClaudeTranslator)
    → (propose sdk t c).0
      ≡ and_then (messages sdk c).0 (λ client. read_response (client (request_of c t)))
unfolding propose messages request_of
propose_lem sdk t c = elim (Option-cases c.client) [
  | inl own ↦ propose-first sdk t c own
  | inr (client, given) ↦ rw (given) refl
]

propose-accepted :
    (sdk : Sdk) (t : Text) (c : ClaudeTranslator) (j : Json)
    → (propose sdk t c).0 ≡ accepted j
    → (client : MessagesClient) × ((messages sdk c).0 ≡ accepted client)
      × ((p : ProposedIntent) × Answers p (client (request_of c t)) × (fields_of p ≡ j))
unfolding propose
propose-accepted sdk t c j h =
    let (client, found, e) =
      and_then-accepted (messages sdk c).0 _ j (sym (propose_lem sdk t c) ∙ h) in
    (client, found, read_response-accepted (client (request_of c t)) j e)

fields_of-get :
    (p : ProposedIntent)
    → (get (text "name") (fields_of p) ≡ some (str p.name))
      × (get (text "replicas") (fields_of p) ≡ some (int_json p.replicas))
      × (get (text "environment") (fields_of p) ≡ some (str p.environment))
unfolding fields_of get text text_eq
fields_of-get p = (refl, refl, refl)

int_json-num : (z : ℤ) (n : ℕ) → some (int_json z) ≡ some (num n) → z ≡ pos n
unfolding int_json
int_json-num (pos m) n h = ground arith
int_json-num (negsuc m) n h = absurd (ground arith)

str-injective : (s t : Text) → some (str s) ≡ some (str t) → s ≡ t
str-injective s t h = ground arith

-- An intent that Claude's translator is accepted with is valid, and its name, count and environment
-- are those of a proposal that the client answered with to the request that carries the text as
-- its message and the fixed prompt as its system prompt; that answer was no refusal, and the
-- proposal named no problem. It does not matter how the client came to be.
pub claude-translate :
    (explain : Json → Text) (sdk : Sdk) (c : ClaudeTranslator) (t : Text) (r : Translated)
    → translate explain (claude sdk c) t ≡ accepted r
    → (is_valid r.intent ≡ true)
      × ((client : MessagesClient) × ((messages sdk c).0 ≡ accepted client)
          × ((p : ProposedIntent) × Answers p (
                client (record {
                  model = c.model;
                  tokens = 1024;
                  system = system_prompt;
                  output_effort = text "low";
                  content = t;
                }))
              × (p.name ≡ r.intent.name)
              × (p.replicas ≡ pos r.intent.replicas)
              × (p.environment ≡ r.intent.environment)))
unfolding claude request_of
claude-translate explain sdk c t r h =
    let (present, short, valid, (candidate, proposed, name, replicas, environment)) =
      translate_lem explain (claude sdk c) t r h in
    let (client, found, (p, answers, same)) = propose-accepted sdk t c candidate proposed in
    let (named, counted, placed) = fields_of-get p in
    (
      valid,
      (
        client,
        found,
        (
          p,
          answers,
          str-injective p.name r.intent.name (sym named ∙ rw (same) name),
          int_json-num p.replicas r.intent.replicas (sym counted ∙ rw (same) replicas),
          str-injective p.environment r.intent.environment (sym placed ∙ rw (same) environment),
        ),
      ),
    )
