-- ===== src/Reconciler/History/Laws.antt =====
-- What the history says: the intent in effect, the last operation, and the release's absence.
use nf_orchestrator.Prelude.{
  ℕ, ◌≤◌, ◌<◌, ◌≡◌, refl, sym, ap, ◌∙◌, ◌≢◌, ◌↔◌, inl, inr, Bool, true, false, not, ◌&&◌, ◌||◌,
  ◌==◌, leb, ltb, List, [], ◌∷◌, ◌++◌, none, some, arith, any, all, option, max, Option-cases,
  if◌then◌else◌,
}
use nf_orchestrator.Text.{Text, text, text_eq, lower, contains}
use nf_orchestrator.Errors.{
  Kind, DeployError, cluster_unreachable, is_instance, deploy, os, crash, Result, ok, err,
}
use nf_orchestrator.Host.{Host, State}
use nf_orchestrator.Reconciler.State.{OperationState, unknown}
use nf_orchestrator.Reconciler.History.{
  Entry, release_not_found, operation_status, is_deployed, deployed_revision, latest_from,
  last_operation, absent_if_not_found, release_history, existing_history,
}

abbrev deployed_at : ℕ → Entry → Bool
deployed_at r e = is_deployed e && e.revision == r

abbrev deployed_by : ℕ → Entry → Bool
deployed_by r e = not (is_deployed e) || leb e.revision r

deployed_revision-cons :
    (e : Entry) (es : List Entry)
    → deployed_revision (e ∷ es) ≡ (
        if is_deployed e
        then some (option e.revision (max e.revision) (deployed_revision es))
        else deployed_revision es)
unfolding deployed_revision
deployed_revision-cons e es = ground arith

deployed_revision-none :
    (es : List Entry) → deployed_revision es ≡ none → any is_deployed es ≡ false
deployed_revision-none [] h = refl
deployed_revision-none (e ∷ es) h =
    ground (arith, deployed_revision-cons e es, deployed_revision-none es)

deployed_by_none :
    (r : ℕ) (es : List Entry) → any is_deployed es ≡ false → all (deployed_by r) es ≡ true
deployed_by_none r [] h = refl
deployed_by_none r (e ∷ es) h = ground (arith, deployed_by_none r es)

deployed_by_mono :
    (q r : ℕ) (es : List Entry)
    → q ≤ r
    → all (deployed_by q) es ≡ true
    → all (deployed_by r) es ≡ true
deployed_by_mono q r [] le h = refl
deployed_by_mono q r (e ∷ es) le h = ground (arith, deployed_by_mono q r es)

deployed_revision_max :
    (es : List Entry) (r : ℕ)
    → deployed_revision es ≡ some r
    → (any (deployed_at r) es ≡ true) × (all (deployed_by r) es ≡ true)
deployed_revision_max [] r h = (unfold deployed_revision in cc, refl)
deployed_revision_max (e ∷ es) r h = elim (Option-cases (deployed_revision es)) [
  | inl n ↦
      ground (arith, deployed_revision-cons e es, deployed_revision-none es, deployed_by_none r es)
  | inr (q, p) ↦
      ground
        (arith, deployed_revision-cons e es, deployed_revision_max es q, deployed_by_mono q r es)
]

deployed_at_le :
    (q r : ℕ) (es : List Entry)
    → any (deployed_at q) es ≡ true
    → all (deployed_by r) es ≡ true
    → q ≤ r
deployed_at_le q r [] h k = cc
deployed_at_le q r (e ∷ es) h k = ground (arith, deployed_at_le q r es)

deployed_at-any :
    (q : ℕ) (es : List Entry) → any (deployed_at q) es ≡ true → any is_deployed es ≡ true
deployed_at-any q [] h = cc
deployed_at-any q (e ∷ es) h = ground (arith, deployed_at-any q es)

-- The intent in effect is the one of revision r exactly when an entry of that revision has the
-- status `deployed` and no entry with that status has a higher revision.
pub deployed_revision_lem :
    (es : List Entry) (r : ℕ)
    → (deployed_revision es ≡ some r)
      ↔ ((any (deployed_at r) es ≡ true) × (all (deployed_by r) es ≡ true))
deployed_revision_lem es r = (
  deployed_revision_max es r,
  λ h. elim (Option-cases (deployed_revision es)) [
    | inl n ↦ cc (deployed_revision-none es n, deployed_at-any r es h.0)
    | inr (q, p) ↦
        let highest = deployed_revision_max es q p in
        let same : q ≡ r =
          omega (arith, deployed_at_le q r es highest.0 h.1, deployed_at_le r q es h.0 highest.1) in
        p ∙ ap some same
  ],
)

-- No revision is in effect exactly when no entry has the status `deployed`.
deployed_revision_none_lem :
    (es : List Entry) → (deployed_revision es ≡ none) ↔ (any is_deployed es ≡ false)
deployed_revision_none_lem es = (
  deployed_revision-none es,
  λ h. elim (Option-cases (deployed_revision es)) [
    | inl n ↦ n
    | inr (q, p) ↦ cc (deployed_at-any q es (deployed_revision_max es q p).0)
  ],
)

latest_from-append :
    (best e : Entry) (es : List Entry)
    → best.revision < e.revision
    → all (λ x. ltb x.revision e.revision) es ≡ true
    → latest_from best (es ++ e ∷ []) ≡ e
unfolding latest_from
latest_from-append best e [] b h = ground arith
latest_from-append best e (x ∷ es) b h =
    latest_from-append (if ltb best.revision x.revision then x else best) e es (ground arith)
      (ground arith)

last_operation-append :
    (es : List Entry) (e : Entry)
    → all (λ x. ltb x.revision e.revision) es ≡ true
    → last_operation (es ++ e ∷ []) ≡ record {
      revision = some e.revision;
      state = option unknown operation_status e.status;
      description = e.description;
    }
unfolding last_operation
last_operation-append [] e h = unfold latest_from in refl
last_operation-append (x ∷ es) e h = rw (latest_from-append x e es (ground arith) (ground arith))

deployed_revision-append :
    (es : List Entry) (e : Entry)
    → is_deployed e ≡ false
    → deployed_revision (es ++ e ∷ []) ≡ deployed_revision es
deployed_revision-append [] e h = rw (deployed_revision-cons e []) (rw h)
deployed_revision-append (x ∷ es) e h =
    rw (deployed_revision-cons x (es ++ e ∷ []), deployed_revision-append es e h)
      (sym (deployed_revision-cons x es))

failed_is_not_deployed : (e : Entry) → e.status ≡ some (text "failed") → is_deployed e ≡ false
unfolding is_deployed text text_eq
failed_is_not_deployed e h = rw h

failed_status : operation_status (text "failed") ≡ OperationState.failed
unfolding operation_status text text_eq
failed_status = refl

-- A failed upgrade, recorded with a revision above all others, is reported as the last operation,
-- FAILED and with its own revision and description, and the intent in effect stays what it was.
pub failed_upgrade :
    (es : List Entry) (e : Entry)
    → all (λ x. ltb x.revision e.revision) es ≡ true
    → e.status ≡ some (text "failed")
    → (deployed_revision (es ++ e ∷ []) ≡ deployed_revision es)
      × (last_operation (es ++ e ∷ []) ≡ record {
        revision = some e.revision;
        state = OperationState.failed;
        description = e.description;
      })
failed_upgrade es e above h = (
  deployed_revision-append es e (failed_is_not_deployed e h),
  rw (last_operation-append es e above, h, failed_status),
)

is_unreachable : (k : Kind) → (is_instance k cluster_unreachable ≡ true) ↔ (k ≡ cluster_unreachable)
unfolding is_instance
is_unreachable k = ground arith

absent_lem :
    {A : Type 0} (r : Result A)
    → (absent_if_not_found r ≡ ok none) ↔ (
        (e : DeployError) × (r ≡ err (deploy e))
        × (e.kind ≢ cluster_unreachable)
        × (contains release_not_found (lower e.message) ≡ true))
unfolding absent_if_not_found
absent_lem (ok a) = (λ h. ground arith, λ (e, p, _, _). ground arith)
absent_lem (err (deploy e)) = (
  λ h. (e, refl, ground (arith, is_unreachable e.kind), ground (arith, is_unreachable e.kind)),
  λ (x, p, q, c). ground (arith, is_unreachable e.kind),
)
absent_lem (err (os e)) = (λ h. ground arith, λ (e, p, _, _). ground arith)
absent_lem (err crash) = (λ h. ground arith, λ (e, p, _, _). ground arith)

-- A release is taken for absent exactly when helm failed with an error other than "unreachable"
-- whose words, in lower case, hold "not found".
pub existing_history-absent :
    (h : Host) (name : Text) (s : State)
    → ((existing_history h name s).0 ≡ ok none) ↔ (
        (e : DeployError) × ((release_history h name s).0 ≡ err (deploy e))
        × (e.kind ≢ cluster_unreachable)
        × (contains release_not_found (lower e.message) ≡ true))
unfolding existing_history
existing_history-absent h name s = absent_lem (release_history h name s).0

found_lem : {A : Type 0} (r : Result A) (a : A) → (absent_if_not_found r ≡ ok (some a)) ↔ (r ≡ ok a)
unfolding absent_if_not_found
found_lem (ok b) a = (λ h. ground arith, λ h. ground arith)
found_lem (err (deploy e)) a = (λ h. absurd (ground arith), λ h. ground arith)
found_lem (err (os e)) a = (λ h. ground arith, λ h. ground arith)
found_lem (err crash) a = (λ h. ground arith, λ h. ground arith)

-- A history is found exactly when helm gave it.
pub existing_history-found :
    (h : Host) (name : Text) (s : State) (history : List Entry)
    → ((existing_history h name s).0 ≡ ok (some history))
      ↔ ((release_history h name s).0 ≡ ok history)
unfolding existing_history
existing_history-found h name s history = found_lem (release_history h name s).0 history
