-- ===== src/Routes.antt =====
-- orchestrator/__init__.py: the HTTP routes, and the status that each failure is answered with.
pub mod Laws
pub mod Serving
use nf_orchestrator.Prelude.{
  ℕ, suc, Bool, true, false, not, ◌&&◌, List, [], ◌∷◌, ◌++◌, Option, none, some, if◌then◌else◌,
}
use nf_orchestrator.Text.{Text, text, text_eq, contains}
use nf_orchestrator.Errors.{
  Kind, DeployError, cluster_unreachable, cluster_busy, cluster_conflict, host_overloaded,
  host_misconfigured, is_instance, Exception, deploy, Result, ok, err,
}
use nf_orchestrator.Json.{Json}
use nf_orchestrator.Intent.{Intent}
use nf_orchestrator.Translate.{accepted, rejected, Translated, translate}
use nf_orchestrator.Translate.Rules.{rules}
use nf_orchestrator.Host.{Host, Sample, State, Exec}
use nf_orchestrator.Deploy.Run.{check_cluster}
use nf_orchestrator.Deploy.Apply
use nf_orchestrator.Deploy.Apply.{Deployment}
use nf_orchestrator.Reconciler.Reconcile.{Report, Teardown, reconcile, teardown}

abbrev no_thread : Text
no_thread = text "can't start new thread"

abbrev pub busy_retry_after : Text
busy_retry_after = text "5"

-- `HTTPException`, with its one header.
pub record HttpError : Type 0 where
  pub status : ℕ
  pub detail : Text
  pub retry_after : Option Text

-- What a request is answered with. `unhandled` is an exception that no handler names: a plain 500.
pub data Reply (A : Type 0) : Type 0 where
  replied : (status : ℕ) → A → Reply A
  refused : HttpError → Reply A
  unhandled : Exception → Reply A

conflict_detail : Text → Text
conflict_detail message =
    message
    ++ text
        " -- another field manager owns a field this intent would change. Resubmitting will not help. To take ownership, POST the same intent to /deployments/{name}/repair."

unfoldable pub http_error : DeployError → HttpError
unfolding conflict_detail is_instance
http_error e =
    if is_instance e.kind host_misconfigured
    then record { status = 500; detail = e.message; retry_after = none }
    else if is_instance e.kind host_overloaded
    then record { status = 503; detail = e.message; retry_after = some busy_retry_after }
    else if is_instance e.kind cluster_busy
    then record { status = 503; detail = e.message; retry_after = some busy_retry_after }
    else if is_instance e.kind cluster_unreachable
    then record { status = 503; detail = e.message; retry_after = none }
    else if is_instance e.kind cluster_conflict
    then record { status = 409; detail = conflict_detail e.message; retry_after = none }
    else record { status = 502; detail = e.message; retry_after = none }

-- The handler of `RuntimeError`, by its text; `none` raises it again.
unfoldable host_out_of_threads : Text → Option HttpError
host_out_of_threads message =
    if not (contains no_thread message)
    then none
    else some (record {
      status = 503;
      detail =
          text
            "this host could not start a thread to serve the request: a pids or memory limit on the orchestrator's host";
      retry_after = some busy_retry_after;
    })

-- `counter.labels(result=..., environment=...).inc()`
unfoldable pub inc : Text → Text → List Sample → List Sample
inc result environment [] = record { result = result; environment = environment; count = 1 } ∷ []
inc result environment (x ∷ xs) =
    let rest = inc result environment xs in
    if text_eq x.result result && text_eq x.environment environment
    then record x { count = suc x.count } ∷ xs
    else x ∷ rest

-- `metrics.record_deploy`
unfoldable pub record_deploy : Text → Text → State → State
unfolding inc
record_deploy result environment s = record s {
  deployments_total = inc result environment s.deployments_total;
}

-- `metrics.record_repair`
unfoldable pub record_repair : Text → Text → State → State
unfolding inc
record_repair result environment s = record s {
  repairs_total = inc result environment s.repairs_total;
}

-- `except DeployError as exc: raise http_error(exc)`
unfoldable pub answer : {A : Type 0} → (status : ℕ) → Result A → Reply A
unfolding http_error
answer status (ok a) = replied status a
answer status (err (deploy e)) = refused (http_error e)
answer status (err x) = unhandled x

-- The same with a counter on each of the two ways.
pub counted : {A : Type 0} → (Text → State → State) → Result A → State → State
counted tally (ok _) s = tally (text "success") s
counted tally (err (deploy _)) s = tally (text "failed") s
counted tally (err _) s = s

-- `{**result, "forced": True}`
pub record Repair : Type 0 where
  pub deployment : Deployment
  pub forced : Bool

-- The answer to a repair, where there is one.
abbrev as_forced : Result Deployment → Result Repair
as_forced (ok d) = ok (record { deployment = d; forced = true })
as_forced (err e) = err e

unfoldable pub mismatch : (intent_name path_name : Text) → HttpError
mismatch intent_name path_name = record {
  status = 400;
  detail =
      text "intent name '"
      ++ (intent_name ++ (text "' does not match path '" ++ (path_name ++ text "'")));
  retry_after = none;
}

-- `GET /healthz`
abbrev healthz : Reply Text
healthz = replied 200 (text "ok")

pub record Validation : Type 0 where
  pub valid : Bool
  pub intent : Intent

-- `POST /intents/validate`, of a body that FastAPI took for an intent.
abbrev validate_intent : Intent → Reply Validation
validate_intent intent = replied 200 (record { valid = true; intent = intent })

-- `POST /intents/translate`, which asks nothing of the machine.
translate_intent : (explain : Json → Text) → Text → Reply Translated
translate_intent explain t = elim (translate explain rules t) [
  | accepted r ↦ replied 200 r
  | rejected message ↦ refused (record { status = 422; detail = message; retry_after = none })
]

module _ (h : Host) where
  -- `GET /readyz`
  unfoldable pub get_readyz : State → Reply Unit × State
  unfolding answer
  get_readyz s = let (r, t) = check_cluster h s in (answer 200 r, t)

  -- `POST /deployments`
  unfoldable pub create_deployment : Intent → State → Reply Deployment × State
  unfolding answer counted record_deploy
  create_deployment intent s =
      let (r, t) = Apply.deploy h intent false s in
      (answer 201 r, counted (λ result. record_deploy result intent.environment) r t)

  -- `POST /deployments/{name}/repair`
  unfoldable pub repair_deployment : Text → Intent → State → Reply Repair × State
  unfolding answer counted record_repair mismatch
  repair_deployment name intent s =
      if not (text_eq intent.name name)
      then (refused (mismatch intent.name name), s)
      else (let (r, t) = Apply.deploy h intent true s in
          (
            answer 200 (as_forced r),
            counted (λ result. record_repair result intent.environment) r t,
          ))

  -- `GET /deployments/{name}`
  unfoldable pub get_deployment : Text → State → Reply Report × State
  unfolding answer
  get_deployment name s = let (r, t) = reconcile h name none s in (answer 200 r, t)

  -- `DELETE /deployments/{name}`
  unfoldable pub delete_deployment : Text → State → Reply Teardown × State
  unfolding answer
  delete_deployment name s = let (r, t) = teardown h name s in (answer 200 r, t)
