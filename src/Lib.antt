-- ===== src/Lib.antt =====
-- nf-orchestrator: a model of the orchestrator that deploys network functions with helm and reads
-- their state back, with the theorems that say why its answers can be believed.
--
-- The program. `orchestrator/__init__.py` answers HTTP requests. A deployment becomes one
-- `helm upgrade --install` (`orchestrator/deploy.py`); a question about a release is answered by
-- deriving its state from helm's history and the cluster's pods (`orchestrator/reconciler.py`);
-- and a Prometheus scrape reconciles every release within a budget of time
-- (`orchestrator/metrics.py`). All of it goes through `run_bounded`, which runs helm or kubectl
-- under a time limit and, when a call is killed for silence, asks a readiness probe whether the
-- cluster, its load or this host is to blame.
--
-- The files.
--   Prelude, Text, Json: native numbers, texts as lists of code points with the operations of
--     Python's `str` that the program uses, and the values of `json.loads`.
--   Errors: the exception classes of `orchestrator/deploy.py`, `spawn_failure`; Errors.Classify:
--     `classify_error`.
--   Intent: `orchestrator/intent.py`.
--   Host: the machine as a record of functions of the number of looks at it, and the program's
--     own state (`_probe`, `_last_success`, `_versions`, the two counters) as a record that every
--     operation takes and returns. An operation that raises keeps what it changed before.
--   Deploy: Klog (`_round_trip`, `startup_delay`, `_error_text` and the regular expressions),
--     Tools (`missing_tools`, `version_problems`, `tool_problems`, `require_tools`), Probe
--     (`Probe`, `api_server_probe`, `_measure_probe`, `settled_probe`, `note_success`,
--     `answered_recently`) with Probe.Lock (any number of threads in `api_server_probe`, under
--     `_probe_lock`, as a step relation, and in Probe.Lock.Serial its specification, calls made one
--     after another), Run (`run_bounded`, `local_delay`, `reachability_evidence`,
--     `run_helm`, `run_kubectl`, `check_cluster`), Releases (`list_releases`) and Apply (`deploy`).
--   Reconciler: State (`derive_state`), History (`deployed_revision`, `last_operation`,
--     `existing_history`, `helm_release_status`), Pods (`parse_pods`, `pod_states`,
--     `pods_by_release`) and Reconcile (`desired_replicas`, `reconcile`, `teardown`).
--   Translate: `translate`, `pick_fields` and `warnings_for` of `orchestrator/translate.py`, and
--     `Intent.model_validate`; Translate.Rules: its `RuleTranslator`, with a
--     sentence that it reads back in Sentence; Translate.Words: its regular expressions;
--     Translate.Claude: `ClaudeTranslator` of `orchestrator/llm.py`.
--   Routes: the routes and `http_error`, with `record_deploy` and `record_repair`; Routes.Serving: a
--     process that serves a list of requests, one after another.
--   Metrics: Snapshot (`snapshot`), Waves (`reconcile_within`), Futures (`submit`,
--     `_never_started`), Tally (`record_probe` and the loop over the futures), Scrape
--     (`LifecycleCollector.collect`, from the answers that it got) and Calls (its calls, in order).
--   Scan: `scripts/scan_banned_terms.py`; Payloads: `scripts/intent_validate.py`.
--   Tests: small hosts and runs on them.
-- The modules beside a component (Laws, Keeps, Spends, Returns, Runs, Changes, Blame, Ready, Honest,
-- Order, Bag, Pace, Live, Claims, Digits, RoundTrip, Version, Accepts, Warnings, Answered, Accounts, Published, Cut,
-- Removed, Tearing, Right, Counts, Reads, Changed, Bound, Blank, Redact, Gate, Invariant, Moves,
-- Preserved, Safety, Linked, Refined, Turns, Sentence) hold what is proved of it.
-- Host.Keeps has what every call leaves alone, with a rule for each way in which a call is put
-- together, which the Keeps modules of the components apply; Deploy.Run.Spends does the same for the
-- number of processes that a call starts, Deploy.Run.Returns for what it gives, Deploy.Run.Runs for
-- that with the commands that it runs, and Deploy.Run.Changes for a command that it runs at most
-- once.
--
-- Choices. Times are natural numbers of microseconds; a difference that Python lets go negative is
-- written out where its sign matters. The clock need not be monotonic. `subprocess.run` is a
-- function of the look, the command and the limit. `json.loads` and the formats of floats are
-- functions of the host; JSON numbers are integers, and those that helm and kubectl give are read as
-- non-negative. `lower`, `strip` and `splitlines` are those of ASCII texts and `\d` is an ASCII
-- digit; the theorem on what the gate prints has its texts in ASCII as hypotheses. A document that lacks what the program reads from it ends the call with `crash`, which no
-- handler names; so does a status of null, or a document of null or {}, where the source reads them as
-- no release, since helm prints neither. `repr` of a release's name in two messages is the name in quotes. Of a scrape, what
-- its threads change of the process's state is not followed.
--
-- Loops. `list_releases` runs on a number of pages, and any number that exceeds what the list fills
-- is enough. `reconcile_within` runs on one turn more than there are releases, which is enough for
-- any positive number of workers. `redact` runs, for each term, on one turn more than the text has
-- characters, which is enough for a term that is not empty. All else is structural recursion.
--
-- Not modelled: the threads themselves, but for those in `api_server_probe` (elsewhere its lock makes
-- a probe one step, the pool of a scrape is given by which threads start, which futures are done and
-- what they hold, and requests are served one after another); FastAPI, the words of Pydantic's
-- refusals, the Prometheus client, the anthropic package, git; the charts, the monitoring rules and
-- the tests.
pub mod Prelude
pub mod Text
pub mod Json
pub mod Errors
pub mod Intent
pub mod Host
pub mod Deploy
pub mod Reconciler
pub mod Metrics
pub mod Translate
pub mod Payloads
pub mod Scan
pub mod Routes
mod Tests
