-- ===== src/Host.antt =====
-- What the orchestrator runs on, and the state that its process keeps: the module-level variables
-- of orchestrator/deploy.py and the counters of orchestrator/metrics.py.
pub mod Laws
pub mod Keeps
use nf_orchestrator.Prelude.{ℕ, suc, Bool, Option, none, some, List, [], ◌∷◌}
use nf_orchestrator.Text.{Text}
use nf_orchestrator.Json.{Json}
use nf_orchestrator.Errors.{Kind, DeployError, OsError, Exception, deploy, Result, ok, err}

-- An argument vector.
abbrev pub Command : Type 0
Command = List Text

-- How `subprocess.run` ended. The code 0 is success; a signal's negative code is another number.
pub data Outcome : Type 0 where
  finished : (code : ℕ) (stdout stderr : Text) → Outcome
  timed_out : (stderr : Text) → Outcome
  not_started : OsError → Outcome

-- Environment variables and constants. Times are microseconds.
pub record Config : Type 0 where
  pub kube_context : Text
  pub chart_path : Text
  pub read_timeout : ℕ
  pub write_timeout : ℕ
  pub probe_timeout : ℕ
  pub probe_ttl : ℕ
  pub slow_probe : ℕ
  pub escalated_probe_timeout : ℕ
  pub recent_success : ℕ

-- The machine, from outside the program: what its n-th look at the world answers. `clock` is
-- `time.monotonic()`, `day_clock` the local time of day, `which` is `shutil.which`. `loads` is
-- `json.loads`, and the three formats print a float as `:g`, `:.2f` and, of a thousandth, `:.0f`.
pub record Host : Type 0 where
  pub config : Config
  pub clock : ℕ → ℕ
  pub day_clock : ℕ → ℕ
  pub which : ℕ → Text → Bool
  pub answer : ℕ → Command → ℕ → Outcome
  pub loads : Text → Option Json
  pub format_g : ℕ → Text
  pub format_2f : ℕ → Text
  pub format_millis : ℕ → Text

-- `Probe` of orchestrator/deploy.py.
pub record Probe : Type 0 where
  pub answered : Bool
  pub seconds : ℕ
  pub round_trip : Option ℕ
  pub started : Bool
  pub startup : Option ℕ
  pub error : Text
  pub spawn_failure : Option DeployError

-- A Prometheus counter's series, by the values of its labels `result` and `environment`.
pub record Sample : Type 0 where
  pub result : Text
  pub environment : Text
  pub count : ℕ

-- `looks` counts the questions asked of the machine; `ran` holds every process that was started or
-- tried, the latest first.
pub record State : Type 0 where
  pub looks : ℕ
  pub ran : List Command
  pub probe : Option (ℕ × Probe)
  pub last_success : Option ℕ
  pub versions : Option (ℕ × List Text)
  pub deployments_total : List Sample
  pub repairs_total : List Sample

-- A call: it may raise, and what it changed before that stays changed.
abbrev pub Exec : Type 0 → Type 0
Exec A = State → Result A × State

module _ {A : Type 0} where
  abbrev pub pure : A → Exec A
  pure a s = (ok a, s)

  abbrev pub raise : Exception → Exec A
  raise e s = (err e, s)

  abbrev pub fail : DeployError → Exec A
  fail e s = (err (deploy e), s)

  abbrev pub gets : (State → A) → Exec A
  gets f s = (ok (f s), s)

  -- A document that lacks what the program reads from it.
  abbrev pub expect : Option A → Exec A
  expect none s = (err Exception.crash, s)
  expect (some a) s = (ok a, s)

abbrev pub modify : (State → State) → Exec Unit
modify f s = (ok tt, f s)

module _ {A B : Type 0} where
  abbrev pub proceed : Result A → (A → Exec B) → Exec B
  proceed (ok a) f s = f a s
  proceed (err e) f s = (err e, s)

  infixl 5 ◌>>=◌ ◌>>◌
  abbrev pub ◌>>=◌ : Exec A → (A → Exec B) → Exec B
  ◌>>=◌ m f s = let (r, s') = m s in proceed r f s'

  abbrev pub ◌>>◌ : Exec A → Exec B → Exec B
  m >> n = m >>= λ _. n

module _ (h : Host) where
  -- `time.monotonic()`
  unfoldable pub monotonic : Exec ℕ
  monotonic s = (ok (h.clock s.looks), record s { looks = suc s.looks })

  -- `time.time()`, as the local time of day that the program makes of it
  unfoldable pub day_time : Exec ℕ
  day_time s = (ok (h.day_clock s.looks), record s { looks = suc s.looks })

  -- `shutil.which(tool) is not None`
  unfoldable pub is_on_path : Text → Exec Bool
  is_on_path tool s = (ok (h.which s.looks tool), record s { looks = suc s.looks })

  -- `subprocess.run(command, timeout=timeout)`
  unfoldable pub run_process : Command → ℕ → Exec Outcome
  run_process command timeout s = (
    ok (h.answer s.looks command timeout),
    record s { looks = suc s.looks; ran = command ∷ s.ran },
  )
