-- ===== src/Deploy/Run/Spends.antt =====
-- How many processes a call starts at most, one rule for each way in which a call is put together.
use nf_orchestrator.Prelude.{
  ℕ, ◌+◌, ◌≤◌, Bool, true, false, Option, none, some, arith, length, if◌then◌else◌,
}
use nf_orchestrator.Errors.{Exception, DeployError, Result, ok, err}
use nf_orchestrator.Host.{Host, Probe, State, Exec, Command, pure, raise, expect, proceed, ◌>>=◌}
use nf_orchestrator.Deploy.Probe.{api_server_probe}
use nf_orchestrator.Deploy.Probe.Laws.{api_server_probe_lem}
use nf_orchestrator.Deploy.Tools.{require_tools}
use nf_orchestrator.Deploy.Tools.Laws.{tool_problems_total, require_tools_lem}
use nf_orchestrator.Deploy.Run.{run_bounded, run_helm, run_kubectl, blame_probe, check_cluster}
use nf_orchestrator.Deploy.Run.Laws.{run_bounded-ran}

-- Whether it returns or raises.
pub record Spends (n : ℕ) {A : Type 0} (m : Exec A) : Type 0 where
  pub at : (s : State) → length (m s).1.ran ≤ length s.ran + n

module _ {A : Type 0} where
  pub Spends-pure : (n : ℕ) (a : A) → Spends n (pure a)
  Spends-pure n a = record { at = λ s. omega arith }

  pub Spends-raise : (n : ℕ) (e : Exception) → Spends n (raise {A = A} e)
  Spends-raise n e = record { at = λ s. omega arith }

  pub Spends-expect : (n : ℕ) (o : Option A) → Spends n (expect o)
  Spends-expect n none = record { at = λ s. omega arith }
  Spends-expect n (some a) = record { at = λ s. omega arith }

  pub Spends-if :
      (n : ℕ) (b : Bool) (m k : Exec A) → Spends n m → Spends n k → Spends n (if b then m else k)
  Spends-if n true m k sm sk = sm
  Spends-if n false m k sm sk = sk

module _ {A B : Type 0} where
  Spends-proceed :
      (n : ℕ) (r : Result A) (f : A → Exec B) (t : State)
      → ((a : A) → Spends n (f a))
      → length (proceed r f t).1.ran ≤ length t.ran + n
  Spends-proceed n (ok a) f t sf = (sf a).at t
  Spends-proceed n (err e) f t sf = omega arith

  pub Spends-bind :
      (k n : ℕ) (m : Exec A) (f : A → Exec B)
      → Spends k m
      → ((a : A) → Spends n (f a))
      → Spends (k + n) (m >>= f)
  Spends-bind k n m f sm sf = record {
    at = λ s. let (r, t) = m s in omega (arith, sm.at s, Spends-proceed n r f t sf);
  }

  -- The calls behind the first one start nothing.
  pub Spends-first :
      (n : ℕ) (m : Exec A) (f : A → Exec B)
      → Spends n m
      → ((a : A) → Spends 0 (f a))
      → Spends n (m >>= f)
  Spends-first n m f sm sf = record {
    at = λ s. let (r, t) = m s in omega (arith, sm.at s, Spends-proceed 0 r f t sf);
  }

pub ruleset spends_rules = (Spends-pure, Spends-raise, Spends-expect, Spends-if, Spends-first)

module _ (h : Host) where
  Spends-run_bounded :
      (command args : Command) (timeout : ℕ) → Spends 7 (run_bounded h command args timeout)
  Spends-run_bounded command args timeout = record {
    at = λ s. run_bounded-ran h command args timeout s;
  }

  pub Spends-run_helm : (args : Command) → Spends 7 (run_helm h args)
  unfolding run_helm
  Spends-run_helm args = Spends-run_bounded _ args _

  pub Spends-run_kubectl : (args : Command) → Spends 7 (run_kubectl h args)
  unfolding run_kubectl
  Spends-run_kubectl args = Spends-run_bounded _ args _

  pub Spends-require_tools : Spends 1 (require_tools h)
  Spends-require_tools = record {
    at = λ s.
        let (problems, t, e, ran, gone) = tool_problems_total h s in
        ground (arith, require_tools_lem h s t problems e);
  }

  Spends-probe : (max_age : ℕ) (timeout : Option ℕ) → Spends 1 (api_server_probe h max_age timeout)
  Spends-probe max_age timeout = record {
    at = λ s.
        let (p, at, t, e, kept, ran) = api_server_probe_lem h max_age timeout s in ground arith;
  }

  Spends-blame_probe :
      (probe : Probe) (failure : Option DeployError) → Spends 0 (blame_probe h probe failure)
  Spends-blame_probe probe none = record { at = λ s. ground arith }
  Spends-blame_probe probe (some failure) = record { at = λ s. omega arith }

  pub Spends-check_cluster : Spends 2 (check_cluster h)
  unfolding check_cluster
  Spends-check_cluster = Spends-bind 1 1 (require_tools h) _ Spends-require_tools (λ _.
      Spends-bind 1 0 (api_server_probe h 0 (some h.config.read_timeout)) _
        (Spends-probe 0 (some h.config.read_timeout))
        (λ p. Spends-if 0 p.answered _ _ (Spends-pure 0 tt) (Spends-blame_probe p p.spawn_failure)))
