-- ===== src/Host/Keeps.antt =====
-- What every call leaves alone, one rule for each way in which a call is put together: the counters
-- of orchestrator/metrics.py, an honest probe in the cache, which commands were run that are not allowed,
-- and what is kept of helm's version, where asking for it is not allowed.
use nf_orchestrator.Prelude.{
  ℕ, ◌≡◌, refl, ◌∙◌, arith, Bool, true, false, Option, none, some, List, if◌then◌else◌, ◌&&◌, ◌||◌,
  is_empty, keep, not, option,
}
use nf_orchestrator.Text.{Text}
use nf_orchestrator.Errors.{Kind, host_exhausted, host_misconfigured, Exception, Result, ok, err}
use nf_orchestrator.Host.{
  Host, Probe, State, Exec, Command, pure, raise, expect, modify, gets, proceed, ◌>>=◌, monotonic,
  day_time, is_on_path, run_process,
}
use nf_orchestrator.Deploy.Tools.{version_command}

abbrev pub is_spawn_kind : Kind → Bool
is_spawn_kind host_exhausted = true
is_spawn_kind host_misconfigured = true
is_spawn_kind _ = false

abbrev pub is_honest : Probe → Bool
is_honest p =
    option true (λ e. is_spawn_kind e.kind) p.spawn_failure && (is_empty p.error || p.started)

-- What the cached probe says of this host's failure to start kubectl is one of the two kinds that
-- `spawn_failure` knows, and it has an error of kubectl's only where kubectl did start.
abbrev pub HasHonestCache : State → Type 0
HasHonestCache s = option true (λ (_, p). is_honest p) s.probe ≡ true

abbrev pub SameCounters : State → State → Type 0
SameCounters s t = (t.deployments_total ≡ s.deployments_total) × (t.repairs_total ≡ s.repairs_total)

-- The commands that are not allowed.
abbrev pub others : (allowed : Command → Bool) → List Command → List Command
others allowed commands = keep (λ command. not (allowed command)) commands

-- From a state to a later one.
pub record Kept (allowed : Command → Bool) (s t : State) : Type 0 where
  pub counters : SameCounters s t
  pub honest : HasHonestCache s → HasHonestCache t
  pub commands : others allowed t.ran ≡ others allowed s.ran
  pub unasked : allowed version_command ≡ false → t.versions ≡ s.versions

-- Whether it returns or raises.
pub record Keeps (allowed : Command → Bool) {A : Type 0} (m : Exec A) : Type 0 where
  pub at : (s : State) → Kept allowed s (m s).1

module _ (allowed : Command → Bool) where
  pub Kept-refl : (s : State) → Kept allowed s s
  Kept-refl s = record {
    counters = (refl, refl);
    honest = λ c. c;
    commands = refl;
    unasked = λ no. refl;
  }

  Kept-trans : (s t u : State) → Kept allowed s t → Kept allowed t u → Kept allowed s u
  Kept-trans s t u k l =
      let (d, e) = k.counters in
      let (d', e') = l.counters in
      record {
        counters = (d' ∙ d, e' ∙ e);
        honest = λ c. l.honest (k.honest c);
        commands = l.commands ∙ k.commands;
        unasked = λ no. l.unasked no ∙ k.unasked no;
      }

  module _ {A : Type 0} where
    pub Keeps-pure : (a : A) → Keeps allowed (pure a)
    Keeps-pure a = record { at = λ s. Kept-refl s }

    pub Keeps-raise : (e : Exception) → Keeps allowed (raise {A = A} e)
    Keeps-raise e = record { at = λ s. Kept-refl s }

    pub Keeps-expect : (o : Option A) → Keeps allowed (expect o)
    Keeps-expect none = record { at = λ s. Kept-refl s }
    Keeps-expect (some a) = record { at = λ s. Kept-refl s }

    pub Keeps-gets : (f : State → A) → Keeps allowed (gets f)
    Keeps-gets f = record { at = λ s. Kept-refl s }

    pub Keeps-if :
        (b : Bool) (m n : Exec A)
        → Keeps allowed m
        → Keeps allowed n
        → Keeps allowed (if b then m else n)
    Keeps-if true m n km kn = km
    Keeps-if false m n km kn = kn

  module _ {A B : Type 0} where
    Keeps-proceed :
        (r : Result A) (f : A → Exec B)
        → ((a : A) → Keeps allowed (f a))
        → (s : State) → Kept allowed s (proceed r f s).1
    Keeps-proceed (ok a) f kf s = (kf a).at s
    Keeps-proceed (err e) f kf s = Kept-refl s

    pub Keeps-bind :
        (m : Exec A) (f : A → Exec B)
        → Keeps allowed m
        → ((a : A) → Keeps allowed (f a))
        → Keeps allowed (m >>= f)
    Keeps-bind m f km kf = record {
      at = λ s.
          let (r, t) = m s in Kept-trans s t (proceed r f t).1 (km.at s) (Keeps-proceed r f kf t);
    }

  pub Keeps-modify :
      (f : State → State) → ((s : State) → Kept allowed s (f s)) → Keeps allowed (modify f)
  Keeps-modify f kept = record { at = kept }

  pub Keeps-last_success :
      (at : Option ℕ) → Keeps allowed (modify (λ s. record s { last_success = at }))
  Keeps-last_success at = record {
    at = λ s. record {
      counters = (refl, refl);
      honest = λ c. c;
      commands = refl;
      unasked = λ no. refl;
    };
  }

  pub Keeps-versions :
      (cache : Option (ℕ × List Text))
      → allowed version_command ≡ true
      → Keeps allowed (modify (λ s. record s { versions = cache }))
  Keeps-versions cache asking = record {
    at = λ s. record {
      counters = (refl, refl);
      honest = λ c. c;
      commands = refl;
      unasked = λ no. absurd (ground arith);
    };
  }

  pub Keeps-probe :
      (at : ℕ) (p : Probe)
      → is_honest p ≡ true
      → Keeps allowed (modify (λ s. record s { probe = some (at, p) }))
  Keeps-probe at p honest = record {
    at = λ s. record {
      counters = (refl, refl);
      honest = λ c. honest;
      commands = refl;
      unasked = λ no. refl;
    };
  }

  module _ (h : Host) where
    pub Keeps-monotonic : Keeps allowed (monotonic h)
    unfolding monotonic
    Keeps-monotonic = record {
      at = λ s. record {
        counters = (refl, refl);
        honest = λ c. c;
        commands = refl;
        unasked = λ no. refl;
      };
    }

    pub Keeps-day_time : Keeps allowed (day_time h)
    unfolding day_time
    Keeps-day_time = record {
      at = λ s. record {
        counters = (refl, refl);
        honest = λ c. c;
        commands = refl;
        unasked = λ no. refl;
      };
    }

    pub Keeps-is_on_path : (tool : Text) → Keeps allowed (is_on_path h tool)
    unfolding is_on_path
    Keeps-is_on_path tool = record {
      at = λ s. record {
        counters = (refl, refl);
        honest = λ c. c;
        commands = refl;
        unasked = λ no. refl;
      };
    }

    pub Keeps-run_process :
        (command : Command) (timeout : ℕ)
        → allowed command ≡ true
        → Keeps allowed (run_process h command timeout)
    unfolding run_process
    Keeps-run_process command timeout fine = record {
      at = λ s. record {
        counters = (refl, refl);
        honest = λ c. c;
        commands = rw (fine) refl;
        unasked = λ no. refl;
      };
    }

pub ruleset keeps_rules = (
  Keeps-pure, Keeps-raise, Keeps-expect, Keeps-gets, Keeps-if, Keeps-bind, Keeps-last_success,
  Keeps-versions, Keeps-monotonic, Keeps-day_time, Keeps-is_on_path, Keeps-run_process,
)
