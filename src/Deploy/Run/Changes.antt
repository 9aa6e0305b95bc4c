-- ===== src/Deploy/Run/Changes.antt =====
-- Calls that run at most certain commands that are not allowed, and run them once, whether they
-- return or raise: one rule for each way in which a call is put together.
use nf_orchestrator.Prelude.{◌≡◌, refl, ◌⊎◌, inl, inr, Bool, true, false, List, [], ◌∷◌, ◌++◌}
use nf_orchestrator.Errors.{Result, ok, err}
use nf_orchestrator.Host.{Host, State, Exec, Command, proceed, ◌>>=◌}
use nf_orchestrator.Host.Keeps.{Keeps, others}
use nf_orchestrator.Deploy.Tools.{helm}
use nf_orchestrator.Deploy.Probe.{probe_command}
use nf_orchestrator.Deploy.Run.{run_helm}
use nf_orchestrator.Deploy.Run.Keeps.{run_bounded-others}

module _ (allowed : Command → Bool) where
  -- Of the others, none was run between two states, or just some.
  abbrev pub Changed : (cs : List Command) → (s t : State) → Type 0
  Changed cs s t =
      (others allowed t.ran ≡ others allowed s.ran)
      ⊎ (others allowed t.ran ≡ cs ++ others allowed s.ran)

  pub record Changes (cs : List Command) {A : Type 0} (m : Exec A) : Type 0 where
    pub at : (s : State) → Changed cs s (m s).1

  pub Changes-Keeps : {A : Type 0} {cs : List Command} (m : Exec A) → Keeps allowed m → Changes cs m
  Changes-Keeps m keeps = record { at = λ s. let kept = keeps.at s in inl kept.commands }

  module _ {A B : Type 0} where
    proceed-Keeps :
        (r : Result A) (f : A → Exec B) (t : State)
        → ((a : A) → Keeps allowed (f a))
        → others allowed (proceed r f t).1.ran ≡ others allowed t.ran
    proceed-Keeps (ok a) f t kf = let kept = (kf a).at t in kept.commands
    proceed-Keeps (err e) f t kf = refl

  module _ {A B : Type 0} {cs : List Command} where
    proceed-Changes :
        (r : Result A) (f : A → Exec B) (t : State)
        → ((a : A) → Changes cs (f a))
        → Changed cs t (proceed r f t).1
    proceed-Changes (ok a) f t cf = (cf a).at t
    proceed-Changes (err e) f t cf = inl refl

    -- Behind a first call that runs none.
    pub Changes-behind :
        (m : Exec A) (f : A → Exec B)
        → Keeps allowed m
        → ((a : A) → Changes cs (f a))
        → Changes cs (m >>= f)
    Changes-behind m f keeps cf = record {
      at = λ s.
          let (r, t) = m s in
          let kept = keeps.at s in rw (← kept.commands) (proceed-Changes r f t cf);
    }

    -- Before calls that run none.
    pub Changes-first :
        (m : Exec A) (f : A → Exec B)
        → Changes cs m
        → ((a : A) → Keeps allowed (f a))
        → Changes cs (m >>= f)
    Changes-first m f cm kf = record {
      at = λ s. let (r, t) = m s in rw (proceed-Keeps r f t kf) (cm.at s);
    }

  module _ (h : Host) (probing : allowed (probe_command h) ≡ true) where
    -- A command of helm's that is not allowed is run once, whatever comes of it.
    pub Changes-run_helm :
        (args : Command)
        → allowed (helm ∷ args) ≡ false
        → Changes ((helm ∷ args) ∷ []) (run_helm h args)
    unfolding run_helm
    Changes-run_helm args other = record {
      at = λ s. inr (run_bounded-others allowed h probing _ args _ s other);
    }
