-- ===== src/Deploy/Run/Runs.antt =====
-- Calls that give one result and run certain commands and no other, whatever state they start in: one
-- rule for each way in which a call is put together. The commands stand latest first.
use mathlib.Core.List.{append_assoc}
use nf_orchestrator.Prelude.{
  ℕ, suc, ◌≡◌, refl, ap, ◌∙◌, sym, List, [], ◌∷◌, ◌++◌, Option, some, arith,
}
use nf_orchestrator.Text.{Text, text}
use nf_orchestrator.Json.{Json}
use nf_orchestrator.Errors.{Result, ok, err}
use nf_orchestrator.Host.{
  Host, State, Exec, Command, Outcome, finished, pure, expect, proceed, ◌>>=◌, run_process,
  monotonic,
}
use nf_orchestrator.Deploy.Probe.{note_success}
use nf_orchestrator.Deploy.Tools.{helm, kubectl}
use nf_orchestrator.Deploy.Run.{settle, run_bounded, run_helm, run_kubectl}
use nf_orchestrator.Deploy.Run.Returns.{Prints, Returns, ok-injective}

pub record Runs (cs : List Command) {A : Type 0} (m : Exec A) (a : A) : Type 0 where
  pub at : (s : State) → ((m s).0 ≡ ok a) × ((m s).1.ran ≡ cs ++ s.ran)

module _ {A : Type 0} where
  pub Runs-pure : (a : A) → Runs [] (pure a) a
  Runs-pure a = record { at = λ s. (refl, refl) }

  pub Runs-expect : (o : Option A) (a : A) → o ≡ some a → Runs [] (expect o) a
  Runs-expect o a e = record { at = λ s. rw (e) (refl, refl) }

  pub Runs-Returns : {cs : List Command} {m : Exec A} {a : A} → Runs cs m a → Returns m a
  Runs-Returns runs = record { at = λ s. (runs.at s).0 }

module _ {A B : Type 0} where
  proceed-Runs :
      (ds : List Command) (r : Result A) (f : A → Exec B) (t : State) (a : A) (b : B)
      → r ≡ ok a
      → Runs ds (f a) b
      → ((proceed r f t).0 ≡ ok b) × ((proceed r f t).1.ran ≡ ds ++ t.ran)
  proceed-Runs ds (ok a') f t a b e rf = rw (ok-injective a' a e) (rf.at t)
  proceed-Runs ds (err x) f t a b e rf = absurd (ground arith)

  pub Runs-bind :
      {cs ds : List Command} (m : Exec A) (f : A → Exec B) (a : A) (b : B)
      → Runs cs m a
      → Runs ds (f a) b
      → Runs (ds ++ cs) (m >>= f) b
  Runs-bind {cs} {ds} m f a b rm rf = record {
    at = λ s.
        let (r, t) = m s in
        let (e, ran) = rm.at s in
        let (e', ran') = proceed-Runs ds r f t a b e rf in
        (e', ran' ∙ ap (λ x. ds ++ x) ran ∙ sym (append_assoc ds cs s.ran));
  }

  -- A first call that runs nothing.
  pub Runs-behind :
      {ds : List Command} (m : Exec A) (f : A → Exec B) (a : A) (b : B)
      → Runs [] m a
      → Runs ds (f a) b
      → Runs ds (m >>= f) b
  Runs-behind {ds} m f a b rm rf = record {
    at = λ s.
        let (r, t) = m s in
        let (e, ran) = rm.at s in
        let (e', ran') = proceed-Runs ds r f t a b e rf in (e', ran' ∙ ap (λ x. ds ++ x) ran);
  }

module _ (h : Host) where
  settle-Runs :
      (command args : Command) (timeout : ℕ) (o : Outcome) (s : State) (output stderr : Text)
      → o ≡ finished 0 output stderr
      → ((settle h command args timeout o s).0 ≡ ok output)
        × ((settle h command args timeout o s).1.ran ≡ s.ran)
  unfolding settle note_success monotonic
  settle-Runs command args timeout o s output stderr e = rw (e) (refl, refl)

  run_bounded-Runs :
      (command args : Command) (timeout : ℕ) (output stderr : Text)
      → ((look limit : ℕ) → h.answer look command limit ≡ finished 0 output stderr)
      → Runs (command ∷ []) (run_bounded h command args timeout) output
  unfolding run_bounded run_process
  run_bounded-Runs command args timeout output stderr ends = record {
    at = λ s.
        settle-Runs command args timeout (h.answer s.looks command timeout)
          (record s { looks = suc s.looks; ran = command ∷ s.ran }) output stderr
          (ends s.looks timeout);
  }

  -- A command of helm's that, whenever it is run, ends by itself with success.
  pub run_helm-Runs :
      (args : Command) (output stderr : Text)
      → ((look limit : ℕ) → h.answer look (helm ∷ args) limit ≡ finished 0 output stderr)
      → Runs ((helm ∷ args) ∷ []) (run_helm h args) output
  unfolding run_helm
  run_helm-Runs args output stderr ends = run_bounded-Runs _ args _ output stderr ends

  pub run_helm-succeeds :
      (args : Command) (output stderr : Text)
      → ((look limit : ℕ) → h.answer look (helm ∷ args) limit ≡ finished 0 output stderr)
      → Returns (run_helm h args) output
  run_helm-succeeds args output stderr ends = Runs-Returns (run_helm-Runs args output stderr ends)

  pub run_helm-ends :
      (args : Command) (document : Json) (p : Prints h (helm ∷ args) document)
      → Returns (run_helm h args) p.output
  run_helm-ends args document p = run_helm-succeeds args p.output p.stderr p.ends

  pub run_kubectl-Runs :
      (args : Command) (document : Json)
      (p : Prints h (kubectl ∷ text "--context" ∷ h.config.kube_context ∷ args) document)
      → Runs
          ((kubectl ∷ text "--context" ∷ h.config.kube_context ∷ args) ∷ [])
          (run_kubectl h args)
          p.output
  unfolding run_kubectl
  run_kubectl-Runs args document p = run_bounded-Runs _ args _ p.output p.stderr p.ends
