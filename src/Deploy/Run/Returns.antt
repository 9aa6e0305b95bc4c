-- ===== src/Deploy/Run/Returns.antt =====
-- Calls that give one result whatever state they start in, one rule for each way in which a call is
-- put together.
use nf_orchestrator.Prelude.{ℕ, ◌≡◌, refl, Option, some, arith}
use nf_orchestrator.Text.{Text}
use nf_orchestrator.Json.{Json}
use nf_orchestrator.Errors.{Result, ok, err}
use nf_orchestrator.Host.{Host, State, Exec, Command, finished, pure, expect, proceed, ◌>>=◌}

-- A command that, whenever it is run, ends by itself with success and prints a document.
pub record Prints (h : Host) (command : Command) (document : Json) : Type 0 where
  pub output : Text
  pub stderr : Text
  pub ends : (look limit : ℕ) → h.answer look command limit ≡ finished 0 output stderr
  pub parses : h.loads output ≡ some document

pub record Returns {A : Type 0} (m : Exec A) (a : A) : Type 0 where
  pub at : (s : State) → (m s).0 ≡ ok a

module _ {A : Type 0} where
  pub Returns-pure : (a : A) → Returns (pure a) a
  Returns-pure a = record { at = λ s. refl }

  pub Returns-expect : (o : Option A) (a : A) → o ≡ some a → Returns (expect o) a
  Returns-expect o a e = record { at = λ s. rw (e) refl }

  pub ok-injective : (a b : A) → ◌≡◌ {A = Result A} (ok a) (ok b) → a ≡ b
  ok-injective a b e = ground arith

module _ {A B : Type 0} where
  proceed-Returns :
      (r : Result A) (f : A → Exec B) (t : State) (a : A) (b : B)
      → r ≡ ok a
      → Returns (f a) b
      → (proceed r f t).0 ≡ ok b
  proceed-Returns (ok a') f t a b e rf = rw (ok-injective a' a e) (rf.at t)
  proceed-Returns (err x) f t a b e rf = absurd (ground arith)

  pub Returns-bind :
      (m : Exec A) (f : A → Exec B) (a : A) (b : B)
      → Returns m a
      → Returns (f a) b
      → Returns (m >>= f) b
  Returns-bind m f a b rm rf = record {
    at = λ s. let (r, t) = m s in proceed-Returns r f t a b (rm.at s) rf;
  }
