-- ===== src/Host/Laws.antt =====
-- Inversion of a sequence of calls.
use nf_orchestrator.Prelude.{◌≡◌, refl, ◌∙◌, ◌⊎◌, inl, inr, arith}
use nf_orchestrator.Errors.{Exception, Result, ok, err}
use nf_orchestrator.Host.{State, Exec, proceed, ◌>>=◌}

-- A sequence that returns ran both parts.
pub >>=-eq-ok :
    {A B : Type 0} (m : Exec A) (f : A → Exec B) (s : State) {b : B} {t : State}
    → (m >>= f) s ≡ (ok b, t)
    → (a : A) × (u : State) × (m s ≡ (ok a, u)) × (f a u ≡ (ok b, t))
>>=-eq-ok {A} {B} m f s {b} {t} h = split (m s) refl h
  where
    split :
        (p : Result A × State)
        → m s ≡ p
        → (let (r, u) = p in proceed r f u) ≡ (ok b, t)
        → (a : A) × (u : State) × (m s ≡ (ok a, u)) × (f a u ≡ (ok b, t))
    split (ok a, u) e k = (a, u, e, k)
    split (err x, u) e k = ground arith

-- A sequence that raises did so in its first part, or ran that and raised in its second.
pub >>=-eq-err :
    {A B : Type 0} (m : Exec A) (f : A → Exec B) (s : State) {x : Exception} {t : State}
    → (m >>= f) s ≡ (err x, t)
    → (m s ≡ (err x, t)) ⊎ ((a : A) × (u : State) × (m s ≡ (ok a, u)) × (f a u ≡ (err x, t)))
>>=-eq-err {A} {B} m f s {x} {t} h = split (m s) refl h
  where
    split :
        (p : Result A × State)
        → m s ≡ p
        → (let (r, u) = p in proceed r f u) ≡ (err x, t)
        → (m s ≡ (err x, t)) ⊎ ((a : A) × (u : State) × (m s ≡ (ok a, u)) × (f a u ≡ (err x, t)))
    split (ok a, u) e k = inr (a, u, e, k)
    split (err y, u) e k = inl (e ∙ ground arith)

pub Result-cases :
    {A : Type 0} (r : Result A) → ((a : A) × (r ≡ ok a)) ⊎ ((x : Exception) × (r ≡ err x))
Result-cases (ok a) = inl (a, refl)
Result-cases (err x) = inr (x, refl)
