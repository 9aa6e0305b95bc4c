-- ===== src/Deploy/Probe/Lock/Serial.antt =====
-- The specification of `api_server_probe` under its lock: calls made one after another.
use nf_orchestrator.Prelude.{ℕ, ◌≤◌, ◌≡◌, true, false, List, [], ◌∷◌, Option, none, some}
use nf_orchestrator.Errors.{ok}
use nf_orchestrator.Host.{Host, Probe, State}
use nf_orchestrator.Deploy.Probe.{measure_probe}
use nf_orchestrator.Deploy.Probe.Lock.{Call, is_usable, limit}

-- The time, the kept answer, and the calls so far, the latest first, with their answers and the
-- times at which these were kept.
pub record Serial : Type 0 where
  pub now : ℕ
  pub probe : Option (ℕ × Probe)
  pub log : List (Call × ℕ × Probe)

-- Time passes, or one call is made and answered, with nothing in between.
pub data Turn (h : Host) (t : Serial) : Serial → Type 0 where
  rest : (next : ℕ) → t.now ≤ next → Turn h t (record t { now = next })
  reused :
      {c : Call} {at : ℕ} {p : Probe}
      → c.called_at ≤ t.now
      → t.probe ≡ some (at, p)
      → is_usable t.now c.max_age t.probe ≡ true
      → Turn h t (record t { log = (c, at, p) ∷ t.log })
  renewed :
      {c : Call} {p : Probe} (at : ℕ) (s : State)
      → c.called_at ≤ t.now
      → is_usable t.now c.max_age t.probe ≡ false
      → (measure_probe h (limit h c.timeout) s).0 ≡ ok p
      → t.now ≤ at
      → Turn h t (record { now = at; probe = some (at, p); log = (c, at, p) ∷ t.log })

pub data Serially (h : Host) (began : ℕ) : Serial → Type 0 where
  start : Serially h began (record { now = began; probe = none; log = [] })
  later : {t t' : Serial} → Serially h began t → Turn h t t' → Serially h began t'
