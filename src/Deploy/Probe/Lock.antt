-- ===== src/Deploy/Probe/Lock.antt =====
-- Any number of threads in `api_server_probe`, which `_probe_lock` lets in one at a time. A thread's
-- steps are its accesses to what the threads share and its looks at the clock.
pub mod Invariant
pub mod Moves
pub mod Preserved
pub mod Safety
pub mod Serial
pub mod Linked
pub mod Refined
pub mod Turns
use nf_orchestrator.Prelude.{
  ℕ, ◌+◌, ◌-◌, ◌≡◌, Bool, true, false, ◌&&◌, List, [], ◌∷◌, Option, none, some, ltb, leb, ◌==◌,
  option, if◌then◌else◌,
}
use nf_orchestrator.Errors.{ok}
use nf_orchestrator.Host.{Host, Probe, State}
use nf_orchestrator.Deploy.Probe.{measure_probe}

-- `now` is what `time.monotonic()` returns, `launched` the `max_age` of each caller that has started
-- a kubectl, the latest first.
pub record Shared : Type 0 where
  pub now : ℕ
  pub locked : Bool
  pub probe : Option (ℕ × Probe)
  pub launched : List ℕ

-- A call, with the time at which it was made.
pub record Call : Type 0 where
  pub max_age : ℕ
  pub timeout : Option ℕ
  pub called_at : ℕ

-- Where a thread stands, with the local variables that are live there.
pub data Pc : Type 0 where
  outside : Pc
  waiting : Call → Pc  -- before `with _probe_lock`
  entered : Call → Pc
  looking : Call → (cached : Option (ℕ × Probe)) → Pc  -- before the test of the cached answer
  launching : Call → Pc  -- before `_measure_probe`
  measuring : Call → Pc  -- while kubectl runs
  measured : Call → Probe → Pc  -- before the look at the clock
  stamped : Call → (at : ℕ) → Probe → Pc  -- before the assignment to `_probe`
  returning : Call → (at : ℕ) → Probe → Pc  -- before the lock is released
  answered : Call → (at : ℕ) → Probe → Pc

-- `cached is not None and max_age > 0 and time.monotonic() - cached[0] <= max_age`
abbrev pub is_usable : (now max_age : ℕ) → Option (ℕ × Probe) → Bool
is_usable now max_age cached =
    ltb 0 max_age && option false (λ (at, _). leb (now - at) max_age) cached

abbrev pub limit : Host → Option ℕ → ℕ
limit h none = h.config.probe_timeout
limit h (some t) = t

-- One step of one thread. What kubectl comes to is what `_measure_probe` makes of it, in whatever
-- state of the process.
pub data Move (h : Host) (m : Shared) : Pc → Shared → Pc → Type 0 where
  call :
      (max_age : ℕ) (timeout : Option ℕ)
      → Move h m outside m
          (waiting (record { max_age = max_age; timeout = timeout; called_at = m.now }))
  acquire :
      {c : Call} → m.locked ≡ false → Move h m (waiting c) (record m { locked = true }) (entered c)
  read : {c : Call} → Move h m (entered c) m (looking c m.probe)
  reuse :
      {c : Call} {at : ℕ} {p : Probe}
      → is_usable m.now c.max_age (some (at, p)) ≡ true
      → Move h m (looking c (some (at, p))) m (returning c at p)
  renew :
      {c : Call} {cached : Option (ℕ × Probe)}
      → is_usable m.now c.max_age cached ≡ false
      → Move h m (looking c cached) m (launching c)
  launch :
      {c : Call}
      → Move h m (launching c) (record m { launched = c.max_age ∷ m.launched }) (measuring c)
  finish :
      {c : Call} {p : Probe} (s : State)
      → (measure_probe h (limit h c.timeout) s).0 ≡ ok p
      → Move h m (measuring c) m (measured c p)
  stamp : {c : Call} {p : Probe} → Move h m (measured c p) m (stamped c m.now p)
  store :
      {c : Call} {at : ℕ} {p : Probe}
      → Move h m (stamped c at p) (record m { probe = some (at, p) }) (returning c at p)
  release :
      {c : Call} {at : ℕ} {p : Probe}
      → Move h m (returning c at p) (record m { locked = false }) (answered c at p)
  leave : {c : Call} {at : ℕ} {p : Probe} → Move h m (answered c at p) m outside

-- All threads; one that never calls stays outside.
pub record System : Type 0 where
  pub shared : Shared
  pub pc : ℕ → Pc

abbrev pub set_pc : (ℕ → Pc) → ℕ → Pc → ℕ → Pc
set_pc pc i p j = if i == j then p else pc j

-- A thread moves, or time passes: the clock does not run backwards.
pub data Step (h : Host) (s : System) : System → Type 0 where
  pick :
      (i : ℕ) {m : Shared} {p : Pc}
      → Move h s.shared (s.pc i) m p
      → Step h s (record { shared = m; pc = set_pc s.pc i p })
  tick : (d : ℕ) → Step h s (record s { shared = record s.shared { now = s.shared.now + d } })

-- A process that has just started, at some time.
abbrev pub initial : ℕ → System
initial now = record {
  shared = record { now = now; locked = false; probe = none; launched = [] };
  pc = λ i. outside;
}

pub data Reach (h : Host) (began : ℕ) : System → Type 0 where
  start : Reach h began (initial began)
  later : {s t : System} → Reach h began s → Step h s t → Reach h began t
