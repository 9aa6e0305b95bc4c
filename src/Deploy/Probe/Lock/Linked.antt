-- ===== src/Deploy/Probe/Lock/Linked.antt =====
-- What one step of a thread does to the calls made one after another that lead to the same state.
use mathlib.Core.List.{Memᴰ}
use nf_orchestrator.Prelude.{
  ℕ, ◌+◌, ◌≤◌, ◌≡◌, refl, ◌∙◌, sym, Bool, true, false, List, ◌∷◌, Option, some, arith,
}
use nf_orchestrator.Errors.{ok}
use nf_orchestrator.Host.{Host, Probe, State}
use nf_orchestrator.Deploy.Probe.{measure_probe}
use nf_orchestrator.Deploy.Probe.Lock.{
  Shared, Call, Pc, outside, waiting, entered, looking, launching, measuring, measured, stamped,
  returning, answered, is_usable, limit, Move, call, acquire, read, reuse, renew, launch, finish,
  stamp, store, release, leave,
}
use nf_orchestrator.Deploy.Probe.Lock.Invariant.{critical, Fits}
use nf_orchestrator.Deploy.Probe.Lock.Serial.{Serial, rest, reused, renewed, Serially, later}

-- The call of a thread that has its answer is logged.
abbrev pub Logged : List (Call × ℕ × Probe) → Pc → Type 0
Logged log (returning c at p) = Memᴰ (c, at, p) log
Logged log (answered c at p) = Memᴰ (c, at, p) log
Logged log _ = Unit

module _ (h : Host) where
  -- A call has looked, in vain, at a time that the calls so far do not exceed.
  abbrev Pending : Serial → Option (ℕ × Probe) → Call → (until : ℕ) → Type 0
  Pending t probe c until =
      (look : ℕ) × (t.now ≤ look)
      × (look ≤ until)
      × (c.called_at ≤ look)
      × (is_usable look c.max_age probe ≡ false)

  abbrev Measured : Call → Probe → Type 0
  Measured c p = (s : State) × ((measure_probe h (limit h c.timeout) s).0 ≡ ok p)

  abbrev pub Linked : (now : ℕ) → Option (ℕ × Probe) → Serial → Pc → Type 0
  Linked now probe t (launching c) = Pending t probe c now
  Linked now probe t (measuring c) = Pending t probe c now
  Linked now probe t (measured c p) = Pending t probe c now × Measured c p
  Linked now probe t (stamped c at p) = Pending t probe c at × (at ≤ now) × Measured c p
  Linked now probe t q = Logged t.log q

  pub Linked-Logged :
      (now : ℕ) (probe : Option (ℕ × Probe)) (t : Serial) (q : Pc)
      → Linked now probe t q
      → Logged t.log q
  Linked-Logged now probe t (launching c) l = tt
  Linked-Logged now probe t (measuring c) l = tt
  Linked-Logged now probe t (measured c p) l = tt
  Linked-Logged now probe t (stamped c at p) l = tt
  Linked-Logged now probe t (returning c at p) l = l
  Linked-Logged now probe t (answered c at p) l = l
  Linked-Logged now probe t outside l = tt
  Linked-Logged now probe t (waiting c) l = tt
  Linked-Logged now probe t (entered c) l = tt
  Linked-Logged now probe t (looking c cached) l = tt

  pub Linked-tick :
      (now d : ℕ) (probe : Option (ℕ × Probe)) (t : Serial) (q : Pc)
      → Linked now probe t q
      → Linked (now + d) probe t q
  Linked-tick now d probe t (launching c) (look, behind, back, early, old) =
      (look, behind, omega arith, early, old)
  Linked-tick now d probe t (measuring c) (look, behind, back, early, old) =
      (look, behind, omega arith, early, old)
  Linked-tick now d probe t (measured c p) ((look, behind, back, early, old), ran) =
      ((look, behind, omega arith, early, old), ran)
  Linked-tick now d probe t (stamped c at p) (pending, back, ran) = (pending, omega arith, ran)
  Linked-tick now d probe t (returning c at p) l = l
  Linked-tick now d probe t (answered c at p) l = l
  Linked-tick now d probe t outside l = tt
  Linked-tick now d probe t (waiting c) l = tt
  Linked-tick now d probe t (entered c) l = tt
  Linked-tick now d probe t (looking c cached) l = tt

  -- What the states of the two have in common.
  pub record Follows (began now : ℕ) (probe : Option (ℕ × Probe)) (t : Serial) : Type 0 where
    pub run : Serially h began t
    pub behind : t.now ≤ now
    pub same : t.probe ≡ probe

  -- The calls so far, or these and one more.
  pub data Grown (t : Serial) : Serial → Bool → Type 0 where
    none_more : {inside : Bool} → Grown t t inside
    one_more :
        {now at : ℕ} {probe : Option (ℕ × Probe)} {c : Call} {p : Probe}
        → Grown t (record { now = now; probe = probe; log = (c, at, p) ∷ t.log }) true

  -- What a thread's step comes to: a call's turn is where it decides to reuse the kept answer, or
  -- where it keeps its own.
  pub record Moved (began now : ℕ) (probe : Option (ℕ × Probe)) (t : Serial) (inside : Bool)
      (q : Pc) : Type 0 where
    pub after : Serial
    pub follows : Follows began now probe after
    pub linked : Linked now probe after q
    pub grown : Grown t after inside

  module _ (began : ℕ) where
    -- The turn of a call that looked in vain.
    renewed_turn :
        (m : Shared) (t : Serial) (c : Call) (at : ℕ) (p : Probe)
        → Follows began m.now m.probe t
        → Pending t m.probe c at
        → Measured c p
        → Serially h began (record { now = at; probe = some (at, p); log = (c, at, p) ∷ t.log })
    renewed_turn m t c at p follows (look, behind, back, early, old) (s, ran) =
        later (later follows.run (rest look behind))
          (renewed at s early (rw (follows.same) old) ran back)

    stay :
        {now : ℕ} {probe : Option (ℕ × Probe)} {inside : Bool} {q : Pc} (t : Serial)
        → Follows began now probe t
        → Linked now probe t q
        → Moved began now probe t inside q
    stay t follows linked = record {
      after = t;
      follows = follows;
      linked = linked;
      grown = none_more;
    }

    pub Move-Moved :
        {m m' : Shared} {p p' : Pc} (t : Serial)
        → Move h m p m' p'
        → Fits 1 began m.now m.probe m.launched p
        → Linked m.now m.probe t p
        → Follows began m.now m.probe t
        → Moved began m'.now m'.probe t (critical p) p'
    Move-Moved t (call max_age timeout) fits linked follows = stay t follows tt
    Move-Moved t (acquire unlocked) fits linked follows = stay t follows tt
    Move-Moved t read fits linked follows = stay t follows tt
    Move-Moved {m} t (reuse {c} {at} {p} usable) (early, same, kept) linked follows = record {
      after = record { now = m.now; probe = t.probe; log = (c, at, p) ∷ t.log };
      follows = record {
        run =
            later (later follows.run (rest m.now follows.behind))
              (reused early (follows.same ∙ sym same) (rw (follows.same, ← same) usable));
        behind = omega arith;
        same = follows.same;
      };
      linked = Memᴰ.head refl;
      grown = one_more;
    }
    Move-Moved {m} t (renew {c} old) (early, same, kept) linked follows =
        stay t follows (m.now, follows.behind, omega arith, early, rw same at old)
    Move-Moved t launch fits linked follows = stay t follows linked
    Move-Moved t (finish s e) fits linked follows = stay t follows (linked, (s, e))
    Move-Moved t stamp fits (pending, ran) follows = stay t follows (pending, omega arith, ran)
    Move-Moved {m} t (store {c} {at} {p}) fits (pending, back, ran) follows = record {
      after = record { now = at; probe = some (at, p); log = (c, at, p) ∷ t.log };
      follows = record {
        run = renewed_turn m t c at p follows pending ran;
        behind = back;
        same = refl;
      };
      linked = Memᴰ.head refl;
      grown = one_more;
    }
    Move-Moved t release fits linked follows = stay t follows linked
    Move-Moved t leave fits linked follows = stay t follows tt

  Grown-Mem :
      {t t' : Serial} {inside : Bool} {x : Call × ℕ × Probe}
      → Grown t t' inside
      → Memᴰ x t.log
      → Memᴰ x t'.log
  Grown-Mem none_more x = x
  Grown-Mem one_more x = Memᴰ.tail x

  pub Grown-outside : {t t' : Serial} {inside : Bool} → Grown t t' inside → inside ≡ false → t' ≡ t
  Grown-outside none_more out = refl
  Grown-outside one_more out = absurd (ground arith)

  pub Linked-outside :
      (now now' : ℕ) (probe probe' : Option (ℕ × Probe)) {t t' : Serial} {inside : Bool} (q : Pc)
      → critical q ≡ false
      → Grown t t' inside
      → Linked now probe t q
      → Linked now' probe' t' q
  Linked-outside now now' probe probe' outside out grown l = tt
  Linked-outside now now' probe probe' (waiting c) out grown l = tt
  Linked-outside now now' probe probe' (answered c at p) out grown l = Grown-Mem grown l
  Linked-outside now now' probe probe' q out grown l = absurd (ground arith)
