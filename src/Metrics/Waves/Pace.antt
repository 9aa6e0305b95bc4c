-- ===== src/Metrics/Waves/Pace.antt =====
-- The pace of the waves: what must hold before each of them is submitted.
use nf_orchestrator.Prelude.{
  ℕ, zero, suc, ◌+◌, ◌-◌, ◌*◌, ◌≤◌, ◌<◌, ◌≡◌, refl, ◌⊎◌, inl, inr, min, Bool, true, false, List, [],
  ◌∷◌, arith, length, take, drop, all, length-take,
}
use nf_orchestrator.Text.{Text}
use nf_orchestrator.Metrics.Waves.{
  Meeting, Admitted, must_stop, admit, first_wave, reconcile_within,
}
use nf_orchestrator.Metrics.Waves.Laws.{turn, admit-turn}

-- Each wave has at most `limit` releases, and the next at most twice that, and never more than
-- there are workers; it starts before the deadline, with as much time left as the wave before it
-- took; and where another wave follows, its own releases were all done.
abbrev pub Paced : Meeting → (look limit cost : ℕ) → List (List Text) → Type 0
Paced m look limit cost [] = Unit
Paced m look limit cost (w ∷ ws) =
    (length w ≤ limit)
    × (length w ≤ m.workers)
    × (m.clock look < m.deadline)
    × (cost ≤ m.deadline - m.clock look)
    × ((ws ≡ []) ⊎ (all (m.is_done (look + 3)) w ≡ true))
    × Paced m (look + 4) (limit * 2) (m.clock (look + 3) - m.clock (look + 1)) ws

module _ (m : Meeting) where
  may_start :
      (now cost : ℕ) → must_stop m now cost ≡ false → (now < m.deadline) × (cost ≤ m.deadline - now)
  unfolding must_stop
  may_start now cost h = ground arith

  turn-Paced :
      (look limit cost : ℕ) (queue batch rest : List Text) (stop all_done : Bool) (next : Admitted)
      → must_stop m (m.clock look) cost ≡ stop
      → all (m.is_done (look + 3)) batch ≡ all_done
      → length batch ≤ limit
      → length batch ≤ m.workers
      → Paced m (look + 4) (limit * 2) (m.clock (look + 3) - m.clock (look + 1)) next.waves
      → Paced m look limit cost (turn m queue batch rest stop all_done next).waves
  unfolding turn
  turn-Paced look limit cost queue batch rest true all_done next s d a b ih = tt
  turn-Paced look limit cost queue batch rest false true next s d a b ih =
      let (early, room) = may_start (m.clock look) cost s in (a, b, early, room, inr d, ih)
  turn-Paced look limit cost queue batch rest false false next s d a b ih =
      let (early, room) = may_start (m.clock look) cost s in (a, b, early, room, inl refl, tt)

  admit-Paced :
      (fuel look limit : ℕ) (queue : List Text) (wave cost : ℕ)
      → wave ≤ limit
      → wave ≤ m.workers
      → Paced m look limit cost (admit m fuel look queue wave cost).waves
  admit-Paced zero look limit queue wave cost l w = unfold admit in tt
  admit-Paced (suc fuel) look limit [] wave cost l w = unfold admit in tt
  admit-Paced (suc fuel) look limit (x ∷ xs) wave cost l w =
      rw (admit-turn m fuel look x xs wave cost) (
        turn-Paced look limit cost (x ∷ xs) (take wave (x ∷ xs)) (drop wave (x ∷ xs)) _ _ _ refl
          refl (omega (arith, length-take wave (x ∷ xs))) (omega (arith, length-take wave (x ∷ xs)))
          (admit-Paced fuel (look + 4) (limit * 2) (drop wave (x ∷ xs)) (min (wave * 2) m.workers)
            (m.clock (look + 3) - m.clock (look + 1)) (omega arith) (omega arith)))

  -- The first wave has at most two releases and each later one at most twice the limit of the one
  -- before; none has more than there are workers, starts at or behind the deadline or with less
  -- time left than the wave before it took, or follows a wave with a release that was not done.
  pub reconcile_within-Paced : (names : List Text) → Paced m 0 2 0 (reconcile_within m names).waves
  unfolding reconcile_within first_wave
  reconcile_within-Paced names =
      admit-Paced (suc (length names)) 0 2 names (min 2 m.workers) 0 (omega arith) (omega arith)
