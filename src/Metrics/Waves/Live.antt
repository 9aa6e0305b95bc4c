-- ===== src/Metrics/Waves/Live.antt =====
-- When the cluster keeps up, every release is reconciled.
use mathlib.Core.List.{append-nil}
use nf_orchestrator.Prelude.{
  ℕ, zero, suc, ◌+◌, ◌-◌, ◌*◌, ◌≤◌, ◌<◌, ◌≡◌, refl, sym, ◌∙◌, min, true, false, List, [], ◌∷◌,
  arith, length, take, drop, all, length-drop,
}
use nf_orchestrator.Text.{Text}
use nf_orchestrator.Metrics.Waves.{Meeting, must_stop, admit, first_wave, reconcile_within}
use nf_orchestrator.Metrics.Waves.Laws.{joined, turn, admit-turn, reconcile_within-all}

-- A wave for each release, each of `cost`.
abbrev room : (cost : ℕ) → List Text → ℕ
room cost [] = 0
room cost (x ∷ xs) = cost + room cost xs

room-drop : (cost n : ℕ) (xs : List Text) → room cost (drop n xs) ≤ room cost xs
room-drop cost zero xs = omega arith
room-drop cost (suc n) [] = omega arith
room-drop cost (suc n) (x ∷ xs) = omega (arith, room-drop cost n xs)

room-length : (cost : ℕ) (xs : List Text) → room cost xs ≡ cost * length xs
room-length cost [] = omega arith
room-length cost (x ∷ xs) = omega (arith, room-length cost xs)

all-done :
    (m : Meeting) (look : ℕ) (names : List Text)
    → ((n : ℕ) (name : Text) → m.is_done n name ≡ true)
    → all (m.is_done look) names ≡ true
all-done m look [] done = refl
all-done m look (x ∷ xs) done = rw (done look x, all-done m look xs done) refl

module _ (m : Meeting) (cost : ℕ) (done : (n : ℕ) (name : Text) → m.is_done n name ≡ true)
    (rising : (n : ℕ) → m.clock n ≤ m.clock (suc n))
    (keeping : (n : ℕ) → m.clock (n + 4) ≤ m.clock n + cost) (some_cost : 0 < cost)
    (working : 0 < m.workers) where
  goes_on :
      (now previous : ℕ)
      → previous ≤ cost
      → now + cost ≤ m.deadline
      → must_stop m now previous ≡ false
  unfolding must_stop
  goes_on now previous small early = ground (arith, some_cost)

  wave_cost : (look : ℕ) → m.clock (look + 3) - m.clock (look + 1) ≤ cost
  wave_cost look =
      let e : look + 1 ≡ suc look = omega arith in
      let e' : suc (look + 3) ≡ look + 4 = omega arith in
      let up : m.clock (look + 3) ≤ m.clock (look + 4) = rw (← e') (rising (look + 3)) in
      let down : m.clock look ≤ m.clock (look + 1) = rw (e) (rising look) in
      omega (arith, keeping look, up, down)

  admit-live :
      (fuel look : ℕ) (queue : List Text) (wave previous : ℕ)
      → length queue < fuel
      → 0 < wave
      → previous ≤ cost
      → m.clock look + room cost queue ≤ m.deadline
      → (admit m fuel look queue wave previous).queue ≡ []
  unfolding turn
  admit-live zero look queue wave previous enough w small early = absurd (omega arith)
  admit-live (suc fuel) look [] wave previous enough w small early = unfold admit in refl
  admit-live (suc fuel) look (x ∷ xs) zero previous enough w small early = absurd (omega arith)
  admit-live (suc fuel) look (x ∷ xs) (suc wave) previous enough w small early =
      let on = goes_on (m.clock look) previous small (omega arith) in
      let ih =
        admit-live fuel (look + 4) (drop wave xs) (min (suc wave * 2) m.workers)
          (m.clock (look + 3) - m.clock (look + 1)) (omega (arith, length-drop wave xs))
          (omega arith) (wave_cost look) (omega (arith, keeping look, room-drop cost wave xs)) in
      rw
        (
          admit-turn m fuel look x xs (suc wave) previous,
          on,
          all-done m (look + 3) (take (suc wave) (x ∷ xs)) done,
        )
        ih

  -- When every wait ends with its releases done, no turn takes longer than `cost`, the clock does not
  -- run backwards, there is a worker, and the budget has room for `cost` for each release, every
  -- release is admitted: none is left in the queue, and the waves hold just helm's list, in order.
  pub reconcile_within-live :
      (names : List Text)
      → m.clock 0 + cost * length names ≤ m.deadline
      → ((reconcile_within m names).queue ≡ []) × (joined (reconcile_within m names).waves ≡ names)
  unfolding reconcile_within first_wave
  reconcile_within-live names early =
      let empty =
        admit-live (suc (length names)) 0 names (min 2 m.workers) 0 (omega arith) (omega arith)
          (omega arith) (omega (arith, room-length cost names)) in
      (
        empty,
        sym (append-nil (joined (reconcile_within m names).waves))
            ∙ (rw (← empty) refl ∙ reconcile_within-all m names),
      )
