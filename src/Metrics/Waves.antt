-- ===== src/Metrics/Waves.antt =====
-- `reconcile_within`: releases are admitted in waves that double while the cluster keeps up.
pub mod Laws
pub mod Pace
pub mod Live
use nf_orchestrator.Prelude.{
  ℕ, zero, suc, ◌+◌, ◌-◌, ◌*◌, min, Bool, true, false, not, ◌&&◌, ◌||◌, List, [], ◌∷◌, ◌++◌, Option,
  none, some, ltb, leb, ◌==◌, if◌then◌else◌, take, drop, all, length,
}
use nf_orchestrator.Text.{Text}

-- What the waves meet: `clock n` is the n-th reading of the clock, and `is_done n name` whether the
-- release's future is done when the wait that ended before that reading is over.
pub record Meeting : Type 0 where
  pub clock : ℕ → ℕ
  pub is_done : ℕ → Text → Bool
  pub deadline : ℕ
  pub workers : ℕ

-- The waves that were submitted, the first first, and the releases that were never started.
pub record Admitted : Type 0 where
  pub waves : List (List Text)
  pub queue : List Text

module _ (m : Meeting) where
  open m use {clock, is_done, deadline, workers}

  -- `remaining <= 0 or (previous_cost and remaining < previous_cost)`
  unfoldable pub must_stop : (now previous_cost : ℕ) → Bool
  must_stop now previous_cost =
      leb deadline now || (not (previous_cost == 0) && ltb (deadline - now) previous_cost)

  abbrev add_wave : List Text → Admitted → Admitted
  add_wave batch r = record r { waves = batch ∷ r.waves }

  -- The `while` loop. Each turn reads the clock four times: for what remains, for the start of the
  -- wave, for the bound of the wait, and for the wave's cost.
  unfoldable pub admit : (fuel look : ℕ) → (queue : List Text) → (wave previous_cost : ℕ) → Admitted
  unfolding must_stop
  admit zero look queue wave previous_cost = record { waves = []; queue = queue }
  admit (suc fuel) look [] wave previous_cost = record { waves = []; queue = [] }
  admit (suc fuel) look (name ∷ names) wave previous_cost =
      let batch = take wave (name ∷ names) in
      let rest = drop wave (name ∷ names) in
      let cost = clock (look + 3) - clock (look + 1) in
      let next = add_wave batch (admit fuel (look + 4) rest (min (wave * 2) workers) cost) in
      if must_stop (clock look) previous_cost
      then record { waves = []; queue = name ∷ names }
      else if not (all (is_done (look + 3)) batch)
      then record { waves = batch ∷ []; queue = rest }
      else next

  unfoldable pub first_wave : ℕ
  first_wave = min 2 workers

  unfoldable pub reconcile_within : (names : List Text) → Admitted
  unfolding admit first_wave
  reconcile_within names = admit (suc (length names)) 0 names first_wave 0
