-- ===== src/Metrics/Waves/Laws.antt =====
-- No release is lost or repeated, and the loop ends by itself.
use mathlib.Core.List.{append-nil, append_assoc}
use nf_orchestrator.Prelude.{
  ℕ, zero, suc, ◌+◌, ◌-◌, ◌*◌, ◌≤◌, ◌<◌, ◌≡◌, refl, ◌∙◌, min, Bool, true, false, not, List, [], ◌∷◌,
  ◌++◌, arith, length, take, drop, all, take-append-drop, length-drop, if◌then◌else◌,
}
use nf_orchestrator.Text.{Text}
use nf_orchestrator.Metrics.Waves.{
  Meeting, Admitted, must_stop, admit, first_wave, reconcile_within,
}

-- All names of some waves, in order.
abbrev pub joined : List (List Text) → List Text
joined [] = []
joined (w ∷ ws) = w ++ joined ws

-- The three ways in which a turn of the loop ends, one of which is another turn.
unfoldable pub turn :
    (m : Meeting)
    → List Text
    → (batch rest : List Text) → (stop all_done : Bool) → Admitted
    → Admitted
turn m queue batch rest stop all_done next =
    if stop
    then record { waves = []; queue = queue }
    else if not all_done
    then record { waves = batch ∷ []; queue = rest }
    else record next { waves = batch ∷ next.waves }

module _ (m : Meeting) where
  pub admit-turn :
      (fuel look : ℕ) (x : Text) (xs : List Text) (wave cost : ℕ)
      → admit m (suc fuel) look (x ∷ xs) wave cost
        ≡ turn m
            (x ∷ xs)
            (take wave (x ∷ xs))
            (drop wave (x ∷ xs))
            (must_stop m (m.clock look) cost)
            (all (m.is_done (look + 3)) (take wave (x ∷ xs)))
            (admit m fuel
              (look + 4)
              (drop wave (x ∷ xs))
              (min (wave * 2) m.workers)
              (m.clock (look + 3) - m.clock (look + 1)))
  unfolding admit turn
  admit-turn fuel look x xs wave cost = refl

  turn-all :
      (queue batch rest : List Text) (stop all_done : Bool) (next : Admitted)
      → batch ++ rest ≡ queue
      → joined next.waves ++ next.queue ≡ rest
      → let r = turn m queue batch rest stop all_done next in joined r.waves ++ r.queue ≡ queue
  unfolding turn
  turn-all queue batch rest true all_done next whole ih = refl
  turn-all queue batch rest false true next whole ih =
      append_assoc batch (joined next.waves) next.queue ∙ rw ih whole
  turn-all queue batch rest false false next whole ih = rw (append-nil batch) whole

  admit-all :
      (fuel look : ℕ) (queue : List Text) (wave cost : ℕ)
      → let r = admit m fuel look queue wave cost in joined r.waves ++ r.queue ≡ queue
  admit-all zero look queue wave cost = unfold admit in refl
  admit-all (suc fuel) look [] wave cost = unfold admit in refl
  admit-all (suc fuel) look (x ∷ xs) wave cost = rw (admit-turn fuel look x xs wave cost) (
      turn-all (x ∷ xs) _ _ _ _ _ (take-append-drop wave (x ∷ xs))
        (admit-all fuel (look + 4) _ _ _))

  -- The waves that were submitted and the releases that were never started are together all the
  -- releases, in helm's order and each as often as it was listed.
  pub reconcile_within-all :
      (names : List Text)
      → joined (reconcile_within m names).waves ++ (reconcile_within m names).queue ≡ names
  unfolding reconcile_within first_wave
  reconcile_within-all names = admit-all (suc (length names)) 0 names (min 2 m.workers) 0

  drop-shrinks :
      (wave : ℕ) (x : Text) (xs : List Text) → 0 < wave → length (drop wave (x ∷ xs)) ≤ length xs
  drop-shrinks zero x xs h = absurd (omega arith)
  drop-shrinks (suc w) x xs h = omega (arith, length-drop {0} w xs)

  -- The loop's fuel is never what ends it: with at least one worker, any more of it gives the same.
  admit-fuel :
      (f g look : ℕ) (queue : List Text) (wave cost : ℕ)
      → 0 < m.workers
      → 0 < wave
      → length queue < f
      → length queue < g
      → admit m f look queue wave cost ≡ admit m g look queue wave cost
  admit-fuel zero g look queue wave cost pos w hf hg = absurd (omega arith)
  admit-fuel (suc f) zero look queue wave cost pos w hf hg = absurd (omega arith)
  admit-fuel (suc f) (suc g) look [] wave cost pos w hf hg = unfold admit in refl
  admit-fuel (suc f) (suc g) look (x ∷ xs) wave cost pos w hf hg =
      let less = drop-shrinks wave x xs w in
      rw (
        admit-turn f look x xs wave cost,
        admit-turn g look x xs wave cost,
        admit-fuel f g (look + 4) (drop wave (x ∷ xs)) (min (wave * 2) m.workers)
            (m.clock (look + 3) - m.clock (look + 1)) pos (omega arith) (omega arith) (omega arith),
      )

  -- With at least one worker, the bound on the number of turns never ends the loop: any higher
  -- bound gives the same waves and leaves the same releases.
  pub reconcile_within-fuel :
      (names : List Text) (fuel : ℕ)
      → 0 < m.workers
      → length names < fuel
      → reconcile_within m names ≡ admit m fuel 0 names (first_wave m) 0
  unfolding reconcile_within first_wave
  reconcile_within-fuel names fuel pos enough =
      admit-fuel (suc (length names)) fuel 0 names (min 2 m.workers) 0 pos (omega arith)
        (omega arith) enough
