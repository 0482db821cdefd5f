-- ===== src/Tests/Runs.antt =====
-- Runs of the goroutines of the watcher.
use fluentbit_operator.Prelude.{◌≡◌, refl, Bool, true, false, List, [], ◌∷◌, if◌then◌else◌}
use fluentbit_operator.Watcher.Process.{Machine}
use fluentbit_operator.Watcher.Machine.{Input, System, Reachable, steps, runs, run, has_crashed}
use fluentbit_operator.Watcher.Machine.Turns.{Turn, first, second}

-- The second goroutine cancels the timer in the first part, and goes on in the second one.
abbrev pub early_turns : List Turn
early_turns = second ∷ first ∷ second ∷ []

abbrev pub late_turns : List Turn
late_turns = first ∷ second ∷ first ∷ first ∷ second ∷ first ∷ first ∷ []

lives-split : (b c : Bool) → (if b then false else c) ≡ true → (b ≡ false) × (c ≡ true)
lives-split true c h = cc
lives-split false c h = (refl, h)

module _ {World : Type 0} (m : Machine World) where
  -- The first goroutine runs, with these inputs.
  abbrev pub run_through : List Input → System World → System World
  run_through [] s = s
  run_through (i ∷ is) s = run_through is (run m i s)

  -- The program does not crash on the way.
  unfoldable pub lives : List Input → System World → Bool
  lives [] s = true
  lives (i ∷ is) s = if has_crashed s.runner then false else lives is (run m i s)

  pub run_through-Reachable :
      (is : List Input) (s : System World)
      → lives is s ≡ true
      → Reachable m s
      → Reachable m (run_through is s)
  unfolding lives
  run_through-Reachable [] s l r = r
  run_through-Reachable (i ∷ is) s l r =
      let (alive, more) = lives-split _ _ l in
      run_through-Reachable is (run m i s) more (steps s (run m i s) r (runs i s alive))
