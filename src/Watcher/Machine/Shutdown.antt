-- ===== src/Watcher/Machine/Shutdown.antt =====
-- The end of the watcher: once the channel of the first goroutine is closed, it returns, and it starts no process if it is
-- not about to.
use fluentbit_operator.Prelude.{
  ◌≡◌, refl, ℕ, zero, suc, ◌≤◌, true, false, ◌&&◌, ◌||◌, Option, none, some, Bool-cases, inl, inr,
  arith,
}
use fluentbit_operator.Watcher.Process.{Machine, Store, start_panics}
use fluentbit_operator.Watcher.Machine.{
  Runner, Input, has_crashed, run_step, enter, run_done, checking, starting, entering, renewing,
  delaying, timing, resetting, counting, crashed, waiting, exiting, clearing, run_returned, proceed,
  timer_fires, exits,
}

-- How many steps the first goroutine still takes at most.
unfoldable pub rank : Runner → ℕ
rank starting = 10
rank entering = 9
rank (waiting p) = 8
rank (exiting t failed) = 7
rank (clearing failed) = 6
rank renewing = 5
rank delaying = 4
rank timing = 3
rank resetting = 2
rank counting = 2
rank checking = 1
rank crashed = 0
rank (run_returned failed) = 0

-- What lets the goroutine go on: the process exits, and the timer fires.
unfoldable pub willing : Runner → Input
willing (waiting p) = exits 0 false
willing timing = timer_fires
willing checking = proceed
willing starting = proceed
willing entering = proceed
willing renewing = proceed
willing delaying = proceed
willing resetting = proceed
willing counting = proceed
willing crashed = proceed
willing (exiting t failed) = proceed
willing (clearing failed) = proceed
willing (run_returned failed) = proceed

module _ {World : Type 0} (m : Machine World) where
  next : Runner → Store World → Runner × Store World
  unfolding run_step willing
  next r s = run_step m true (willing r) r s

  -- The first goroutine takes a number of such steps. Before each of them, others may have changed the variables.
  unfoldable pub go_on : ℕ → (ℕ → Store World → Store World) → Runner → Store World → Runner
  unfolding next
  go_on zero others r s = r
  go_on (suc n) others r s = let (r', s') = next r (others n s) in go_on n others r' s'

  rank-next : (r : Runner) (s : Store World) (n : ℕ) → rank r ≤ suc n → rank (next r s).0 ≤ n
  unfolding next run_step willing rank enter
  rank-next checking s n l = omega arith
  rank-next starting s n l = elim (Bool-cases (start_panics m s.cmd s.world)) [
    | inl e ↦ rw e (omega arith)
    | inr e ↦ rw e (omega arith)
  ]
  rank-next entering s n l = entered s.cmd
    where
      entered : (c : Option ℕ) → rank (enter c) ≤ n
      entered none = omega arith
      entered (some p) = omega arith
  rank-next (waiting p) s n l = omega arith
  rank-next (exiting t failed) s n l = omega arith
  rank-next (clearing failed) s n l = elim (Bool-cases (m.exit_on_failure && failed)) [
    | inl e ↦ rw e (omega arith)
    | inr e ↦ rw e (omega arith)
  ]
  rank-next renewing s n l = omega arith
  rank-next delaying s n l = omega arith
  rank-next timing s n l = omega arith
  rank-next resetting s n l = omega arith
  rank-next counting s n l = omega arith
  rank-next crashed s n l = omega arith
  rank-next (run_returned failed) s n l = omega arith

  rank-go_on :
      (n : ℕ) (others : ℕ → Store World → Store World) (r : Runner) (s : Store World)
      → rank r ≤ n
      → rank (go_on n others r s) ≡ 0
  unfolding go_on
  rank-go_on zero others r s l = omega arith
  rank-go_on (suc n) others r s l =
      rank-go_on n others (next r (others n s)).0 (next r (others n s)).1
        (rank-next r (others n s) n l)

  rank-bound : (r : Runner) → rank r ≤ 10
  unfolding rank
  rank-bound checking = omega arith
  rank-bound starting = omega arith
  rank-bound entering = omega arith
  rank-bound (waiting p) = omega arith
  rank-bound (exiting t failed) = omega arith
  rank-bound (clearing failed) = omega arith
  rank-bound renewing = omega arith
  rank-bound delaying = omega arith
  rank-bound timing = omega arith
  rank-bound resetting = omega arith
  rank-bound counting = omega arith
  rank-bound crashed = omega arith
  rank-bound (run_returned failed) = omega arith

  rank-ended : (r : Runner) → rank r ≡ 0 → (has_crashed r || run_done r) ≡ true
  unfolding rank has_crashed run_done
  rank-ended checking e = absurd (omega arith)
  rank-ended starting e = absurd (omega arith)
  rank-ended entering e = absurd (omega arith)
  rank-ended (waiting p) e = absurd (omega arith)
  rank-ended (exiting t failed) e = absurd (omega arith)
  rank-ended (clearing failed) e = absurd (omega arith)
  rank-ended renewing e = absurd (omega arith)
  rank-ended delaying e = absurd (omega arith)
  rank-ended timing e = absurd (omega arith)
  rank-ended resetting e = absurd (omega arith)
  rank-ended counting e = absurd (omega arith)
  rank-ended crashed e = refl
  rank-ended (run_returned failed) e = refl

  -- Once its channel is closed, the first goroutine has returned, or the program has crashed, after ten steps at most in
  -- which a process that it waits for exits and the timer fires, wherever it is, and whatever the others do meanwhile.
  pub closed_ends :
      (others : ℕ → Store World → Store World) (r : Runner) (s : Store World)
      → (has_crashed (go_on 10 others r s) || run_done (go_on 10 others r s)) ≡ true
  closed_ends others r s =
      rank-ended (go_on 10 others r s) (rank-go_on 10 others r s (rank-bound r))
