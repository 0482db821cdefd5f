-- ===== src/Watcher/Machine/Rounds.antt =====
-- A Fluent Bit that exits again and again, as the first goroutine sees it with the others at rest.
use fluentbit_operator.Prelude.{
  ◌≡◌, refl, ap₂, ℕ, zero, suc, ◌+◌, ◌^◌, ◌%◌, ◌<◌, ◌≤◌, Bool, true, false, none, some, List, [],
  ◌∷◌, ltb, leb, ℤ, arith,
}
use fluentbit_operator.Result.{Result, ok, err, not_found, already_exists, other, panicked}
use fluentbit_operator.Watcher.Backoff.{intended_delay, delay_time-intended}
use fluentbit_operator.Watcher.Process.{
  Machine, Store, Entry, started, exited, killed, kill_error, start_error, changed, not_running,
  change_handled, delayed, timer_cancelled, timer_done, note, start, start_unless, launched, launch,
  start_panics, panics, reset_after, forget, new_timer, delay, count, reset_time,
}
use fluentbit_operator.Watcher.Machine.{
  Runner, Input, run_step, enter, checking, proceed, exits, timer_fires,
}

-- The delays, the last one first.
unfoldable pub delays : List Entry → List ℤ
delays [] = []
delays (delayed d ∷ l) = d ∷ delays l
delays (started p ∷ l) = delays l
delays (exited p ∷ l) = delays l
delays (killed p ∷ l) = delays l
delays (kill_error p ∷ l) = delays l
delays (start_error e ∷ l) = delays l
delays (changed ∷ l) = delays l
delays (not_running ∷ l) = delays l
delays (change_handled ∷ l) = delays l
delays (timer_cancelled ∷ l) = delays l
delays (timer_done ∷ l) = delays l

unfoldable pub intended_delays : ℕ → List ℤ
intended_delays zero = []
intended_delays (suc n) = intended_delay n ∷ intended_delays n

module _ {World : Type 0} (m : Machine World) where
  unfoldable pub advance : List Input → Runner × Store World → Runner × Store World
  unfolding run_step
  advance [] (r, s) = (r, s)
  advance (i ∷ is) (r, s) = advance is (run_step m false i r s)

  -- A start, the exit of the process after a time, and the delay.
  abbrev pub crash : ℕ → Bool → List Input
  crash t failed =
      proceed
      ∷ proceed
      ∷ proceed
      ∷ exits t failed
      ∷ proceed
      ∷ proceed
      ∷ proceed
      ∷ proceed
      ∷ timer_fires
      ∷ proceed
      ∷ []

  -- Something else changes on the machine.
  unfoldable pub meanwhile : (World → World) → Runner × Store World → Runner × Store World
  meanwhile change (r, s) = (r, record s { world = change s.world })

  unfoldable pub rounds :
      (ℕ → World → World) → ℕ → (ℕ → ℕ) → (ℕ → Bool) → Runner × Store World → Runner × Store World
  unfolding advance meanwhile
  rounds change zero time failed s = s
  rounds change (suc n) time failed s =
      advance (crash (time n) (failed n)) (meanwhile (change n) (rounds change n time failed s))

  pub launched_ok :
      (r : World × Result ℕ) (s : Store World) (p : ℕ)
      → r.1 ≡ ok p
      → launched r s ≡ record s { world = r.0; cmd = some p; log = started p ∷ s.log }
  unfolding launched
  launched_ok (w, ok q) s p e = rw (ok_same q p e) refl
    where
      ok_same : (a b : ℕ) → ok a ≡ ok b → a ≡ b
      ok_same a b h = cc
  launched_ok (w, err (not_found x)) s p e = cc
  launched_ok (w, err (already_exists x)) s p e = cc
  launched_ok (w, err (other x)) s p e = cc
  launched_ok (w, err panicked) s p e = cc

  crash_lem :
      (t : ℕ) (failed : Bool) (s : Store World) (p : ℕ)
      → s.cmd ≡ none
      → (launch m s.world).1 ≡ ok p
      → leb reset_time t ≡ false
      → m.exit_on_failure ≡ false
      → advance (crash t failed) (checking, s) ≡ (
        checking,
        record {
          world = (launch m s.world).0;
          cmd = none;
          restart_times = (s.restart_times + 1) % 2 ^ 32;
          cancelled = false;
          log = timer_done ∷ delayed (delay m s) ∷ exited p ∷ started p ∷ s.log;
        },
      )
  unfolding advance run_step start start_unless start_panics panics enter note reset_after forget
      new_timer delay count
  crash_lem t failed s p c e short flag =
      rw (c, e, launched_ok (launch m s.world) _ p e, short, flag) refl

  delay-intended :
      (s : Store World) (n : ℕ) → s.restart_times ≡ n → n < 34 → delay m s ≡ intended_delay n
  unfolding delay
  delay-intended s n e l = rw (e, below n l) (delay_time-intended m.converted n l)
    where
      below : (k : ℕ) → k < 34 → ltb k (2 ^ 31) ≡ true
      below k h = ground arith

  -- After n rounds the first goroutine is at the top of its loop, with n restarts counted and the delays logged.
  pub record Settled (n : ℕ) (x : Runner × Store World) : Type 0 where
    pub here : x.0 ≡ checking
    pub absent : x.1.cmd ≡ none
    pub counted : x.1.restart_times ≡ n
    pub logged : delays x.1.log ≡ intended_delays n

  module _ (launches : (w : World) → (p : ℕ) × ((launch m w).1 ≡ ok p))
      (flag : m.exit_on_failure ≡ false) where
    round_settles :
        (n : ℕ) (t : ℕ) (failed : Bool) (x : Runner × Store World)
        → n < 34
        → leb reset_time t ≡ false
        → Settled n x
        → Settled (suc n) (advance (crash t failed) x)
    unfolding delays intended_delays
    round_settles n t failed (r, s) l short x =
        let (p, e) = launches s.world in
        rw (x.here, crash_lem t failed s p x.absent e short flag)
          (record {
            here = refl;
            absent = refl;
            counted = counts s.restart_times n x.counted l;
            logged = ap₂ ◌∷◌ (delay-intended s n x.counted l) x.logged;
          })
      where
        counts : (k n : ℕ) → k ≡ n → n < 34 → (k + 1) % 2 ^ 32 ≡ suc n
        counts k n e l = omega arith

    meanwhile-Settled :
        (n : ℕ) (change : World → World) (x : Runner × Store World)
        → Settled n x
        → Settled n (meanwhile change x)
    unfolding meanwhile
    meanwhile-Settled n change (r, s) x = record {
      here = x.here;
      absent = x.absent;
      counted = x.counted;
      logged = x.logged;
    }

    -- Where the first goroutine takes its steps from the top of its loop on, with no process, the counter at 0 and no delay
    -- logged, and its channel is not closed, the second goroutine takes no step, every start succeeds, the watcher does not
    -- exit on a failure, and the process always exits before it has run for ten minutes, the first n delays, for n up to 34,
    -- are the intended ones, 1, 2, 4, … seconds, at most five minutes, and n restarts are counted, whatever else changes on
    -- the machine between the rounds.
    pub rounds_back_off :
        (change : ℕ → World → World) (time : ℕ → ℕ) (failed : ℕ → Bool) (s : Store World)
        → ((i : ℕ) → leb reset_time (time i) ≡ false)
        → Settled 0 (checking, s)
        → (n : ℕ) → n ≤ 34
        → Settled n (rounds change n time failed (checking, s))
    unfolding rounds
    rounds_back_off change time failed s short z zero l = z
    rounds_back_off change time failed s short z (suc n) l =
        let x = rounds change n time failed (checking, s) in
        round_settles n (time n) (failed n) (meanwhile (change n) x) (ground arith) (short n) (
          meanwhile-Settled n (change n) x
            (rounds_back_off change time failed s short z n (ground arith)))
