-- ===== src/Watcher/Machine/Restart.antt =====
-- What an event does while the first goroutine waits for the timer, in every interleaving of the two goroutines.
use mathlib.Core.Path.{subst}
use fluentbit_operator.Prelude.{
  ◌≡◌, refl, ◌∙◌, ℕ, suc, ◌+◌, ◌-◌, ◌≤◌, Bool, ◌⊎◌, true, false, Option, none, List, [], ◌∷◌, arith,
  inl, inr,
}
use fluentbit_operator.Result.{ok}
use fluentbit_operator.Watcher.Process.{Machine, Store, launch, note}
use fluentbit_operator.Watcher.Machine.{
  Runner, Handler, Op, System, Reachable, run, handle, run_step, handle_step, is_valid_event,
  proceed, event, timing, listening,
}
use fluentbit_operator.Watcher.Machine.Moves.{Fits}
use fluentbit_operator.Watcher.Machine.Processes.{Reachable-Fits}
use fluentbit_operator.Watcher.Machine.Turns.{
  Turn, first, second, firsts, seconds, play, Restarted, Waits, Goes, Before, After, told_so,
  resets, checks, begins, enters, stays, stops, cancels, zeroes, reports, listens, same-Idle,
  run-Waits, stop-Waits, cancel-Goes, handle-After, run-After,
}

pub idle_at : (r : Runner) (c p : Option ℕ) → r ≡ timing → Fits r c p → c ≡ none
unfolding Fits
idle_at r c p e f = (subst (λ q. Fits q c p) e f).0

module _ {World : Type 0} (m : Machine World) where
  module _ (w : World) (p : ℕ) (e : (launch m w).1 ≡ ok p) where
    run-After_at :
        (c : Bool) (a b : ℕ) (h : Handler) (r : Runner) (s : Store World)
        → c ≡ false
        → After m w p e b a h r s
        → After m w p e (b - 1) a h (run_step m c proceed r s).0 (run_step m c proceed r s).1
    run-After_at c a b h r s k x = rw k (run-After m w p e a b h r s x)

    recount :
        (a a' b b' : ℕ) (s : System World)
        → a ≡ a'
        → b ≡ b'
        → After m w p e b a s.handler s.runner s.store
        → After m w p e b' a' s.handler s.runner s.store
    recount a a' b b' s g h x =
        subst (λ n. After m w p e n a' s.handler s.runner s.store) h
          (subst (λ n. After m w p e b n s.handler s.runner s.store) g x)

    play-After :
        (ts : List Turn) (a b : ℕ) (s : System World)
        → s.closed ≡ false
        → After m w p e b a s.handler s.runner s.store
        → After m w p e
            (b - firsts ts)
            (a - seconds ts)
            (play m ts s).handler
            (play m ts s).runner
            (play m ts s).store
    unfolding play run handle firsts seconds
    play-After [] a b s c x = recount a (a - 0) b (b - 0) s (omega arith) (omega arith) x
    play-After (first ∷ ts) a b s c x =
        recount (a - seconds ts) (a - seconds ts) (b - 1 - firsts ts) (b - suc (firsts ts))
          (play m ts (run m proceed s)) refl (omega arith)
          (play-After ts a (b - 1) (run m proceed s) c
            (run-After_at s.closed a b s.handler s.runner s.store c x))
    play-After (second ∷ ts) a b s c x =
        recount (a - 1 - seconds ts) (a - suc (seconds ts)) (b - firsts ts) (b - firsts ts)
          (play m ts (handle m proceed s)) (omega arith) refl
          (play-After ts (a - 1) b (handle m proceed s) c
            (handle-After m w p e s.watch_closed a b s.handler s.runner s.store x))

    run-Before :
        (c : Bool) (a : ℕ) (h : Handler) (r : Runner) (s : Store World)
        → c ≡ false
        → Before m w p e a h r s
        → Before m w p e a h (run_step m c proceed r s).0 (run_step m c proceed r s).1
    run-Before c _ _ _ _ k (stops r s x) = rw k (stops _ _ (run-Waits m w p e r s x))
    run-Before c _ _ _ _ k (cancels r s x) = rw k (cancels _ _ (run-Waits m w p e r s x))

    handle-Before :
        (c : Bool) (a : ℕ) (h : Handler) (r : Runner) (s : Store World)
        → Before m w p e a h r s
        → (a ≡ 4)
            × Before m w p e 3 (handle_step m c proceed h s).0 r (handle_step m c proceed h s).1
          ⊎ (a ≡ 3)
            × After m w p e 4 2 (handle_step m c proceed h s).0 r (handle_step m c proceed h s).1
    unfolding handle_step
    handle-Before c _ _ _ _ (stops r s x) = inl (refl, cancels r _ (stop-Waits m w p e r s x))
    handle-Before c _ _ _ _ (cancels r s x) = inr (refl, zeroes r _ (cancel-Goes m w p e r s x))

    Before-late :
        (a : ℕ) (h : Handler) (r : Runner) (s : Store World) → Before m w p e a h r s → 3 ≤ a
    Before-late _ _ _ _ (stops r s x) = omega arith
    Before-late _ _ _ _ (cancels r s x) = omega arith

    -- Once the second goroutine has cancelled the timer, the first one takes at most four turns.
    play-Before :
        (ts : List Turn) (a : ℕ) (s : System World)
        → s.closed ≡ false
        → Before m w p e a s.handler s.runner s.store
        → a ≤ 2 + seconds ts
        → (b : ℕ) × (b ≤ 4)
          × After m w p e b
              (a - seconds ts)
              (play m ts s).handler
              (play m ts s).runner
              (play m ts s).store
    unfolding play run handle firsts seconds
    play-Before [] a s c x l =
        let late = Before-late a s.handler s.runner s.store x in absurd (omega arith)
    play-Before (first ∷ ts) a s c x l =
        play-Before ts a (run m proceed s) c (run-Before s.closed a s.handler s.runner s.store c x)
          l
    play-Before (second ∷ ts) a s c x l =
        elim (handle-Before s.watch_closed a s.handler s.runner s.store x) [
          | inl (four, y) ↦
              let (b, low, z) = play-Before ts 3 (handle m proceed s) c y (omega arith) in
              (
                b,
                low,
                recount (3 - seconds ts) (a - suc (seconds ts)) b b (play m ts (handle m proceed s))
                    (omega arith) refl z,
              )
          | inr (three, y) ↦ (
            4 - firsts ts,
            omega arith,
            recount (2 - seconds ts) (a - suc (seconds ts)) (4 - firsts ts) (4 - firsts ts)
                (play m ts (handle m proceed s)) (omega arith) refl
                (play-After ts 2 4 (handle m proceed s) c y),
          )
        ]

    event-Before :
        (o : Op) (c : Bool) (h : Handler) (r : Runner) (s : Store World)
        → h ≡ listening
        → is_valid_event o ≡ true
        → Waits m w p e r s
        → Before m w p e 4 (handle_step m c (event o) h s).0 r (handle_step m c (event o) h s).1
    unfolding handle_step note
    event-Before o c h r s l valid x =
        rw (l, valid)
          (stops r _ (record {
            at = x.at;
            idle = same-Idle m w p e s _ refl refl x.idle;
            pending = x.pending;
          }))

    Goes-done :
        (n : ℕ) (r : Runner) (s : Store World) → n ≡ 0 → Goes m w p e n r s → Restarted m w p s
    Goes-done _ _ _ h (told_so s x y) = absurd (omega arith)
    Goes-done _ _ _ h (resets s x) = absurd (omega arith)
    Goes-done _ _ _ h (checks s x z) = absurd (omega arith)
    Goes-done _ _ _ h (begins s x z) = absurd (omega arith)
    Goes-done _ _ _ h (enters s x) = x
    Goes-done _ _ _ h (stays q s x) = x

    After-done :
        (a b : ℕ) (h : Handler) (r : Runner) (s : Store World)
        → a ≡ 0
        → b ≡ 0
        → After m w p e b a h r s
        → (h ≡ listening) × Restarted m w p s
    After-done _ b _ _ _ k l (zeroes r s g) = absurd (omega arith)
    After-done _ b _ _ _ k l (reports r s g) = absurd (omega arith)
    After-done _ b _ _ _ k l (listens r s g) = (refl, Goes-done b r s l g)

  play-closed : (ts : List Turn) (s : System World) → (play m ts s).closed ≡ s.closed
  unfolding play run handle
  play-closed [] s = refl
  play-closed (first ∷ ts) s = play-closed ts (run m proceed s)
  play-closed (second ∷ ts) s = play-closed ts (handle m proceed s)

  -- In every state that can be reached in which the first goroutine waits for the timer, which is not cancelled, the
  -- second one listens, and nothing has been told to return: where the start succeeds, after a valid event, however the
  -- two goroutines then take turns, if the timer does not fire, no further event comes, and nothing else changes on the
  -- machine, once the second one has taken two turns, and then the first one four, and the second one four in all, there is
  -- a new process, started after the change, the count of restarts is 0, and the second goroutine listens.
  pub change_restarts :
      (o : Op) (ts us : List Turn) (s : System World) (p : ℕ)
      → Reachable m s
      → s.runner ≡ timing
      → s.store.cancelled ≡ false
      → s.handler ≡ listening
      → s.closed ≡ false
      → is_valid_event o ≡ true
      → (launch m s.store.world).1 ≡ ok p
      → 2 ≤ seconds ts
      → 4 ≤ firsts us
      → 4 ≤ seconds ts + seconds us
      → ((play m us (play m ts (handle m (event o) s))).handler ≡ listening)
        × Restarted m s.store.world p (play m us (play m ts (handle m (event o) s))).store
  unfolding handle
  change_restarts o ts us s p reached r k h c valid e l1 l2 l3 =
      let waits : Waits m s.store.world p e s.runner s.store = record {
        at = r;
        idle = record { absent = idle_at s.runner _ _ r (Reachable-Fits m s reached); same = refl };
        pending = k;
      } in
      let t = handle m (event o) s in
      let (b, low, x) =
        play-Before s.store.world p e ts 4 t c
          (event-Before s.store.world p e o s.watch_closed s.handler s.runner s.store h valid waits)
          (omega arith) in
      After-done s.store.world p e (4 - seconds ts - seconds us) (b - firsts us) _ _ _ (omega arith)
        (omega arith)
        (play-After s.store.world p e us (4 - seconds ts) b (play m ts t) (play-closed ts t ∙ c) x)
