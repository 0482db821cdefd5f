-- ===== src/Watcher/Machine/Turns.antt =====
-- The turns that the two goroutines of the watcher take after an event, where the first one waits for the timer.
use mathlib.Core.Path.{subst}
use fluentbit_operator.Prelude.{
  ◌≡◌, refl, sym, ap, ◌∙◌, ℕ, suc, ◌-◌, Bool, if◌then◌else◌, true, false, none, some, List, [], ◌∷◌,
}
use fluentbit_operator.Result.{ok}
use fluentbit_operator.Watcher.Process.{
  Machine, Store, launch, note, start, start_unless, start_panics, panics, timer_cancelled,
  not_running, change_handled, stop, stop_running, timer_cancel, reset_restarts,
}
use fluentbit_operator.Watcher.Machine.{
  Runner, Handler, System, run, handle, run_step, handle_step, enter, proceed, checking, starting,
  entering, timing, resetting, waiting, listening, stopping, cancelling, zeroing, reporting,
}
use fluentbit_operator.Watcher.Machine.Log.{fresh, status}
use fluentbit_operator.Watcher.Machine.Rounds.{launched_ok}

-- Whose turn it is.
pub data Turn : Type 0 where
  first second : Turn

unfoldable pub firsts : List Turn → ℕ
firsts [] = 0
firsts (first ∷ ts) = suc (firsts ts)
firsts (second ∷ ts) = firsts ts

unfoldable pub seconds : List Turn → ℕ
seconds [] = 0
seconds (first ∷ ts) = seconds ts
seconds (second ∷ ts) = suc (seconds ts)

module _ {World : Type 0} (m : Machine World) where
  -- The goroutines take these turns, with no timer fired and no further event.
  unfoldable pub play : List Turn → System World → System World
  unfolding run handle
  play [] s = s
  play (first ∷ ts) s = play ts (run m proceed s)
  play (second ∷ ts) s = play ts (handle m proceed s)

  -- The process `p` has been started after the change, on the machine `w`.
  pub record Restarted (w : World) (p : ℕ) (s : Store World) : Type 0 where
    pub remembered : s.cmd ≡ some p
    pub counted : s.restart_times ≡ 0
    pub is_fresh : status s.log ≡ fresh p
    pub launches : s.world ≡ (launch m w).0

  module _ (w : World) (p : ℕ) (e : (launch m w).1 ≡ ok p) where
    -- No process runs, and nothing has changed on the machine.
    pub record Idle (s : Store World) : Type 0 where
      pub absent : s.cmd ≡ none
      pub same : s.world ≡ w

    pub record Waits (r : Runner) (s : Store World) : Type 0 where
      pub at : r ≡ timing
      pub idle : Idle s
      pub pending : s.cancelled ≡ false

    reset-Restarted : (s : Store World) → Restarted w p s → Restarted w p (reset_restarts s)
    unfolding reset_restarts
    reset-Restarted s x = record {
      remembered = x.remembered;
      counted = refl;
      is_fresh = x.is_fresh;
      launches = x.launches;
    }

    note-Restarted : (s : Store World) → Restarted w p s → Restarted w p (note change_handled s)
    unfolding note status
    note-Restarted s x = record {
      remembered = x.remembered;
      counted = x.counted;
      is_fresh = x.is_fresh;
      launches = x.launches;
    }

    -- The first goroutine from the end of the timer on, with the turns that it takes until the process is there
    pub data Goes : ℕ → Runner → Store World → Type 0 where
      told_so : (s : Store World) → Idle s → s.cancelled ≡ true → Goes 4 timing s
      resets : (s : Store World) → Idle s → Goes 3 resetting s
      checks : (s : Store World) → Idle s → s.restart_times ≡ 0 → Goes 2 checking s
      begins : (s : Store World) → Idle s → s.restart_times ≡ 0 → Goes 1 starting s
      enters : (s : Store World) → Restarted w p s → Goes 0 entering s
      stays : (q : ℕ) (s : Store World) → Restarted w p s → Goes 0 (waiting q) s

    -- The two goroutines before the timer is cancelled, and from then on, with the turns that the second one takes until
    -- it listens.
    pub data Before : ℕ → Handler → Runner → Store World → Type 0 where
      stops : (r : Runner) (s : Store World) → Waits r s → Before 4 stopping r s
      cancels : (r : Runner) (s : Store World) → Waits r s → Before 3 cancelling r s

    pub data After (b : ℕ) : ℕ → Handler → Runner → Store World → Type 0 where
      zeroes : (r : Runner) (s : Store World) → Goes b r s → After b 2 zeroing r s
      reports : (r : Runner) (s : Store World) → Goes b r s → After b 1 reporting r s
      listens : (r : Runner) (s : Store World) → Goes b r s → After b 0 listening r s

    pub same-Idle : (s t : Store World) → t.cmd ≡ s.cmd → t.world ≡ s.world → Idle s → Idle t
    same-Idle s t c h x = record { absent = c ∙ x.absent; same = h ∙ x.same }

    waits_on :
        (s : Store World) → s.cancelled ≡ false → run_step m false proceed timing s ≡ (timing, s)
    unfolding run_step
    waits_on s h = pending s.cancelled h
      where
        pending :
            (c : Bool)
            → c ≡ false
            → ◌≡◌ {A = Runner × Store World}
                (if c then (resetting, note timer_cancelled s) else (timing, s))
                (timing, s)
        pending true h = absurd cc
        pending false h = refl

    pub run-Waits :
        (r : Runner) (s : Store World)
        → Waits r s
        → Waits (run_step m false proceed r s).0 (run_step m false proceed r s).1
    run-Waits r s x =
        subst (λ q. Waits (run_step m false proceed q s).0 (run_step m false proceed q s).1)
          (sym x.at)
          (subst (λ q. Waits q.0 q.1) (sym (waits_on s x.pending))
            (record { at = refl; idle = x.idle; pending = x.pending }))

    started_at :
        (s : Store World)
        → Idle s
        → s.restart_times ≡ 0
        → Goes 0 (run_step m false proceed starting s).0 (run_step m false proceed starting s).1
    unfolding run_step start start_unless start_panics panics status
    started_at s x z =
        rw (x.absent, x.same, e, launched_ok m (launch m w) _ p e)
          (enters _ (record { remembered = refl; counted = z; is_fresh = refl; launches = refl }))

    run-Goes :
        (n : ℕ) (r : Runner) (s : Store World)
        → Goes n r s
        → Goes (n - 1) (run_step m false proceed r s).0 (run_step m false proceed r s).1
    unfolding run_step enter note reset_restarts
    run-Goes _ _ _ (told_so s x h) = rw h (resets _ (same-Idle s _ refl refl x))
    run-Goes _ _ _ (resets s x) = checks _ (same-Idle s _ refl refl x) refl
    run-Goes _ _ _ (checks s x z) = begins s x z
    run-Goes _ _ _ (begins s x z) = started_at s x z
    run-Goes _ _ _ (enters s x) = subst (λ c. Goes 0 (enter c) s) (sym x.remembered) (stays p s x)
    run-Goes _ _ _ (stays q s x) = stays q s x

    stop-note : (s : Store World) → Idle s → stop m s ≡ note not_running s
    unfolding stop stop_running
    stop-note s x = ap (λ c. stop_running m c s) x.absent

    pub stop-Waits : (r : Runner) (s : Store World) → Waits r s → Waits r (stop m s)
    unfolding note
    stop-Waits r s x =
        subst (Waits r) (sym (stop-note s x.idle))
          (record { at = x.at; idle = same-Idle s _ refl refl x.idle; pending = x.pending })

    pub cancel-Goes : (r : Runner) (s : Store World) → Waits r s → Goes 4 r (timer_cancel s)
    unfolding timer_cancel
    cancel-Goes r s x =
        subst (λ q. Goes 4 q (timer_cancel s)) (sym x.at)
          (told_so _ (same-Idle s _ refl refl x.idle) refl)

    reset-Goes : (n : ℕ) (r : Runner) (s : Store World) → Goes n r s → Goes n r (reset_restarts s)
    unfolding reset_restarts
    reset-Goes _ _ _ (told_so s x h) = told_so _ (same-Idle s _ refl refl x) h
    reset-Goes _ _ _ (resets s x) = resets _ (same-Idle s _ refl refl x)
    reset-Goes _ _ _ (checks s x z) = checks _ (same-Idle s _ refl refl x) refl
    reset-Goes _ _ _ (begins s x z) = begins _ (same-Idle s _ refl refl x) refl
    reset-Goes _ _ _ (enters s x) = enters _ (reset-Restarted s x)
    reset-Goes _ _ _ (stays q s x) = stays q _ (reset-Restarted s x)

    note-Goes :
        (n : ℕ) (r : Runner) (s : Store World) → Goes n r s → Goes n r (note change_handled s)
    unfolding note
    note-Goes _ _ _ (told_so s x h) = told_so _ (same-Idle s _ refl refl x) h
    note-Goes _ _ _ (resets s x) = resets _ (same-Idle s _ refl refl x)
    note-Goes _ _ _ (checks s x z) = checks _ (same-Idle s _ refl refl x) z
    note-Goes _ _ _ (begins s x z) = begins _ (same-Idle s _ refl refl x) z
    note-Goes _ _ _ (enters s x) = enters _ (note-Restarted s x)
    note-Goes _ _ _ (stays q s x) = stays q _ (note-Restarted s x)

    pub handle-After :
        (c : Bool) (a b : ℕ) (h : Handler) (r : Runner) (s : Store World)
        → After b a h r s
        → After b (a - 1) (handle_step m c proceed h s).0 r (handle_step m c proceed h s).1
    unfolding handle_step
    handle-After c _ b _ _ _ (zeroes r s g) = reports r _ (reset-Goes b r s g)
    handle-After c _ b _ _ _ (reports r s g) = listens r _ (note-Goes b r s g)
    handle-After c _ b _ _ _ (listens r s g) = listens r s g

    pub run-After :
        (a b : ℕ) (h : Handler) (r : Runner) (s : Store World)
        → After b a h r s
        → After (b - 1) a h (run_step m false proceed r s).0 (run_step m false proceed r s).1
    run-After _ b _ _ _ (zeroes r s g) = zeroes _ _ (run-Goes b r s g)
    run-After _ b _ _ _ (reports r s g) = reports _ _ (run-Goes b r s g)
    run-After _ b _ _ _ (listens r s g) = listens _ _ (run-Goes b r s g)
