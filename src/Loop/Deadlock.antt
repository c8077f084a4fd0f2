-- ===== src/Loop/Deadlock.antt =====
-- What the return of `ku_loop_run` of src/loop.c says of the drivers.
use kuu.Prelude.{
  ℕ, zero, suc, ◌<◌, ◌≡◌, refl, subst, Bool, true, false, inl, inr, ◌⊎◌, [], Option, none, some,
  if◌then◌else◌, arith, by_if,
}
use kuu.Loop.{Loop}
use kuu.Loop.Pump.{World, pump_once, is_finished, loop_run}
use kuu.Loop.Places.{IsParked, IsAlive, place, Sane}
use kuu.Loop.Rounds.{AtRest, PumpedOnce, IsFair, pump_once-PumpedOnce}

-- The end of the program, or a deadlock: then all drivers that are started and not finished are parked
-- on waiters that are not done, and the main one is not finished.
abbrev pub Ran : ℕ → Option (Loop × Bool) → Type 0
Ran main none = Unit
Ran main (some (l, true)) = (l.driver main).finished ≡ true
Ran main (some (l, false)) =
    ((l.driver main).finished ≡ false)
    × AtRest l
    × ((d : ℕ) → IsAlive l.driver d → (w : ℕ) × IsParked l.waiter w d)

deadlock-Ran :
    (main : ℕ) (l : Loop)
    → (l.driver main).finished ≡ false
    → Sane [] l
    → AtRest l
    → Ran main (some (l, false))
deadlock-Ran main l e s (none_ready, unarmed, quiet) =
    (e, (none_ready, unarmed, quiet), λ d h. nowhere_else d (s.kept d h))
  where
    nowhere_else :
        (d : ℕ)
        → (0 < place [] l.ready d) ⊎ ((w : ℕ) × IsParked l.waiter w d)
        → (w : ℕ) × IsParked l.waiter w d
    nowhere_else d (inr there) = there
    nowhere_else d (inl here) =
        let queue : 0 < place [] [] d = subst (λ q. 0 < place [] q d) none_ready here in
        absurd (omega (arith, queue))

-- Provided that malloc does not fail, that coroutines and callbacks use the loop by its operations alone,
-- and that at first every driver is in one place and none runs: ku_loop_run returns 0 only with the main
-- driver finished, and -1 only in a deadlock: nothing is ready, no timer is armed, no packet is pending,
-- and every driver that is started and not finished is parked on a waiter that is not done.
pub loop_run-Ran :
    (W : World) (law : IsFair W) (fuel main : ℕ) (l : Loop)
    → Sane [] l
    → Ran main (loop_run W fuel main l)
unfolding loop_run
loop_run-Ran W law zero main l s = tt
loop_run-Ran W law (suc fuel) main l s =
    by_main (is_finished main l) refl (loop_run-Ran W law fuel main)
  where
    by_pump :
        (o : Option (Loop × Bool))
        → PumpedOnce [] o
        → ((m : Loop) → Sane [] m → Ran main (loop_run W fuel main m))
        → Ran main (elim o [
          | none ↦ none
          | some (m, true) ↦ loop_run W fuel main m
          | some (m, false) ↦ if is_finished main m then some (m, true) else some (m, false)
        ])
    by_pump none h later = tt
    by_pump (some (m, true)) h later = later m h
    by_pump (some (m, false)) (h, rest) later =
        by_if {A = Option (Loop × Bool)} (Ran main) (is_finished main m) _ _ (λ e. e)
          (λ e. deadlock-Ran main m e h rest)

    by_main :
        (b : Bool)
        → is_finished main l ≡ b
        → ((m : Loop) → Sane [] m → Ran main (loop_run W fuel main m))
        → Ran main (elim b [
          | true ↦ some (l, true)
          | false ↦ elim (pump_once W fuel (is_finished main) l) [
            | none ↦ none
            | some (m, true) ↦ loop_run W fuel main m
            | some (m, false) ↦ if is_finished main m then some (m, true) else some (m, false)
          ]
        ])
    by_main true e later = e
    by_main false e later =
        by_pump (pump_once W fuel (is_finished main) l)
          (pump_once-PumpedOnce W law [] fuel (is_finished main) l s) later
