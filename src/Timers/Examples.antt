-- ===== src/Timers/Examples.antt =====
-- Tests of the timers of src/loop.c, and the theorems on them at concrete heaps.
use kuu.Prelude.{ℕ, ◌+◌, ◌≡◌, refl, Bool, true, false, some, none, arith}
use kuu.Timers.{
  Timers, heap_swap, heap_up, heap_up_loop, heap_down, heap_down_loop, least_of, cancel_at,
  timer_cancel, timer_init, push_timer, timer_arm, IsValid,
}
use kuu.Timers.Heap.{Cancelled, timer_cancel-Cancelled}
use kuu.Timers.Arming.{Outcome, timer_arm-Outcome}
use kuu.Timers.Firing.{OnlyCancels, Fired, fire_first, fire_due_timers, fire_due_timers-Fired}

abbrev grants : ℕ → Bool
grants n = true

abbrev empty : Timers
empty = record { slot = λ i. 0; len = 0; cap = 0; due = λ t. 0; index = λ t. none }

empty-IsValid : IsValid empty
empty-IsValid = record {
  places = record { placed = λ i p. absurd (omega arith); held = λ t i e. absurd (cc) };
  fits = omega arith;
  ordered = λ c p q. absurd (omega arith);
}

abbrev one : Timers
one = (timer_arm grants 5 empty 1 40).0

timer_arm-ok : (r : Timers × Bool) (h : Timers) (t due : ℕ) → Outcome h t due r → IsValid r.0
timer_arm-ok (h', true) h t due o = o.valid
timer_arm-ok (h', false) h t due o = o.valid

one-IsValid : IsValid one
one-IsValid =
    timer_arm-ok (timer_arm grants 5 empty 1 40) empty 1 45
      (timer_arm-Outcome grants 5 empty 1 40 empty-IsValid)

-- Timer 1 is due at 45, and timer 2 at 25.
abbrev two : Timers
two = (timer_arm grants 5 one 2 20).0

two-IsValid : IsValid two
two-IsValid =
    timer_arm-ok (timer_arm grants 5 one 2 20) one 2 25
      (timer_arm-Outcome grants 5 one 2 20 one-IsValid)

two_test :
    (two.len ≡ 2) × (two.slot 0 ≡ 2) × (two.due 2 ≡ 25) × (two.cap ≡ 16) × (two.index 1 ≡ some 1)
unfolding timer_arm timer_cancel push_timer heap_up heap_up_loop heap_swap
two_test = (refl, refl, refl, refl, refl)

timer_cancel_test :
    ((timer_cancel two 2).len ≡ 1)
    × ((timer_cancel two 2).slot 0 ≡ 1)
    × ((timer_cancel two 3).len ≡ 2)
unfolding timer_arm timer_cancel cancel_at push_timer heap_up heap_up_loop heap_down heap_down_loop
    least_of heap_swap
timer_cancel_test = (refl, refl, refl)

timer_init_test : (timer_init two 3).due 3 ≡ 0
unfolding timer_init
timer_init_test = refl

-- Callbacks that leave the timers alone.
abbrev idle : Timers → ℕ → Timers
idle h t = h

idle-OnlyCancels : OnlyCancels idle
idle-OnlyCancels = record {
  valid = λ h t v. v;
  shrinks = λ h t v. omega arith;
  arms_none = λ h t u v e. e;
  same_due = λ h t v. refl;
}

fire_due_timers_test :
    ((fire_due_timers idle 3 30 two).len ≡ 1) × ((fire_due_timers idle 3 45 two).len ≡ 0)
unfolding fire_due_timers fire_first timer_arm timer_cancel cancel_at push_timer heap_up
    heap_up_loop heap_down heap_down_loop least_of heap_swap
fire_due_timers_test = (refl, refl)

timer_cancel-Cancelled_example : Cancelled two 2 (timer_cancel two 2)
timer_cancel-Cancelled_example = timer_cancel-Cancelled two 2 two-IsValid

timer_arm-Outcome_example : Outcome one 2 25 (timer_arm grants 5 one 2 20)
timer_arm-Outcome_example = timer_arm-Outcome grants 5 one 2 20 one-IsValid

fire_due_timers-Fired_example : Fired 30 two (fire_due_timers idle (two.len + 1) 30 two)
fire_due_timers-Fired_example = fire_due_timers-Fired idle idle-OnlyCancels 30 two two-IsValid
