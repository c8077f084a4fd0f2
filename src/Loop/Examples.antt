-- ===== src/Loop/Examples.antt =====
-- Tests of src/loop.c, and the theorems on it at concrete loops.
use kuu.Prelude.{inl, ℕ, ◌≡◌, refl, Bool, true, false, List, [], ◌∷◌, Option, none, some, arith}
use kuu.Timers.{Timers, update}
use kuu.Loop.{
  ok, Loop, new_waiter, driver_start, enqueue, wake, set_waiter, io_new, io_posted, io_orphan,
  io_free, loop_received, of_waiter,
}
use kuu.Loop.Waiting.{Begun, refused, yields, stays, clip_timeout, wait_park, wait_arm, wait_begin}
use kuu.Loop.Pump.{
  Outcome, yielded, returned, threw, World, of_request, dispatch, loop_run, pump_once, drain_ready,
  resume_driver, after_resume, fire_due_timers, fire_loop, wait_packets, has_ready,
}
use kuu.Loop.Places.{queued, Sane, dequeued}
use kuu.Loop.Steps.{after_wait, wait_begin-Sane, driver_start-Sane}
use kuu.Loop.Rounds.{left_running, IsFair}
use kuu.Loop.Deadlock.{Ran, loop_run-Ran}
use kuu.Loop.Waking.{wake-Woken}
use kuu.Loop.Several.{IsWaiting, IsCounted, wake-IsCounted}

abbrev no_timers : Timers
no_timers = record { slot = λ i. 0; len = 0; cap = 0; due = λ t. 0; index = λ t. none }

abbrev empty : Loop
empty = record {
  ready = [];
  current = none;
  parked = false;
  pending = 0;
  timers = no_timers;
  driver = λ d. record { started = false; finished = false; status = ok };
  waiter = λ w. new_waiter;
  request = λ i. record { src = none; freed = false };
  multi = λ k. record {
    main = 0;
    need_all = true;
    remaining = 2;
    winner = none;
    subs = 1 ∷ 2 ∷ [];
    children = λ i. none;
    results = λ i. none;
  };
  fire = λ t. of_waiter;
  told = [];
}

empty-Sane : Sane [] empty
empty-Sane = record {
  once = λ d. omega arith;
  apart = λ w d h. absurd (ground (arith, h.1));
  single = λ v w d h k. absurd (ground (arith, h.1));
  placed_alive = λ d h. absurd (omega (arith, h));
  parked_alive = λ w d h. absurd (ground (arith, h.1));
  kept = λ d h. absurd (ground (arith, h.0));
}

-- Driver 0 is the main one.
abbrev begun : Loop
begun = record empty {
  ready = (0, 0) ∷ [];
  driver = update empty.driver 0 (record { started = true; finished = false; status = ok });
}

begun-Sane : Sane [] begun
begun-Sane = unfold driver_start enqueue in driver_start-Sane [] empty 0 0 refl empty-Sane

abbrev come_back : Loop × Begun → Loop × Outcome
come_back (m, yields) = (record m { parked = true }, yielded)
come_back (m, stays) = (m, returned 0)
come_back (m, refused) = (m, threw)

-- Every coroutine waits on waiter 0, without a timeout, if no other one does.
abbrev waits : ℕ → ℕ → Loop → Loop × Outcome
waits d nargs l = elim ((l.waiter 0).driver) [
  | some other ↦ (l, threw)
  | none ↦ come_back (wait_begin (λ n. true) 0 none (some d) l 0 none)
]

abbrev world : World
world = record {
  memory = true;
  now = λ l. 0;
  resume = waits;
  on_finish = λ d n l. l;
  on_job = λ src l. l;
  on_posted = λ src l. l;
  on_timer = λ t l. l;
  on_io = λ src i l. l;
  packets = λ wait l. [];
}

come_back-Sane :
    (d : ℕ) (run : List ℕ) (r : Loop × Begun)
    → Sane (after_wait r.1 d run) r.0
    → Sane (left_running (come_back r).1 (come_back r).0.parked d run) (come_back r).0
come_back-Sane d run (m, yields) s = s
come_back-Sane d run (m, stays) s = s
come_back-Sane d run (m, refused) s = s

world-IsFair : IsFair world
world-IsFair = record {
  granted = refl;
  resumes = λ run d nargs l s e f. by_driver run d l ((l.waiter 0).driver) refl s;
  finishes = λ run d n l s. s;
  jobs = λ run src l s. s;
  posts = λ run src l s. s;
  expires = λ run t l s. s;
  ios = λ run src i l s. s;
}
  where
    by_driver :
        (run : List ℕ) (d : ℕ) (l : Loop) (o : Option ℕ)
        → (l.waiter 0).driver ≡ o
        → Sane (d ∷ run) l
        → let r : Loop × Outcome = elim o [
          | some other ↦ (l, threw)
          | none ↦ come_back (wait_begin (λ n. true) 0 none (some d) l 0 none)
        ] in
          Sane (left_running r.1 r.0.parked d run) r.0
    by_driver run d l (some other) e s = s
    by_driver run d l none e s =
        come_back-Sane d run (wait_begin (λ n. true) 0 none (some d) l 0 none)
          (wait_begin-Sane d run 0 (λ n. true) 0 none none l e s)

abbrev is_deadlock : Option (Loop × Bool) → Bool
is_deadlock none = false
is_deadlock (some (l, true)) = false
is_deadlock (some (l, false)) = true

main_waits : is_deadlock (loop_run world 5 0 begun) ≡ true
unfolding loop_run pump_once drain_ready resume_driver after_resume wait_begin wait_arm wait_park
    clip_timeout set_waiter fire_due_timers fire_loop wait_packets has_ready
main_waits = refl

loop_run-Ran_example : Ran 0 (loop_run world 5 0 begun)
loop_run-Ran_example = loop_run-Ran world world-IsFair 5 0 begun begun-Sane

-- Driver 0, out of the queue, and then parked on waiter 0.
abbrev out : Loop
out = record begun { ready = [] }

abbrev waiting : Loop
waiting = (wait_begin (λ n. true) 0 none (some 0) out 0 none).0

waiting-Sane : Sane [] waiting
unfolding wait_begin wait_arm wait_park clip_timeout set_waiter
waiting-Sane =
    wait_begin-Sane 0 [] 0 (λ n. true) 0 none none out refl
      (dequeued 0 0 [] [] begun.driver begun.waiter begun-Sane)

wake-Woken_example :
    Sane [] (wake true waiting 0)
    × (queued 0 (wake true waiting 0).ready ≡ 1)
    × (((wake true waiting 0).waiter 0).done ≡ true)
    × (wake true (wake true waiting 0) 0 ≡ wake true waiting 0)
unfolding wait_begin wait_arm wait_park clip_timeout set_waiter
wake-Woken_example = wake-Woken [] waiting 0 0 waiting-Sane refl refl

-- A request without an owner is freed when its packet comes, and one packet fewer is pending.
orphan_freed :
    let l = dispatch world (io_orphan (io_posted (io_new empty 7 3)) 7) (of_request (some 7)) in
    ((l.request 7).freed ≡ true) × (l.pending ≡ 0)
unfolding dispatch io_orphan io_posted io_new io_free loop_received
orphan_freed = (refl, refl)

-- Two children are waited for, by waiters 1 and 2.
abbrev both : Loop
both = record empty { waiter = update empty.waiter 1 (record new_waiter { on_wake = some 0 }) }

both-IsWaiting : IsWaiting both 0 1
both-IsWaiting = record {
  open_sub = refl;
  open_main = refl;
  apart = refl;
  hook = refl;
  listed = inl refl;
}

wake-IsCounted_example : IsCounted both 0 (wake true both 1)
wake-IsCounted_example = wake-IsCounted both 0 1 both-IsWaiting (omega arith)
