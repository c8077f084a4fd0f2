-- ===== src/Loop/Places.antt =====
-- Where the drivers of src/loop.c are: in the ready queue, running, or parked on a waiter.
pub mod Changes
use kuu.Prelude.{
  ℕ, zero, suc, ◌+◌, ◌-◌, ◌≤◌, ◌<◌, ◌≡◌, refl, sym, subst, ap, ◌∙◌, ◌⊎◌, inl, inr, Bool, true,
  false, Bool-cases, List, [], ◌∷◌, ◌++◌, Option, none, some, ◌==◌, if◌then◌else◌, arith, by_if,
}
use kuu.Timers.{update}
use kuu.Loop.{Driver, Waiter, Loop}

abbrev pub queued : ℕ → List (ℕ × ℕ) → ℕ
queued d [] = 0
queued d ((e, nargs) ∷ queue) = (if e == d then 1 else 0) + queued d queue

abbrev pub running : ℕ → List ℕ → ℕ
running d [] = 0
running d (e ∷ run) = (if e == d then 1 else 0) + running d run

abbrev pub IsParked : (ℕ → Waiter) → ℕ → ℕ → Type 0
IsParked waiter w d = ((waiter w).done ≡ false) × ((waiter w).driver ≡ some d)

abbrev pub IsAlive : (ℕ → Driver) → ℕ → Type 0
IsAlive driver d = ((driver d).started ≡ true) × ((driver d).finished ≡ false)

-- Every driver that is started and not finished is in one place, and no other driver is in any; `place`
-- counts the places of a driver but for the waiters that are not done.
pub record IsSane (place : ℕ → ℕ) (driver : ℕ → Driver) (waiter : ℕ → Waiter) : Type 0 where
  pub once : (d : ℕ) → place d ≤ 1
  pub apart : (w d : ℕ) → IsParked waiter w d → place d ≡ 0
  pub single : (v w d : ℕ) → IsParked waiter v d → IsParked waiter w d → v ≡ w
  pub placed_alive : (d : ℕ) → 0 < place d → IsAlive driver d
  pub parked_alive : (w d : ℕ) → IsParked waiter w d → IsAlive driver d
  pub kept : (d : ℕ) → IsAlive driver d → (0 < place d) ⊎ ((w : ℕ) × IsParked waiter w d)

abbrev pub place : List ℕ → List (ℕ × ℕ) → ℕ → ℕ
place run ready d = queued d ready + running d run

-- A loop, with the drivers that run at the moment: one within the other where a coroutine pumps in place.
abbrev pub Sane : List ℕ → Loop → Type 0
Sane run l = IsSane (place run l.ready) l.driver l.waiter

pub moved :
    (p q : ℕ → ℕ) (driver : ℕ → Driver) (waiter : ℕ → Waiter)
    → ((d : ℕ) → q d ≡ p d)
    → IsSane p driver waiter
    → IsSane q driver waiter
moved p q driver waiter e s = record {
  once = λ d. omega (arith, e d, s.once d);
  apart = λ w d h. e d ∙ s.apart w d h;
  single = s.single;
  placed_alive = λ d h. s.placed_alive d (omega (arith, e d, h));
  parked_alive = s.parked_alive;
  kept = λ d h. ground (arith, e d, s.kept d h);
}

pub queued-append :
    (d e nargs : ℕ) (queue : List (ℕ × ℕ))
    → queued d (queue ++ (e, nargs) ∷ []) ≡ queued d queue + (if e == d then 1 else 0)
queued-append d e nargs [] = omega arith
queued-append d e nargs ((f, k) ∷ queue) = omega (arith, queued-append d e nargs queue)

-- A running driver goes to the end of the queue.
pub enqueued :
    (d nargs : ℕ) (run : List ℕ) (ready : List (ℕ × ℕ)) (driver : ℕ → Driver) (waiter : ℕ → Waiter)
    → IsSane (place (d ∷ run) ready) driver waiter
    → IsSane (place run (ready ++ (d, nargs) ∷ [])) driver waiter
enqueued d nargs run ready driver waiter s =
    moved (place (d ∷ run) ready) (place run (ready ++ (d, nargs) ∷ [])) driver waiter
      (λ e. omega (arith, queued-append e d nargs ready)) s

-- The first in the queue runs.
pub dequeued :
    (d nargs : ℕ) (run : List ℕ) (rest : List (ℕ × ℕ)) (driver : ℕ → Driver) (waiter : ℕ → Waiter)
    → IsSane (place run ((d, nargs) ∷ rest)) driver waiter
    → IsSane (place (d ∷ run) rest) driver waiter
dequeued d nargs run rest driver waiter s =
    moved (place run ((d, nargs) ∷ rest)) (place (d ∷ run) rest) driver waiter (λ e. omega arith) s

-- A waiter changes in what has no part in this.
pub flagged :
    (p : ℕ → ℕ) (driver : ℕ → Driver) (waiter : ℕ → Waiter) (w : ℕ) (new : Waiter)
    → new.done ≡ (waiter w).done
    → new.driver ≡ (waiter w).driver
    → IsSane p driver waiter
    → IsSane p driver (update waiter w new)
flagged p driver waiter w new e f s = record {
  once = s.once;
  apart = λ v d h. s.apart v d (back v d h);
  single = λ u v d h k. s.single u v d (back u d h) (back v d k);
  placed_alive = s.placed_alive;
  parked_alive = λ v d h. s.parked_alive v d (back v d h);
  kept = λ d h. elim (s.kept d h) [ inl here ↦ inl here | inr (v, k) ↦ inr (v, forth v d k) ];
}
  where
    same_done : (v : ℕ) → (update waiter w new v).done ≡ (waiter v).done
    same_done v =
        by_if (λ x. x.done ≡ (waiter v).done) (v == w) new (waiter v)
          (λ k. let at : v ≡ w = ground (arith, k) in rw at e) (λ k. refl)

    same_driver : (v : ℕ) → (update waiter w new v).driver ≡ (waiter v).driver
    same_driver v =
        by_if (λ x. x.driver ≡ (waiter v).driver) (v == w) new (waiter v)
          (λ k. let at : v ≡ w = ground (arith, k) in rw at f) (λ k. refl)

    back : (v d : ℕ) → IsParked (update waiter w new) v d → IsParked waiter v d
    back v d (a, b) = (sym (same_done v) ∙ a, sym (same_driver v) ∙ b)

    forth : (v d : ℕ) → IsParked waiter v d → IsParked (update waiter w new) v d
    forth v d (a, b) = (same_done v ∙ a, same_driver v ∙ b)
