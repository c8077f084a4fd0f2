-- ===== src/Deadlines/Examples.antt =====
-- Tests of src/deadline.c, and the theorem on it at concrete scopes.
use kuu.Prelude.{ℕ, ◌+◌, ◌≡◌, refl, List, [], ◌∷◌, none, some, false, drop}
use kuu.Timers.{update}
use kuu.Deadlines.{
  Scopes, inherit_due, scope_enter, is_top, scope_close, deadline_current, close_innermost,
}
use kuu.Deadlines.Nesting.{IsNested, current_of, stacks-IsNested}

abbrev no_scopes : Scopes
no_scopes = record {
  scope = λ t. record { due = 0; active = false; previous = none; effective = 0; owner = 0 };
  next = 0;
  top = λ co. none;
}

-- Coroutine 7 has until 130, and within that until 125; coroutine 8 has until 101.
abbrev three : Scopes
three = scope_enter 101 8 0 (scope_enter 105 7 20 (scope_enter 100 7 30 no_scopes))

deadline_current_test :
    (deadline_current three 7 ≡ some (125, 1))
    × (deadline_current (close_innermost three 7) 7 ≡ some (130, 0))
    × (deadline_current (scope_enter 110 7 50 three) 7 ≡ some (125, 1))
    × (deadline_current three 8 ≡ some (101, 2))
unfolding deadline_current scope_enter inherit_due close_innermost scope_close is_top
deadline_current_test = (refl, refl, refl, refl)

abbrev no_stacks : ℕ → List (ℕ × ℕ)
no_stacks co = []

no_scopes-IsNested : IsNested no_scopes no_stacks
no_scopes-IsNested co = refl

abbrev one : Scopes
one = scope_enter 100 7 30 no_scopes

abbrev one_stack : ℕ → List (ℕ × ℕ)
one_stack = update no_stacks 7 ((130, 0) ∷ [])

one-IsNested : IsNested one one_stack
one-IsNested = (stacks-IsNested no_scopes no_stacks 100 7 30 no_scopes-IsNested).1

stacks-IsNested_example :
    (deadline_current one 7 ≡ current_of (one_stack 7))
    × IsNested (scope_enter 105 7 20 one) (update one_stack 7 ((105 + 20, one.next) ∷ one_stack 7))
    × IsNested (close_innermost one 7) (update one_stack 7 (drop 1 (one_stack 7)))
stacks-IsNested_example = stacks-IsNested one one_stack 105 7 20 one-IsNested
