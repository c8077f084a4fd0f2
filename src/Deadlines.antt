-- ===== src/Deadlines.antt =====
-- src/deadline.c: nested deadline scopes. A scope and a coroutine are numbers.
pub mod Nesting
mod Examples
use kuu.Prelude.{ℕ, ◌+◌, Bool, true, false, Option, none, some, ltb, ◌==◌, if◌then◌else◌}
use kuu.Timers.{update}

-- `deadline_scope` with its three values: the scope before, the token of the one that counts, and the
-- coroutine.
pub record Scope : Type 0 where
  pub due : ℕ
  pub active : Bool
  pub previous : Option ℕ
  pub effective : ℕ
  pub owner : ℕ

-- The scopes made, up to `next`, and the table of the innermost ones.
pub record Scopes : Type 0 where
  pub scope : ℕ → Scope
  pub next : ℕ
  pub top : ℕ → Option ℕ

-- The instant and the token of a new scope that would be due at `own`.
unfoldable pub inherit_due : Scopes → Option ℕ → ℕ → ℕ × ℕ
inherit_due s none own = (own, s.next)
inherit_due s (some parent) own =
    if ltb (s.scope parent).due own
    then ((s.scope parent).due, (s.scope parent).effective)
    else (own, s.next)

-- `scope_enter` at the time `now`, for a duration that is one.
unfoldable pub scope_enter : ℕ → ℕ → ℕ → Scopes → Scopes
scope_enter now co ms s =
    let (due, effective) = inherit_due s (s.top co) (now + ms) in
    let new : Scope = record {
      due = due;
      active = true;
      previous = s.top co;
      effective = effective;
      owner = co;
    } in
    record {
      scope = update s.scope s.next new;
      next = s.next + 1;
      top = update s.top co (some s.next);
    }

unfoldable pub is_top : Scopes → ℕ → Bool
is_top s t = elim (s.top (s.scope t).owner) [ none ↦ false | some u ↦ u == t ]

unfoldable pub scope_close : Scopes → ℕ → Scopes
scope_close s t =
    let old = s.scope t in
    let top = if is_top s t then update s.top old.owner old.previous else s.top in
    if old.active
    then record s { scope = update s.scope t (record old { active = false }); top = top }
    else s

-- `ku_deadline_current`: the instant and the token.
unfoldable pub deadline_current : Scopes → ℕ → Option (ℕ × ℕ)
deadline_current s co = elim (s.top co) [
  | none ↦ none
  | some t ↦ if (s.scope t).active then some ((s.scope t).due, (s.scope t).effective) else none
]

-- The innermost scope of the coroutine closes, as it does for a caller that closes them in order.
unfoldable pub close_innermost : Scopes → ℕ → Scopes
close_innermost s co = elim (s.top co) [ none ↦ s | some t ↦ scope_close s t ]
